-- ===== src/LiveRoom/Metadata/Named.antt =====
-- Documents and tabs by their ids.
use xbin.Common.{
  ℕ, zero, suc, ◌+◌, ◌≤◌, ◌≡◌, refl, sym, ap, subst, ◌∙◌, String, Bool-cases, true, false, ◌||◌,
  bind_some, some, List, [], ◌∷◌, str_eq, eq_iff, eq_refl, length, drop, includes, all, map_all,
  All, arith, inl, inr,
}
use mathlib.Core.Option.{some-injective}
use xbin.Wire.Types.{RoomDocument}
use xbin.LiveRoom.{has_document}
use xbin.LiveRoom.Metadata.Placing.{IsOrder, IsPlaced, entry_at}
use xbin.LiveRoom.Metadata.Abstract.{
  Tab, tab_of, tabs, find_tab, IsNumbered, IsDistinct, has_tab, has_tab-tabs,
}

-- The ids of documents whose positions count from `n` on are the order from there.
unfoldable pub ids : List RoomDocument → List String
ids [] = []
ids (d ∷ ds) = d.id ∷ ids ds

drop_entry :
    (n : ℕ) (order : List String) (x : String)
    → entry_at n order ≡ some x
    → drop n order ≡ x ∷ drop (suc n) order
unfolding entry_at
drop_entry n [] x h = absurd (cc h)
drop_entry zero (y ∷ ys) x h = ap (λ z. z ∷ ys) (some-injective _ _ h)
drop_entry (suc n) (y ∷ ys) x h = drop_entry n ys x h

drop-length : (n : ℕ) (xs : List String) → length xs ≤ n → drop n xs ≡ []
drop-length zero [] h = refl
drop-length (suc n) [] h = refl
drop-length zero (x ∷ xs) h = absurd (omega (arith, h))
drop-length (suc n) (x ∷ xs) h = drop-length n xs (omega (arith, h))

pub numbered_ids :
    (order : List String) (n : ℕ) (ds : List RoomDocument)
    → IsNumbered n ds
    → All (IsPlaced order) ds
    → n + length ds ≡ length order
    → ids ds ≡ drop n order
unfolding IsNumbered ids
numbered_ids order n [] h p e = sym (drop-length n order (omega (arith, e)))
numbered_ids order n (d ∷ ds) (q, h) (p, ps) e =
    let here : entry_at n order ≡ some d.id = ap (λ i. entry_at i order) (sym q) ∙ p in
    ap (d.id ∷◌) (numbered_ids order (suc n) ds h ps (omega (arith, e)))
    ∙ sym (drop_entry n order d.id here)

-- Each document is found by its id.
abbrev pub IsFound : List Tab → RoomDocument → Type 0
IsFound ts d = find_tab d.id ts ≡ some (tab_of d)

IsFound-later :
    (x : RoomDocument) (ts : List Tab) (ds : List RoomDocument)
    → has_document x.id ds ≡ false
    → All (IsFound ts) ds
    → All (IsFound (tab_of x ∷ ts)) ds
unfolding has_document find_tab
IsFound-later x ts [] n h = tt
IsFound-later x ts (d ∷ ds) n (p, h) =
    (ground (arith, eq_iff x.id d.id, eq_iff d.id x.id), IsFound-later x ts ds (ground arith) h)

pub All-IsFound : (ds : List RoomDocument) → IsDistinct ds → All (IsFound (tabs ds)) ds
unfolding tabs IsDistinct find_tab
All-IsFound [] h = tt
All-IsFound (d ∷ ds) (n, h) =
    (ground (arith, eq_refl d.id), IsFound-later d (tabs ds) ds n (All-IsFound ds h))

pub map_all-found :
    (ts : List Tab) (ds : List RoomDocument)
    → All (IsFound ts) ds
    → map_all (λ id. find_tab id ts) (ids ds) ≡ some (tabs ds)
unfolding tabs ids
map_all-found ts [] h = refl
map_all-found ts (d ∷ ds) (p, h) = ground (arith, map_all-found ts ds h)

has_document-tabs :
    (k : String) (ds es : List RoomDocument)
    → tabs ds ≡ tabs es
    → has_document k ds ≡ has_document k es
has_document-tabs k ds es e = sym (has_tab-tabs k ds) ∙ ap (has_tab k) e ∙ has_tab-tabs k es

cons-injective : {A : Type 0} (x y : A) (xs ys : List A) → x ∷ xs ≡ y ∷ ys → (x ≡ y) × (xs ≡ ys)
cons-injective {A = A} x y xs ys h = (
  ap (λ l. elim l as (λ _. A) [ [] ↦ x | z ∷ zs ↦ z ]) h,
  ap (λ l. elim l as (λ _. List A) [ [] ↦ [] | z ∷ zs ↦ zs ]) h,
)

pub same_tabs-IsDistinct :
    (ds es : List RoomDocument) → tabs ds ≡ tabs es → IsDistinct ds → IsDistinct es
unfolding tabs IsDistinct
same_tabs-IsDistinct ds [] e h = tt
same_tabs-IsDistinct [] (x ∷ es) e h = absurd (cc e)
same_tabs-IsDistinct (d ∷ ds) (x ∷ es) e (n, h) =
    let (same, rest) = cons-injective (tab_of d) (tab_of x) (tabs ds) (tabs es) e in
    (
      ap (λ (t : Tab). has_document t.id es) (sym same)
          ∙ sym (has_document-tabs d.id ds es rest)
          ∙ n,
      same_tabs-IsDistinct ds es rest h,
    )

pub includes-ids : (k : String) (ds : List RoomDocument) → includes k (ids ds) ≡ has_document k ds
unfolding ids has_document
includes-ids k [] = refl
includes-ids k (d ∷ ds) = ap (str_eq d.id k ||◌) (includes-ids k ds)

order-IsDistinct : (ds : List RoomDocument) → IsOrder (ids ds) → IsDistinct ds
unfolding ids IsOrder IsDistinct
order-IsDistinct [] o = tt
order-IsDistinct (d ∷ ds) (n, o) = (sym (includes-ids d.id ds) ∙ n, order-IsDistinct ds o)

pub ids-IsDistinct :
    (ds : List RoomDocument) (order : List String) → ids ds ≡ order → IsOrder order → IsDistinct ds
ids-IsDistinct ds order e o = order-IsDistinct ds (subst IsOrder (sym e) o)

pub length-ids : (ds : List RoomDocument) → length (ids ds) ≡ length ds
unfolding ids
length-ids [] = refl
length-ids (d ∷ ds) = ap suc (length-ids ds)

find_tab-id : (id : String) (ts : List Tab) (t : Tab) → find_tab id ts ≡ some t → t.id ≡ id
unfolding find_tab
find_tab-id id [] t h = absurd (cc h)
find_tab-id id (x ∷ ts) t h = elim (Bool-cases (str_eq x.id id)) [
  | inl e ↦
      let same : x ≡ t = some-injective _ _ (ground arith) in
      ap (λ (y : Tab). y.id) (sym same) ∙ (eq_iff x.id id).0 e
  | inr e ↦ find_tab-id id ts t (ground arith)
]

-- Tabs that were found by the ids of an order have those ids.
pub found_ids :
    (ts : List Tab) (order : List String) (ds : List RoomDocument)
    → map_all (λ id. find_tab id ts) order ≡ some (tabs ds)
    → ids ds ≡ order
unfolding ids tabs
found_ids ts [] [] h = refl
found_ids ts [] (d ∷ ds) h = absurd (cc h)
found_ids ts (x ∷ xs) [] h =
    bind_some (find_tab x ts) _
      (λ t e k. bind_some (map_all (λ id. find_tab id ts) xs) _ (λ us f g. absurd (cc g)) k) h
found_ids ts (x ∷ xs) (d ∷ ds) h =
    bind_some (find_tab x ts) _
      (λ t e k.
        bind_some (map_all (λ id. find_tab id ts) xs) _
          (λ us f g.
            let (same, rest) = cons-injective t (tab_of d) us (tabs ds) (some-injective _ _ g) in
            let id : d.id ≡ x = ap (λ (y : Tab). y.id) (sym same) ∙ find_tab-id x ts t e in
            ap (λ y. y ∷ ids ds) id ∙ ap (x ∷◌) (found_ids ts xs ds (f ∙ ap some rest)))
          k)
      h

pub all-ids :
    (order : List String) (ds : List RoomDocument)
    → ((k : String) → has_document k ds ≡ true → includes k order ≡ true)
    → all (λ (t : Tab). includes t.id order) (tabs ds) ≡ true
unfolding tabs has_document
all-ids order [] h = refl
all-ids order (d ∷ ds) h =
    let here = h d.id (ground (arith, eq_refl d.id)) in
    let rest = all-ids order ds (λ k e. h k (ground arith)) in ground arith
