-- ===== src/LiveRoom/Metadata/Abstract.antt =====
-- The abstract view of the room's tabs: a list of ids with names and languages, without positions and
-- texts, and what each change means for it.
use xbin.Common.{
  ℕ, suc, ◌+◌, ◌≡◌, refl, ap, sym, ◌∙◌, String, Bool, true, false, not, ◌&&◌, ◌||◌, Option, none,
  some, List, [], ◌∷◌, ◌++◌, ◌==◌, if◌then◌else◌, str_eq, eq_iff, eq_refl, length, includes, keep,
  all, map_all, arith, if-split,
}
use mathlib.Core.Option.{some-injective}
use xbin.Wire.Types.{RoomDocument}
use xbin.LiveRoom.{has_document}
use xbin.LiveRoom.Metadata.{TabChange, created, updated, deleted, reordered, number_from, rename}

pub record Tab : Type 0 where
  pub id : String
  pub name : String
  pub language : String

abbrev pub tab_of : RoomDocument → Tab
tab_of d = record { id = d.id; name = d.name; language = d.language }

unfoldable pub tabs : List RoomDocument → List Tab
tabs [] = []
tabs (d ∷ ds) = tab_of d ∷ tabs ds

unfoldable pub has_tab : String → List Tab → Bool
has_tab id [] = false
has_tab id (t ∷ ts) = str_eq t.id id || has_tab id ts

unfoldable pub find_tab : String → List Tab → Option Tab
find_tab id [] = none
find_tab id (t ∷ ts) = if str_eq t.id id then some t else find_tab id ts

unfoldable pub rename_tab : String → String → String → List Tab → List Tab
rename_tab id name language [] = []
rename_tab id name language (t ∷ ts) =
    let rest = rename_tab id name language ts in
    if str_eq t.id id then record t { name = name; language = language } ∷ rest else t ∷ rest

-- A change of the tabs; an order that does not name each of them is none.
unfoldable pub change_tabs : TabChange → List Tab → Option (List Tab)
unfolding has_tab rename_tab find_tab
change_tabs (created d) ts = some (if has_tab d.id ts then ts else ts ++ tab_of d ∷ [])
change_tabs (updated id name language) ts = some (rename_tab id name language ts)
change_tabs (deleted id) ts = some (keep (λ (t : Tab). not (str_eq t.id id)) ts)
change_tabs (reordered order) ts =
    if length order == length ts && all (λ (t : Tab). includes t.id order) ts
    then map_all (λ id. find_tab id ts) order
    else none

-- The documents' positions are their places, from `n` on.
unfoldable pub IsNumbered : ℕ → List RoomDocument → Type 0
IsNumbered n [] = Unit
IsNumbered n (d ∷ ds) = (d.position ≡ n) × IsNumbered (suc n) ds

-- No id stands twice.
unfoldable pub IsDistinct : List RoomDocument → Type 0
IsDistinct [] = Unit
IsDistinct (d ∷ ds) = (has_document d.id ds ≡ false) × IsDistinct ds

pub has_tab-tabs :
    (id : String) (ds : List RoomDocument) → has_tab id (tabs ds) ≡ has_document id ds
unfolding has_tab tabs has_document
has_tab-tabs id [] = refl
has_tab-tabs id (d ∷ ds) = ap (str_eq d.id id ||◌) (has_tab-tabs id ds)

pub length-tabs : (ds : List RoomDocument) → length (tabs ds) ≡ length ds
unfolding tabs
length-tabs [] = refl
length-tabs (d ∷ ds) = ap suc (length-tabs ds)

-- One more document at the end.
module _ (d : RoomDocument) where
  pub tabs-append : (ds : List RoomDocument) → tabs (ds ++ d ∷ []) ≡ tabs ds ++ tab_of d ∷ []
  unfolding tabs
  tabs-append [] = refl
  tabs-append (x ∷ ds) = ap (tab_of x ∷◌) (tabs-append ds)

  pub append-IsNumbered :
      (n : ℕ) (ds : List RoomDocument)
      → d.position ≡ n + length ds
      → IsNumbered n ds
      → IsNumbered n (ds ++ d ∷ [])
  unfolding IsNumbered
  append-IsNumbered n [] e h = (omega (arith, e), tt)
  append-IsNumbered n (x ∷ ds) e (p, h) = (p, append-IsNumbered (suc n) ds (omega (arith, e)) h)

  has_document-append :
      (id : String) (ds : List RoomDocument)
      → has_document id (ds ++ d ∷ []) ≡ (has_document id ds || str_eq d.id id)
  unfolding has_document
  has_document-append id [] = ground arith
  has_document-append id (x ∷ ds) = ground (arith, has_document-append id ds)

  pub append-IsDistinct :
      (ds : List RoomDocument)
      → has_document d.id ds ≡ false
      → IsDistinct ds
      → IsDistinct (ds ++ d ∷ [])
  unfolding IsDistinct has_document
  append-IsDistinct [] n h = (refl, tt)
  append-IsDistinct (x ∷ ds) n (p, h) =
      let fresh : has_document x.id (ds ++ d ∷ []) ≡ false =
        ground (arith, has_document-append x.id ds, eq_iff x.id d.id, eq_iff d.id x.id) in
      let rest : has_document d.id ds ≡ false = ground arith in (fresh, append-IsDistinct ds rest h)

-- New names.
module _ (id name language : String) where
  pub tabs-rename :
      (ds : List RoomDocument)
      → tabs (rename id name language ds) ≡ rename_tab id name language (tabs ds)
  unfolding tabs rename rename_tab
  tabs-rename [] = refl
  tabs-rename (d ∷ ds) = ground (arith, tabs-rename ds)

  has_document-rename :
      (k : String) (ds : List RoomDocument)
      → has_document k (rename id name language ds) ≡ has_document k ds
  unfolding has_document rename
  has_document-rename k [] = refl
  has_document-rename k (d ∷ ds) = ground (arith, has_document-rename k ds)

  pub rename-IsNumbered :
      (n : ℕ) (ds : List RoomDocument) → IsNumbered n ds → IsNumbered n (rename id name language ds)
  unfolding IsNumbered rename
  rename-IsNumbered n [] h = h
  rename-IsNumbered n (d ∷ ds) (p, h) =
      let rest = rename-IsNumbered (suc n) ds h in
      if-split (IsNumbered n)
        {x = record d { name = name; language = language } ∷ rename id name language ds}
        {y = d ∷ rename id name language ds} (str_eq d.id id) (λ e. (p, rest)) (λ e. (p, rest))

  pub rename-IsDistinct :
      (ds : List RoomDocument) → IsDistinct ds → IsDistinct (rename id name language ds)
  unfolding IsDistinct rename
  rename-IsDistinct [] h = h
  rename-IsDistinct (d ∷ ds) (p, h) =
      let rest = rename-IsDistinct ds h in
      let fresh = has_document-rename d.id ds ∙ p in
      if-split IsDistinct
        {x = record d { name = name; language = language } ∷ rename id name language ds}
        {y = d ∷ rename id name language ds} (str_eq d.id id) (λ e. (fresh, rest))
        (λ e. (fresh, rest))

-- One document less.
module _ (id : String) where
  abbrev pub others : List RoomDocument → List RoomDocument
  others ds = keep (λ (d : RoomDocument). not (str_eq d.id id)) ds

  pub tabs-others :
      (n : ℕ) (ds : List RoomDocument)
      → tabs (number_from n (others ds)) ≡ keep (λ (t : Tab). not (str_eq t.id id)) (tabs ds)
  unfolding tabs number_from
  tabs-others n [] = refl
  tabs-others n (d ∷ ds) = ground (arith, tabs-others n ds, tabs-others (suc n) ds)

  others-fresh :
      (k : String) (ds : List RoomDocument)
      → has_document k ds ≡ false
      → has_document k (others ds) ≡ false
  unfolding has_document
  others-fresh k [] h = h
  others-fresh k (d ∷ ds) h = ground (arith, others-fresh k ds)

  pub others-IsDistinct : (ds : List RoomDocument) → IsDistinct ds → IsDistinct (others ds)
  unfolding IsDistinct
  others-IsDistinct [] h = h
  others-IsDistinct (d ∷ ds) (p, h) =
      if-split IsDistinct {x = d ∷ others ds} {y = others ds} (not (str_eq d.id id))
        (λ e. (others-fresh d.id ds p, others-IsDistinct ds h)) (λ e. others-IsDistinct ds h)

pub number_from-IsNumbered : (n : ℕ) (ds : List RoomDocument) → IsNumbered n (number_from n ds)
unfolding IsNumbered number_from
number_from-IsNumbered n [] = tt
number_from-IsNumbered n (d ∷ ds) = (refl, number_from-IsNumbered (suc n) ds)

has_document-number_from :
    (k : String) (n : ℕ) (ds : List RoomDocument)
    → has_document k (number_from n ds) ≡ has_document k ds
unfolding has_document number_from
has_document-number_from k n [] = refl
has_document-number_from k n (d ∷ ds) =
    ap (str_eq d.id k ||◌) (has_document-number_from k (suc n) ds)

pub number_from-IsDistinct :
    (n : ℕ) (ds : List RoomDocument) → IsDistinct ds → IsDistinct (number_from n ds)
unfolding IsDistinct number_from
number_from-IsDistinct n [] h = h
number_from-IsDistinct n (d ∷ ds) (p, h) =
    (has_document-number_from d.id (suc n) ds ∙ p, number_from-IsDistinct (suc n) ds h)

-- A change that was made changes nothing more.
has_tab-append : (t : Tab) (ts : List Tab) → has_tab t.id (ts ++ t ∷ []) ≡ true
unfolding has_tab
has_tab-append t [] = ground (arith, eq_refl t.id)
has_tab-append t (x ∷ ts) = ground (arith, has_tab-append t ts)

pub created_again :
    (d : RoomDocument) (ts us : List Tab)
    → change_tabs (created d) ts ≡ some us
    → change_tabs (created d) us ≡ some us
unfolding change_tabs
created_again d ts us h = ground (arith, has_tab-append (tab_of d) ts)

rename_tab-rename_tab :
    (id name language : String) (ts : List Tab)
    → rename_tab id name language (rename_tab id name language ts) ≡ rename_tab id name language ts
unfolding rename_tab
rename_tab-rename_tab id name language [] = refl
rename_tab-rename_tab id name language (t ∷ ts) =
    ground (arith, rename_tab-rename_tab id name language ts)

pub updated_again :
    (id name language : String) (ts us : List Tab)
    → change_tabs (updated id name language) ts ≡ some us
    → change_tabs (updated id name language) us ≡ some us
unfolding change_tabs
updated_again id name language ts us h =
    let same = some-injective _ _ h in
    ap some (
      ap (rename_tab id name language) (sym same)
      ∙ rename_tab-rename_tab id name language ts
      ∙ same)

keep-keep : (p : Tab → Bool) (ts : List Tab) → keep p (keep p ts) ≡ keep p ts
keep-keep p [] = refl
keep-keep p (t ∷ ts) = ground (arith, keep-keep p ts)

pub deleted_again :
    (id : String) (ts us : List Tab)
    → change_tabs (deleted id) ts ≡ some us
    → change_tabs (deleted id) us ≡ some us
unfolding change_tabs
deleted_again id ts us h =
    let same = some-injective _ _ h in
    let p : Tab → Bool = λ t. not (str_eq t.id id) in
    ap some (ap (keep p) (sym same) ∙ keep-keep p ts ∙ same)
