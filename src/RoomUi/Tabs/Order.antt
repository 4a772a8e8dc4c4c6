-- ===== src/RoomUi/Tabs/Order.antt =====
-- What a drag does to the tabs, and where the keys lead in a menu.
use mathlib.Core.List.{Perm}
use mathlib.Core.List.Perm
use xbin.Common.{
  ◌≡◌, refl, ap, subst, String, Bool, Bool-cases, true, false, not, ◌||◌, ◌&&◌, List, [], ◌∷◌, ◌++◌,
  str_eq, eq_iff, includes, keep, arith, if-split, inl, inr,
}
use xbin.RoomUi.Tabs.{Placement, before, after, insert_at, reorder_live_tab_ids}

-- No id stands twice.
abbrev pub distinct : List String → Bool
distinct [] = true
distinct (x ∷ xs) = not (includes x xs) && distinct xs

insert_at-Perm :
    (placement : Placement) (source target : String) (xs : List String)
    → includes target xs ≡ true
    → Perm (insert_at placement source target xs) (source ∷ xs)
unfolding insert_at
insert_at-Perm placement source target [] h = absurd (cc h)
insert_at-Perm before source target (x ∷ xs) h =
    if-split (λ l. Perm l (source ∷ x ∷ xs)) (str_eq x target) (λ e. Perm.refl (source ∷ x ∷ xs))
      (λ e.
        let rest = insert_at-Perm before source target xs (ground arith) in
        Perm.trans (Perm.cons x rest) (Perm.swap source x xs))
insert_at-Perm after source target (x ∷ xs) h =
    if-split (λ l. Perm l (source ∷ x ∷ xs)) (str_eq x target) (λ e. Perm.swap source x xs)
      (λ e.
        let rest = insert_at-Perm after source target xs (ground arith) in
        Perm.trans (Perm.cons x rest) (Perm.swap source x xs))

abbrev others : String → List String → List String
others source ids = keep (λ id. not (str_eq id source)) ids

others-absent :
    (source : String) (xs : List String) → includes source xs ≡ false → others source xs ≡ xs
others-absent source [] h = refl
others-absent source (x ∷ xs) h = ground (arith, others-absent source xs)

others-Perm :
    (source : String) (xs : List String)
    → distinct xs ≡ true
    → includes source xs ≡ true
    → Perm (source ∷ others source xs) xs
others-Perm source [] d h = absurd (cc h)
others-Perm source (x ∷ xs) d h = elim (Bool-cases (str_eq x source)) [
  | inl e ↦
      let same : x ≡ source = (eq_iff x source).0 e in
      let absent : includes source xs ≡ false =
        subst (λ y. includes y xs ≡ false) same (ground arith) in
      let kept : source ∷ others source (x ∷ xs) ≡ x ∷ xs =
        ground (arith, others-absent source xs absent) in
      subst (λ l. Perm (source ∷ others source (x ∷ xs)) l) kept (Perm.refl _)
  | inr e ↦
      let rest = others-Perm source xs (ground arith) (ground arith) in
      let kept : x ∷ others source xs ≡ others source (x ∷ xs) = ground arith in
      subst (λ l. Perm (source ∷ l) (x ∷ xs)) kept
        (Perm.trans (Perm.swap x source (others source xs)) (Perm.cons x rest))
]

others-includes :
    (source target : String) (xs : List String)
    → str_eq source target ≡ false
    → includes target xs ≡ true
    → includes target (others source xs) ≡ true
others-includes source target [] e h = absurd (cc h)
others-includes source target (x ∷ xs) e h = ground (
  arith,
  eq_iff x source,
  eq_iff x target,
  eq_iff source target,
  others-includes source target xs e,
)

-- A drag moves the tabs and neither loses nor doubles one, if no id stands twice.
pub reorder_live_tab_ids-Perm :
    (ids : List String) (source target : String) (placement : Placement)
    → distinct ids ≡ true
    → Perm (reorder_live_tab_ids ids source target placement) ids
unfolding reorder_live_tab_ids
reorder_live_tab_ids-Perm ids source target placement d =
    if-split (λ l. Perm l ids) {x = ids} {y = insert_at placement source target (others source ids)}
      (str_eq source target || not (includes source ids) || not (includes target ids))
      (λ e. Perm.refl ids)
      (λ e.
        Perm.trans
          (insert_at-Perm placement source target (others source ids)
            (others-includes source target ids (ground arith) (ground arith)))
          (others-Perm source ids d (ground arith)))

-- The source next to the target, on the side asked for.
abbrev pub pair : Placement → String → String → List String → List String
pair before source target back = source ∷ target ∷ back
pair after source target back = target ∷ source ∷ back

insert_at-beside :
    (placement : Placement) (source target : String) (xs : List String)
    → includes target xs ≡ true
    → (front : List String) × (back : List String) × (xs ≡ front ++ target ∷ back)
      × (insert_at placement source target xs ≡ front ++ pair placement source target back)
unfolding insert_at
insert_at-beside placement source target [] h = absurd (cc h)
insert_at-beside before source target (x ∷ xs) h = elim (Bool-cases (str_eq x target)) [
  | inl e ↦
      ([], xs, ap (λ y. y ∷ xs) ((eq_iff x target).0 e), ground (arith, (eq_iff x target).0 e))
  | inr e ↦
      let (front, back, split, joined) = insert_at-beside before source target xs (ground arith) in
      (x ∷ front, back, ap (x ∷◌) split, ground (arith, joined))
]
insert_at-beside after source target (x ∷ xs) h = elim (Bool-cases (str_eq x target)) [
  | inl e ↦
      ([], xs, ap (λ y. y ∷ xs) ((eq_iff x target).0 e), ground (arith, (eq_iff x target).0 e))
  | inr e ↦
      let (front, back, split, joined) = insert_at-beside after source target xs (ground arith) in
      (x ∷ front, back, ap (x ∷◌) split, ground (arith, joined))
]

-- A drag of a tab onto another puts it next to that one, on the side asked for, and leaves the order of all
-- others as it is.
pub reorder_live_tab_ids-beside :
    (ids : List String) (source target : String) (placement : Placement)
    → str_eq source target ≡ false
    → includes source ids ≡ true
    → includes target ids ≡ true
    → (front : List String) × (back : List String) × (keep (λ id. not (str_eq id source)) ids
        ≡ front ++ target ∷ back)
      × (reorder_live_tab_ids ids source target placement
          ≡ front ++ pair placement source target back)
unfolding reorder_live_tab_ids
reorder_live_tab_ids-beside ids source target placement apart e e' =
    let (front, back, split, joined) =
      insert_at-beside placement source target (others source ids)
        (others-includes source target ids apart e') in
    (front, back, split, ground (arith, joined))
