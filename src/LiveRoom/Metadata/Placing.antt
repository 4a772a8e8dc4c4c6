-- ===== src/LiveRoom/Metadata/Placing.antt =====
-- The positions that the documents take in a new order.
use xbin.Common.{
  ℕ, zero, suc, ◌+◌, ◌≡◌, refl, ap, ◌∙◌, String, Bool-cases, true, false, Option, Option-cases,
  none, some, List, [], ◌∷◌, str_eq, eq_iff, length, includes, all, All, arith, inl, inr, ◌⊎◌,
}
use xbin.Wire.Types.{RoomDocument}
use xbin.LiveRoom.Metadata.{position_in, map_size, place_all}
use xbin.LiveRoom.Metadata.Abstract.{Tab, tab_of, tabs}

-- The entry at an index.
unfoldable pub entry_at : ℕ → List String → Option String
entry_at n [] = none
entry_at zero (x ∷ xs) = some x
entry_at (suc n) (x ∷ xs) = entry_at n xs

-- An id's position counts from `n` on and is that of the id.
position_in-entry :
    (n : ℕ) (id : String) (order : List String) (p : ℕ)
    → position_in n id order ≡ some p
    → (i : ℕ) × (p ≡ n + i) × (entry_at i order ≡ some id)
unfolding position_in entry_at
position_in-entry n id [] p h = absurd (cc h)
position_in-entry n id (x ∷ xs) p h = elim (Option-cases (position_in (suc n) id xs)) [
  | inr (q, e) ↦
      let (i, f, g) = position_in-entry (suc n) id xs q e in (suc i, ground (arith, f), g)
  | inl e ↦ elim (Bool-cases (str_eq x id)) [
    | inl t ↦ (0, ground arith, ap some ((eq_iff x id).0 t))
    | inr t ↦ absurd (ground arith)
  ]
]

position_in-none :
    (n : ℕ) (id : String) (order : List String)
    → (position_in n id order ≡ none)
    → includes id order ≡ false
unfolding position_in
position_in-none n id [] h = refl
position_in-none n id (x ∷ xs) h = elim (Option-cases (position_in (suc n) id xs)) [
  | inr (q, e) ↦ absurd (ground arith)
  | inl e ↦ ground (arith, position_in-none (suc n) id xs e)
]

position_in-some :
    (n : ℕ) (id : String) (order : List String) (p : ℕ)
    → position_in n id order ≡ some p
    → includes id order ≡ true
unfolding position_in
position_in-some n id [] p h = absurd (cc h)
position_in-some n id (x ∷ xs) p h = elim (Option-cases (position_in (suc n) id xs)) [
  | inr (q, e) ↦ ground (arith, position_in-some (suc n) id xs q e)
  | inl e ↦ ground arith
]

-- No id stands twice in an order.
unfoldable pub IsOrder : List String → Type 0
IsOrder [] = Unit
IsOrder (x ∷ xs) = (includes x xs ≡ false) × IsOrder xs

pub map_size-length : (order : List String) → IsOrder order → map_size order ≡ length order
unfolding map_size IsOrder
map_size-length [] h = refl
map_size-length (x ∷ xs) (p, h) = ground (arith, map_size-length xs h)

-- What the documents of a list share with those that were placed: the ids, names and languages.
module _ (order : List String) where
  abbrev pub IsPlaced : RoomDocument → Type 0
  IsPlaced d = entry_at d.position order ≡ some d.id

  pub record Placing (ds placed : List RoomDocument) : Type 0 where
    pub same_tabs : tabs placed ≡ tabs ds
    pub are_placed : All IsPlaced placed

  -- Either all documents stand in the order and are placed, or one does not.
  pub place_all-cases :
      (ds : List RoomDocument)
      → ((place_all order ds ≡ none) × (all (λ (t : Tab). includes t.id order) (tabs ds) ≡ false))
        ⊎ ((placed : List RoomDocument) × (place_all order ds ≡ some placed)
            × (all (λ (t : Tab). includes t.id order) (tabs ds) ≡ true)
            × Placing ds placed)
  unfolding place_all tabs
  place_all-cases [] = inr ([], refl, refl, record { same_tabs = refl; are_placed = tt })
  place_all-cases (d ∷ ds) = elim (Option-cases (position_in 0 d.id order)) [
    | inl e ↦ inl (ground arith, ground (arith, position_in-none 0 d.id order e))
    | inr (p, e) ↦ elim (place_all-cases ds) [
      | inl (a, b) ↦ inl (ground arith, ground arith)
      | inr (placed, a, b, h) ↦
          let (i, f, g) = position_in-entry 0 d.id order p e in
          let here : entry_at p order ≡ some d.id =
            ap (λ n. entry_at n order) (omega (arith, f)) ∙ g in
          let there = position_in-some 0 d.id order p e in
          inr (
            record d { position = p } ∷ placed,
            ground arith,
            ground arith,
            record { same_tabs = ap (tab_of d ∷◌) h.same_tabs; are_placed = (here, h.are_placed) },
          )
    ]
  ]
