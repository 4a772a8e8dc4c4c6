-- ===== src/RoomUi/Tabs/Menu.antt =====
-- Where the arrow keys lead in a menu.
use native.Mathlib.Nat.{add-mod_right, mod-eq_of_lt, mod_self}
use xbin.Common.{ℕ, ◌+◌, ◌-◌, ◌%◌, ◌<◌, ◌≡◌, ap, ◌∙◌, some, ◌⊎◌, inl, inr, ltb, Bool-cases, arith}
use xbin.RoomUi.Tabs.{next_live_menu_item_index}

-- The index below, around the end.
down :
    (i n : ℕ)
    → i < n
    → ((i + 1 < n) × ((i + 1 + n) % n ≡ i + 1)) ⊎ ((i + 1 ≡ n) × ((i + 1 + n) % n ≡ 0))
down i n h = elim (Bool-cases (ltb (i + 1) n)) [
  | inl e ↦
      let below : i + 1 < n = ground arith in
      inl (below, add-mod_right (i + 1) n ∙ mod-eq_of_lt below)
  | inr e ↦
      let last : i + 1 ≡ n = ground arith in
      inr (last, add-mod_right (i + 1) n ∙ ap (λ k. k % n) last ∙ mod_self n)
]

-- The index above, around the start.
up :
    (i n : ℕ)
    → i < n
    → ((0 < i) × ((i + n - 1) % n ≡ i - 1)) ⊎ ((i ≡ 0) × ((i + n - 1) % n ≡ n - 1))
up i n h = elim (Bool-cases (ltb 0 i)) [
  | inl e ↦
      let above : i + n - 1 ≡ (i - 1) + n = ground arith in
      let small : i - 1 < n = ground arith in
      inl (ground arith, ap (λ k. k % n) above ∙ add-mod_right (i - 1) n ∙ mod-eq_of_lt small)
  | inr e ↦
      let first : i + n - 1 ≡ n - 1 = ground arith in
      let small : n - 1 < n = ground arith in
      inr (ground arith, ap (λ k. k % n) first ∙ mod-eq_of_lt small)
]

-- In a menu, ArrowDown and ArrowUp lead to an item of the menu, and each of them undoes the other.
pub arrows_undo :
    (i n : ℕ)
    → i < n
    → ((j : ℕ) × (j < n)
        × (next_live_menu_item_index i n "ArrowDown" ≡ some j)
        × (next_live_menu_item_index j n "ArrowUp" ≡ some i))
      × ((k : ℕ) × (k < n)
          × (next_live_menu_item_index i n "ArrowUp" ≡ some k)
          × (next_live_menu_item_index k n "ArrowDown" ≡ some i))
unfolding next_live_menu_item_index
arrows_undo i n h = (
  elim (down i n h) [
    | inl (a, e) ↦ (i + 1, a, ground (arith, e), ground (arith, up (i + 1) n a))
    | inr (a, e) ↦
        let z : 0 < n = ground arith in (0, z, ground (arith, e), ground (arith, up 0 n z))
  ],
  elim (up i n h) [
    | inl (a, e) ↦
        let z : i - 1 < n = ground arith in
        (i - 1, z, ground (arith, e), ground (arith, down (i - 1) n z))
    | inr (a, e) ↦
        let z : n - 1 < n = ground arith in
        (n - 1, z, ground (arith, e), ground (arith, down (n - 1) n z))
  ],
)
