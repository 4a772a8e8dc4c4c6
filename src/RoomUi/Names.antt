-- ===== src/RoomUi/Names.antt =====
-- web/src/live-room-ui.ts: the name of a new tab.
use xbin.Common.{
  ℕ, suc, ◌+◌, ◌-◌, ◌*◌, max, ◌≡◌, refl, String, Bool, ◌&&◌, ◌||◌, Option, none, some, List, [],
  ◌∷◌, leb, ◌==◌, if◌then◌else◌, length, all, codes, decimal, str_append,
}

-- White space, as `trim` has it.
pub is_space : ℕ → Bool
is_space c =
    (leb 9 c && leb c 13)
    || c == 32
    || c == 160
    || c == 5760
    || (leb 8192 c && leb c 8202)
    || c == 8232
    || c == 8233
    || c == 8239
    || c == 8287
    || c == 12288
    || c == 65279

pub drop_space : List ℕ → List ℕ
unfolding is_space
drop_space [] = []
drop_space (c ∷ cs) = let rest = drop_space cs in if is_space c then rest else c ∷ cs

abbrev pub reverse_onto : List ℕ → List ℕ → List ℕ
reverse_onto [] ys = ys
reverse_onto (x ∷ xs) ys = reverse_onto xs (x ∷ ys)

-- `text.trim()`
unfoldable pub trim : List ℕ → List ℕ
unfolding drop_space
trim cs = reverse_onto (drop_space (reverse_onto (drop_space cs) [])) []

abbrev pub is_digit : ℕ → Bool
is_digit c = leb 48 c && leb c 57

-- `Number(digits)`, exact where the source rounds above 2 ^ 53
pub number_of : ℕ → List ℕ → ℕ
number_of n [] = n
number_of n (c ∷ cs) = number_of (n * 10 + (c - 48)) cs

-- `(\d+)$`
pub digits_number : List ℕ → Option ℕ
unfolding number_of
digits_number [] = none
digits_number (c ∷ cs) = if all is_digit (c ∷ cs) then some (number_of 0 (c ∷ cs)) else none

-- `/^tab-?(\d+)$/i`
pub tab_number : List ℕ → Option ℕ
unfolding digits_number
tab_number (t ∷ a ∷ b ∷ []) = none
tab_number (t ∷ a ∷ b ∷ c ∷ cs) =
    if (t == 116 || t == 84) && (a == 97 || a == 65) && (b == 98 || b == 66)
    then (if c == 45 then digits_number cs else digits_number (c ∷ cs))
    else none
tab_number _ = none

-- The loop of nextLiveTabName.
pub highest_index : ℕ → List String → ℕ
unfolding tab_number trim
highest_index highest [] = highest
highest_index highest (name ∷ names) =
    highest_index
      (elim (tab_number (trim (codes name))) [ none ↦ highest | some n ↦ max highest n ]) names

-- nextLiveTabName
unfoldable pub next_live_tab_name : List String → String
unfolding highest_index
next_live_tab_name names =
    let n = max (length names + 1) (highest_index 0 names + 1) in
    str_append "tab" (decimal (suc n) n)

after_seven : next_live_tab_name ("notes" ∷ " Tab-7 " ∷ []) ≡ "tab8"
unfolding next_live_tab_name codes decimal
after_seven = refl
