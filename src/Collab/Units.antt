-- ===== src/Collab/Units.antt =====
-- Parts of texts and the units in them.
use xbin.Common.{
  ℕ, zero, suc, ◌+◌, ◌<◌, ◌≡◌, refl, ap, sym, ◌∙◌, Bool, true, some, List, [], ◌∷◌, arith, length,
  take, drop, all,
}
use xbin.Collab.{unit_at, same_unit, same_text}

-- One more unit that is the same makes the prefixes that are the same longer.
pub take_more :
    (k : ℕ) (xs ys : List ℕ)
    → take k xs ≡ take k ys
    → same_unit (unit_at xs k) (unit_at ys k) ≡ true
    → take (suc k) xs ≡ take (suc k) ys
unfolding unit_at
take_more zero [] ys e h = absurd (ground arith)
take_more zero (x ∷ xs) [] e h = absurd (ground arith)
take_more zero (x ∷ xs) (y ∷ ys) e h = ground arith
take_more (suc k) [] ys e h = absurd (ground arith)
take_more (suc k) (x ∷ xs) [] e h = absurd (ground arith)
take_more (suc k) (x ∷ xs) (y ∷ ys) e h =
    let rest = take_more k xs ys (ground arith) h in ground (arith, rest)

-- A text from a unit on is that unit and the rest.
pub drop_unit :
    (k : ℕ) (xs : List ℕ)
    → k < length xs
    → (x : ℕ) × (unit_at xs k ≡ some x) × (drop k xs ≡ x ∷ drop (suc k) xs)
unfolding unit_at
drop_unit zero [] h = absurd (omega arith)
drop_unit zero (x ∷ xs) h = (x, refl, refl)
drop_unit (suc k) [] h = absurd (omega arith)
drop_unit (suc k) (x ∷ xs) h = drop_unit k xs (omega arith)

pub drop_more :
    (k l : ℕ) (xs ys : List ℕ)
    → k < length xs
    → l < length ys
    → drop (suc k) xs ≡ drop (suc l) ys
    → same_unit (unit_at xs k) (unit_at ys l) ≡ true
    → drop k xs ≡ drop l ys
drop_more k l xs ys h h' e t =
    let (x, a, b) = drop_unit k xs h in
    let (y, a', b') = drop_unit l ys h' in ground (arith, a, b, a', b')

pub drop_all : (xs : List ℕ) → drop (length xs) xs ≡ []
drop_all [] = refl
drop_all (x ∷ xs) = drop_all xs

drop-nil : (k : ℕ) → drop {A = ℕ} k [] ≡ []
drop-nil zero = refl
drop-nil (suc k) = refl

pub drop-drop : (k l : ℕ) (xs : List ℕ) → drop k (drop l xs) ≡ drop (l + k) xs
drop-drop k zero xs = ap (λ n. drop n xs) (omega arith)
drop-drop k (suc l) [] = drop-nil k ∙ sym (drop-nil (suc l + k))
drop-drop k (suc l) (x ∷ xs) =
    let e : suc (l + k) ≡ suc l + k = omega arith in drop-drop k l xs ∙ ap (λ n. drop n (x ∷ xs)) e

pub all-take : (p : ℕ → Bool) (k : ℕ) (xs : List ℕ) → all p xs ≡ true → all p (take k xs) ≡ true
all-take p zero xs h = refl
all-take p (suc k) [] h = refl
all-take p (suc k) (x ∷ xs) h = ground (arith, all-take p k xs)

pub all-drop : (p : ℕ → Bool) (k : ℕ) (xs : List ℕ) → all p xs ≡ true → all p (drop k xs) ≡ true
all-drop p zero xs h = h
all-drop p (suc k) [] h = refl
all-drop p (suc k) (x ∷ xs) h = all-drop p k xs (ground arith)

pub same_text-eq : (xs ys : List ℕ) → same_text xs ys ≡ true → xs ≡ ys
unfolding same_text
same_text-eq [] [] h = refl
same_text-eq [] (y ∷ ys) h = absurd (cc h)
same_text-eq (x ∷ xs) [] h = absurd (cc h)
same_text-eq (x ∷ xs) (y ∷ ys) h = ground (arith, same_text-eq xs ys)
