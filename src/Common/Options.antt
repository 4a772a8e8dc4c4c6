-- ===== src/Common/Options.antt =====
-- Optional values: `undefined` results of the source, chained by `do`.
use mathlib.Core.Path.{◌≡◌, refl}
use mathlib.Core.Logic.{◌⊎◌, inl, inr}
use mathlib.Core.Bool.{Bool, true, false}
use mathlib.Core.Option.{Option, none, some}
use mathlib.Core.List.{List, [], ◌∷◌}

pub Option-cases {ℓ} : {A : Type ℓ} (o : Option A) → (o ≡ none) ⊎ ((a : A) × (o ≡ some a))
Option-cases none = inl refl
Option-cases (some a) = inr (a, refl)

infixl 5 ◌>>=◌ ◌>>◌
abbrev pub ◌>>=◌ {ℓ κ} : {A : Type ℓ} {B : Type κ} → Option A → (A → Option B) → Option B
none >>= f = none
some a >>= f = f a

abbrev pub ◌>>◌ {ℓ} : {B : Type ℓ} → Option (Unit {0}) → Option B → Option B
m >> k = m >>= λ _. k

-- An early return: the rest of a `do` block runs only if the test holds.
abbrev pub require : Bool → Option (Unit {0})
require true = some tt
require false = none

abbrev pub is_some {ℓ} : {A : Type ℓ} → Option A → Bool
is_some none = false
is_some (some a) = true

-- `values.map(f)` followed by the rejection of a list that holds an `undefined`.
abbrev pub map_all {ℓ κ} : {A : Type ℓ} {B : Type κ} → (A → Option B) → List A → Option (List B)
map_all f [] = some []
map_all f (x ∷ xs) = do some ((← f x) ∷ (← map_all f xs))

-- Inversion of a chain that succeeded.
pub >>=-eq-some {ℓ κ} :
    {A : Type ℓ} {B : Type κ} (m : Option A) (f : A → Option B) {b : B}
    → (m >>= f) ≡ some b
    → (a : A) × (m ≡ some a) × (f a ≡ some b)
>>=-eq-some none f h = cc
>>=-eq-some (some a) f h = (a, refl, h)

-- The same, for a conclusion that is built from what the steps gave.
pub bind_some {ℓ κ λ'} :
    {A : Type ℓ} {B : Type κ} {P : Type λ'} (m : Option A) (f : A → Option B) {b : B}
    → ((a : A) → m ≡ some a → f a ≡ some b → P)
    → (m >>= f) ≡ some b
    → P
bind_some none f k h = absurd (cc h)
bind_some (some a) f k h = k a refl h

pub require-true {ℓ} :
    {B : Type ℓ} (t : Bool) (m : Option B) {b : B}
    → (require t >> m) ≡ some b
    → (t ≡ true) × (m ≡ some b)
require-true true m h = (refl, h)
require-true false m h = absurd (cc h)

-- A property of what both cases give is one of the case distinction.
pub Option-split {ℓ} :
    {A : Type ℓ} {B : Type 0} (P : B → Type 0) {n : B} {f : A → B} (o : Option A)
    → (o ≡ none → P n)
    → ((a : A) → o ≡ some a → P (f a))
    → P (elim o [ none ↦ n | some a ↦ f a ])
Option-split P none p q = p refl
Option-split P (some a) p q = q a refl
