-- ===== src/Json.antt =====
-- The values of JavaScript that reach the client as `unknown`: what `JSON.parse` yields, and
-- `undefined` where a property is missing.
use xbin.Common.{
  ℕ, String, ◌≡◌, refl, Bool, true, false, Option, none, some, List, [], ◌∷◌, if◌then◌else◌, str_eq,
  ap,
}

-- The numbers: an integer that is at least 0 (both zeros), one below 0 (`negative n` is -(n + 1)), and
-- all others (fractions, NaN, the infinities).
pub data Number : Type 0 where
  natural : ℕ → Number
  negative : ℕ → Number
  other : Number

mutual
  pub data Value : Type 0 where
    undefined null : Value
    boolean : Bool → Value
    number : Number → Value
    string : String → Value
    array : Values → Value
    object : Fields → Value

  pub data Values : Type 0 where
    nil : Values
    cons : Value → Values → Values

  pub data Fields : Type 0 where
    end : Fields
    field : String → Value → Fields → Fields

-- Number.MAX_SAFE_INTEGER
abbrev pub max_safe : ℕ
max_safe = 9007199254740991

abbrev pub items : Values → List Value
items nil = []
items (cons v vs) = v ∷ items vs

abbrev pub values : List Value → Values
values [] = nil
values (v ∷ vs) = cons v (values vs)

pub items-values : (vs : List Value) → items (values vs) ≡ vs
items-values [] = refl
items-values (v ∷ vs) = ap (v ∷◌) (items-values vs)

-- `fields.key`
abbrev pub property : String → Fields → Value
property k end = undefined
property k (field j v fs) = if str_eq j k then v else property k fs

-- `key in fields`
abbrev pub has_property : String → Fields → Bool
has_property k end = false
has_property k (field j v fs) = if str_eq j k then true else has_property k fs

-- `typeof value === "string" ? value : undefined`, and so for the other types.
abbrev pub as_string : Value → Option String
as_string (string s) = some s
as_string _ = none

abbrev pub as_boolean : Value → Option Bool
as_boolean (boolean b) = some b
as_boolean _ = none
