-- ===== src/Operations/Classes.antt =====
-- When an operation may be retried.
use xbin.Common.{
  ◌≡◌, ◌≢◌, ◌↔◌, ◌⊎◌, String, Option, none, some, arith, eq_iff, inl, inr, Option-cases, ap,
}
use mathlib.Core.Option.{some-injective}
use xbin.Operations.{retryable, status_class, code_class, classify}

-- The status names no class, or there is none.
abbrev pub IsUnknown : Option String → Type 0
IsUnknown none = Unit
IsUnknown (some s) =
    (s ≢ "retryable")
    × (s ≢ "resync_required")
    × (s ≢ "auth_required")
    × (s ≢ "overloaded")
    × (s ≢ "validation")
    × (s ≢ "terminal")

status_class-none : (s : String) → status_class s ≡ none → IsUnknown (some s)
unfolding status_class
status_class-none s h = (
  ground (arith, eq_iff s "retryable"),
  ground (arith, eq_iff s "resync_required"),
  ground (arith, eq_iff s "auth_required"),
  ground (arith, eq_iff s "overloaded"),
  ground (arith, eq_iff s "validation"),
  ground (arith, eq_iff s "terminal"),
)

status_class-unknown : (s : String) → IsUnknown (some s) → status_class s ≡ none
unfolding status_class
status_class-unknown s h = ground (
  arith,
  eq_iff s "retryable",
  eq_iff s "resync_required",
  eq_iff s "auth_required",
  eq_iff s "overloaded",
  eq_iff s "validation",
  eq_iff s "terminal",
)

status_class-retryable_iff : (s : String) → (status_class s ≡ some retryable) ↔ (s ≡ "retryable")
unfolding status_class
status_class-retryable_iff s =
    (λ h. ground (arith, eq_iff s "retryable"), λ h. ground (arith, eq_iff s "retryable"))

code_class-retryable_iff : (c : String) → (code_class c ≡ retryable) ↔ (c ≡ "service_unavailable")
unfolding code_class
code_class-retryable_iff c = (
  λ h. ground (arith, eq_iff c "service_unavailable"),
  λ h. ground (arith, eq_iff c "service_unavailable"),
)

IsRetryable : String → Option String → Type 0
IsRetryable code status =
    (status ≡ some "retryable") ⊎ (IsUnknown status × (code ≡ "service_unavailable"))

by_status_sound : (code s : String) → classify code (some s) ≡ retryable → IsRetryable code (some s)
unfolding classify IsRetryable
by_status_sound code s h = elim (Option-cases (status_class s)) [
  | inl e ↦ inr (status_class-none s e, (code_class-retryable_iff code).0 (ground arith))
  | inr (c, e) ↦
      let found : status_class s ≡ some retryable = ground arith in
      inl (ap some ((status_class-retryable_iff s).0 found))
]

by_status_complete :
    (code s : String) → IsRetryable code (some s) → classify code (some s) ≡ retryable
unfolding classify IsRetryable
by_status_complete code s (inl e) =
    let found = (status_class-retryable_iff s).1 (some-injective _ _ e) in ground arith
by_status_complete code s (inr (unknown, e)) =
    let missing = status_class-unknown s unknown in
    let found = (code_class-retryable_iff code).1 e in ground arith

by_code_complete : (code : String) → IsRetryable code none → classify code none ≡ retryable
unfolding classify IsRetryable
by_code_complete code (inl e) = cc
by_code_complete code (inr (_, e)) = (code_class-retryable_iff code).1 e

-- An error is retryable exactly when its status says so, or when its status says nothing known and
-- its code is "service_unavailable".
pub classify-retryable_iff :
    (code : String) (status : Option String)
    → (classify code status ≡ retryable)
      ↔ ((status ≡ some "retryable") ⊎ (IsUnknown status × (code ≡ "service_unavailable")))
unfolding IsRetryable
classify-retryable_iff code none =
    (λ h. inr (tt, (code_class-retryable_iff code).0 (unfold classify in h)), by_code_complete code)
classify-retryable_iff code (some s) = (by_status_sound code s, by_status_complete code s)
