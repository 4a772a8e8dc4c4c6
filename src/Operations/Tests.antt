-- ===== src/Operations/Tests.antt =====
-- The tracker on small maps.
use xbin.Common.{
  ℕ, ◌≤◌, ◌≡◌, ◌≢◌, ◌↔◌, ◌⊎◌, refl, String, true, false, Option, none, some, List, [], ◌∷◌, arith,
}
use xbin.Json.{end}
use xbin.Operations.{
  Operation, document, find, put, track, get, should_send, mark_sent, settle, reject, clear,
  classify, retryable, auth, status_class,
}
use xbin.Operations.Lookup.{distinct}
use xbin.Operations.Settling.{
  marked, cleared, run, run-distinct, settle_once, replacement_kept, sent_once, rejected_never_sent,
  tracked, settled,
}
use xbin.Operations.Classes.{IsUnknown, classify-retryable_iff}

abbrev operation : String → ℕ → Operation
operation id generation = record {
  id = id;
  kind = document;
  generation = generation;
  document_id = none;
  recovery_text = "";
  message = end;
  sent_generation = none;
  terminal = false;
}

abbrev two : List Operation
two = operation "a" 1 ∷ operation "b" 2 ∷ []

abbrev two_marked : List Operation
two_marked = record (operation "a" 1) { terminal = true } ∷ operation "b" 2 ∷ []

tracks : track (operation "a" 3) two ≡ operation "a" 3 ∷ operation "b" 2 ∷ []
unfolding track put
tracks = refl

two-distinct : distinct two ≡ true
unfolding find
two-distinct = refl

settles : (settle (some "a") 1 two).0 ≡ some (operation "a" 1)
unfolding settle get find
settles = refl

-- The empty id clears the whole map.
clears_all : clear (some "") two ≡ []
unfolding clear
clears_all = refl

rejects : (reject (some "a") 1 two).0 ≡ some (record (operation "a" 1) { terminal = true })
unfolding reject get find
rejects = refl

marks : (mark_sent "b" 5 two).0 ≡ true
unfolding mark_sent find
marks = refl

classifies : classify "service_unavailable" (some "auth_required") ≡ auth
unfolding classify status_class
classifies = refl

run_keeps_distinct :
    distinct (run two (tracked (operation "c" 1) ∷ settled (some "a") 1 ∷ [])) ≡ true
run_keeps_distinct =
    run-distinct (tracked (operation "c" 1) ∷ settled (some "a") 1 ∷ []) two two-distinct

settle_once_example :
    (1 ≤ 1)
    × ((g' : ℕ) → (settle (some "a") g' (settle (some "a") 1 two).1).0 ≡ none)
    × ((j : String) → j ≢ "a" → find j (settle (some "a") 1 two).1 ≡ find j two)
settle_once_example = settle_once (some "a") 1 two (operation "a" 1) two-distinct settles

kept_by_generation :
    (settle (some "a") 2 (track (operation "a" 3) two) ≡ (none, track (operation "a" 3) two))
    × (reject (some "a") 2 (track (operation "a" 3) two) ≡ (none, track (operation "a" 3) two))
kept_by_generation = replacement_kept (operation "a" 3) 2 two (omega arith)

sent_five :
    (should_send "b" 5 (mark_sent "b" 5 two).1 ≡ false)
    × ((g' : ℕ) → 5 ≢ g' → should_send "b" g' (mark_sent "b" 5 two).1 ≡ true)
sent_five = sent_once "b" 5 two marks

rejected_never_sent_example :
    (should_send "a" 7 (run (reject (some "a") 1 two).1 (marked "a" 6 ∷ cleared (some "b") ∷ []))
      ≡ false)
    × ((mark_sent "a" 7
          (run (reject (some "a") 1 two).1 (marked "a" 6 ∷ cleared (some "b") ∷ []))).0
        ≡ false)
rejected_never_sent_example =
    rejected_never_sent (some "a") 1 two (record (operation "a" 1) { terminal = true })
      (marked "a" 6 ∷ cleared (some "b") ∷ []) 7 two-distinct rejects refl

retried_by_code : (classify "service_unavailable" (some "odd") ≡ retryable) ↔ (
    (◌≡◌ {A = Option String} (some "odd") (some "retryable"))
    ⊎ (IsUnknown (some "odd") × (◌≡◌ {A = String} "service_unavailable" "service_unavailable")))
retried_by_code = classify-retryable_iff "service_unavailable" (some "odd")
