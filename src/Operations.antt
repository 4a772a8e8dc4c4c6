-- ===== src/Operations.antt =====
-- web/src/live-operations.ts: the operations that the browser has sent or is to send, kept apart from
-- any socket, and the class of an operation's error.
--
-- The `Map` is a list of operations in insertion order with one entry for each id; a method returns
-- the new map beside its result.
pub mod Lookup
pub mod Settling
pub mod Classes
mod Tests
use xbin.Common.{
  ℕ, ◌≡◌, String, Bool, true, false, not, ◌&&◌, ◌||◌, Option, none, some, List, [], ◌∷◌, ltb, ◌==◌,
  if◌then◌else◌, str_eq, Option-cases,
}
use xbin.Json.{Fields}

pub data Kind : Type 0 where
  document metadata : Kind

-- LiveOperation; `terminal` is false where the source has `undefined`, which every use reads alike.
pub record Operation : Type 0 where
  pub id : String
  pub kind : Kind
  pub generation : ℕ
  pub document_id : Option String
  pub recovery_text : String
  pub message : Fields
  pub sent_generation : Option ℕ
  pub terminal : Bool

-- `operations.get(id)` of the `Map`
unfoldable pub find : String → List Operation → Option Operation
find id [] = none
find id (op ∷ ops) = if str_eq op.id id then some op else find id ops

-- `operations.set(id, operation)`: an entry keeps its place.
unfoldable pub put : Operation → List Operation → List Operation
put op [] = op ∷ []
put op (x ∷ xs) = if str_eq x.id op.id then op ∷ xs else x ∷ put op xs

-- `operations.delete(id)`
unfoldable pub remove : String → List Operation → List Operation
remove id [] = []
remove id (op ∷ ops) = if str_eq op.id id then ops else op ∷ remove id ops

-- The class LiveOperationTracker.
unfoldable pub track : Operation → List Operation → List Operation
track operation ops = put operation ops

-- `undefined` and the empty id find nothing.
unfoldable pub get : Option String → List Operation → Option Operation
get none ops = none
get (some id) ops = if str_eq id "" then none else find id ops

pub values : List Operation → List Operation
values ops = ops

abbrev pub sent_in : Operation → ℕ → Bool
sent_in op generation = elim op.sent_generation [ none ↦ false | some g ↦ g == generation ]

unfoldable pub should_send : String → ℕ → List Operation → Bool
should_send id generation ops = elim (find id ops) [
  | none ↦ false
  | some op ↦ not op.terminal && not (sent_in op generation)
]

unfoldable pub mark_sent : String → ℕ → List Operation → Bool × List Operation
mark_sent id generation ops = elim (find id ops) [
  | none ↦ (false, ops)
  | some op ↦
      if op.terminal
      then (false, ops)
      else (true, put (record op { sent_generation = some generation }) ops)
]

unfoldable pub settle : Option String → ℕ → List Operation → Option Operation × List Operation
settle id generation ops = elim (get id ops) [
  | none ↦ (none, ops)
  | some op ↦ if ltb generation op.generation then (none, ops) else (some op, remove op.id ops)
]

-- The record in the map is the one that is marked and returned.
unfoldable pub reject : Option String → ℕ → List Operation → Option Operation × List Operation
reject id generation ops = elim (get id ops) [
  | none ↦ (none, ops)
  | some op ↦
      let marked = record op { terminal = true } in
      if ltb generation op.generation then (none, ops) else (some marked, put marked ops)
]

-- No id, or the empty one, clears all.
unfoldable pub clear : Option String → List Operation → List Operation
clear none ops = []
clear (some id) ops = if str_eq id "" then [] else remove id ops

pub data ErrorClass : Type 0 where
  retryable resync auth overload validation terminal_error : ErrorClass

-- The first `switch` of classifyLiveOperationError, on the status.
pub status_class : String → Option ErrorClass
status_class status =
    if str_eq status "retryable"
    then some retryable
    else if str_eq status "resync_required"
    then some resync
    else if str_eq status "auth_required"
    then some auth
    else if str_eq status "overloaded"
    then some overload
    else if str_eq status "validation"
    then some validation
    else if str_eq status "terminal"
    then some terminal_error
    else none

-- The second, on the code.
pub code_class : String → ErrorClass
code_class code =
    if str_eq code "service_unavailable"
    then retryable
    else if str_eq code "resync_required"
    then resync
    else if str_eq code "unauthorized"
    then auth
    else if str_eq code "room_limit_reached" || str_eq code "rate_limited"
    then overload
    else if str_eq code "invalid_request"
        || str_eq code "message_too_large"
        || str_eq code "name_taken"
    then validation
    else terminal_error

-- classifyLiveOperationError
pub classify : String → Option String → ErrorClass
classify code none = code_class code
classify code (some status) = elim (status_class status) [ none ↦ code_class code | some c ↦ c ]
