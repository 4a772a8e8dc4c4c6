-- ===== src/Operations/Settling.antt =====
-- What a sequence of calls does to an operation: sent once in a generation, settled once, and never
-- sent again after a rejection.
use xbin.Common.{
  ℕ, ◌≤◌, ◌<◌, ◌≡◌, ◌≢◌, refl, String, Bool, true, false, Option, none, some, List, [], ◌∷◌, arith,
  str_eq, eq_iff, ◌&&◌, not, inl, inr, Option-cases, eq_refl,
}
use xbin.Operations.{
  Operation, find, put, remove, track, get, should_send, mark_sent, settle, reject, clear,
}
use xbin.Operations.Lookup.{find-put, find-id, find-remove, distinct, distinct-put, distinct-remove}

pub data Call : Type 0 where
  tracked : Operation → Call
  marked : String → ℕ → Call
  settled rejected : Option String → ℕ → Call
  cleared : Option String → Call

pub step : List Operation → Call → List Operation
step ops (tracked op) = track op ops
step ops (marked id generation) = (mark_sent id generation ops).1
step ops (settled id generation) = (settle id generation ops).1
step ops (rejected id generation) = (reject id generation ops).1
step ops (cleared id) = clear id ops

pub run : List Operation → List Call → List Operation
run ops [] = ops
run ops (c ∷ cs) = run (step ops c) cs

step-distinct :
    (c : Call) (ops : List Operation) → distinct ops ≡ true → distinct (step ops c) ≡ true
unfolding step track mark_sent settle reject clear
step-distinct (tracked op) ops h = distinct-put op ops h
step-distinct (marked id g) ops h = elim (Option-cases (find id ops)) [
  | inl e ↦ ground arith
  | inr (op, e) ↦ ground (arith, distinct-put (record op { sent_generation = some g }) ops h)
]
step-distinct (settled id g) ops h = elim (Option-cases (get id ops)) [
  | inl e ↦ ground arith
  | inr (op, e) ↦ ground (arith, distinct-remove op.id ops h)
]
step-distinct (rejected id g) ops h = elim (Option-cases (get id ops)) [
  | inl e ↦ ground arith
  | inr (op, e) ↦ ground (arith, distinct-put (record op { terminal = true }) ops h)
]
step-distinct (cleared none) ops h = refl
step-distinct (cleared (some id)) ops h = ground (arith, distinct-remove id ops h)

-- Whatever is called, the map holds one entry for each id.
pub run-distinct :
    (cs : List Call) (ops : List Operation) → distinct ops ≡ true → distinct (run ops cs) ≡ true
unfolding run
run-distinct [] ops h = h
run-distinct (c ∷ cs) ops h = run-distinct cs (step ops c) (step-distinct c ops h)

get-find :
    (id : Option String) (ops : List Operation) {op : Operation}
    → get id ops ≡ some op
    → find op.id ops ≡ some op
unfolding get
get-find none ops h = cc
get-find (some id) ops {op} h =
    let found : find id ops ≡ some op = ground (arith, eq_iff id "") in
    simp (find-id id ops found) found

settle_inv :
    (id : Option String) (g : ℕ) (ops : List Operation) (op : Operation)
    → (settle id g ops).0 ≡ some op
    → (get id ops ≡ some op) × (op.generation ≤ g) × ((settle id g ops).1 ≡ remove op.id ops)
unfolding settle
settle_inv id g ops op e = (ground arith, ground arith, ground arith)

reject_inv :
    (id : Option String) (g : ℕ) (ops : List Operation) (op : Operation)
    → (reject id g ops).0 ≡ some op
    → (op.terminal ≡ true) × (op.generation ≤ g) × ((reject id g ops).1 ≡ put op ops)
unfolding reject
reject_inv id g ops op e = (ground arith, ground arith, ground arith)

settle-missing :
    (id : String) (g : ℕ) (ops : List Operation)
    → find id ops ≡ none
    → (settle (some id) g ops).0 ≡ none
unfolding settle get
settle-missing id g ops h = ground arith

-- An operation is settled at most once: it belongs to the generation or one before it, it is gone
-- afterwards whatever generation asks again, and no other operation is touched.
pub settle_once :
    (id : Option String) (g : ℕ) (ops : List Operation) (op : Operation)
    → distinct ops ≡ true
    → (settle id g ops).0 ≡ some op
    → (op.generation ≤ g)
      × ((g' : ℕ) → (settle (some op.id) g' (settle id g ops).1).0 ≡ none)
      × ((j : String) → j ≢ op.id → find j (settle id g ops).1 ≡ find j ops)
settle_once id g ops op h e =
    let (found, old, rest) = settle_inv id g ops op e in
    (
      old,
      λ g'. simp rest (
          settle-missing op.id g' (remove op.id ops)
            (ground (arith, find-remove op.id op.id ops h, eq_refl op.id))),
      λ j other. simp rest (ground (arith, find-remove op.id j ops h, eq_iff op.id j)),
    )

-- A callback of an earlier generation neither settles nor rejects the operation that replaced its
-- own: it gets nothing and leaves the map as it is.
pub replacement_kept :
    (op : Operation) (g : ℕ) (ops : List Operation)
    → g < op.generation
    → (settle (some op.id) g (track op ops) ≡ (none, track op ops))
      × (reject (some op.id) g (track op ops) ≡ (none, track op ops))
unfolding settle reject get track
replacement_kept op g ops h =
    let found = find-put op.id op ops in
    (ground (arith, found, eq_refl op.id), ground (arith, found, eq_refl op.id))

-- An operation that was marked as sent in a generation is not to be sent again in it, and in any
-- other generation it is.
pub sent_once :
    (id : String) (g : ℕ) (ops : List Operation)
    → (mark_sent id g ops).0 ≡ true
    → (should_send id g (mark_sent id g ops).1 ≡ false)
      × ((g' : ℕ) → g ≢ g' → should_send id g' (mark_sent id g ops).1 ≡ true)
unfolding mark_sent should_send
sent_once id g ops h = elim (Option-cases (find id ops)) [
  | inl e ↦ absurd (ground arith)
  | inr (op, e) ↦
      let put_op = find-put id (record op { sent_generation = some g }) ops in
      let same = find-id id ops e in
      (ground (arith, put_op, eq_iff op.id id), λ g' other. ground (arith, put_op, eq_iff op.id id))
]

-- The operation of an id is gone or rejected for good.
abbrev pub quiet : Option Operation → Bool
quiet none = true
quiet (some op) = op.terminal

-- The calls that do not track the id anew.
abbrev pub leaves : String → Call → Bool
leaves id (tracked op) = not (str_eq op.id id)
leaves id _ = true

abbrev pub all_leave : String → List Call → Bool
all_leave id [] = true
all_leave id (c ∷ cs) = leaves id c && all_leave id cs

step-quiet :
    (id : String) (c : Call) (ops : List Operation)
    → distinct ops ≡ true
    → leaves id c ≡ true
    → quiet (find id ops) ≡ true
    → quiet (find id (step ops c)) ≡ true
unfolding step track mark_sent settle reject clear
step-quiet id (tracked op) ops d l h = ground (arith, find-put id op ops)
step-quiet id (marked j g) ops d l h = elim (Option-cases (find j ops)) [
  | inl e ↦ ground arith
  | inr (op, e) ↦ ground (
    arith,
    find-id j ops e,
    eq_iff op.id id,
    find-put id (record op { sent_generation = some g }) ops,
  )
]
step-quiet id (settled j g) ops d l h = elim (Option-cases (get j ops)) [
  | inl e ↦ ground arith
  | inr (op, e) ↦ ground (arith, find-remove op.id id ops d)
]
step-quiet id (rejected j g) ops d l h = elim (Option-cases (get j ops)) [
  | inl e ↦ ground arith
  | inr (op, e) ↦ ground (arith, find-put id (record op { terminal = true }) ops)
]
step-quiet id (cleared none) ops d l h = unfold find in refl
step-quiet id (cleared (some j)) ops d l h = unfold find in ground (arith, find-remove j id ops d)

run-quiet :
    (id : String) (cs : List Call) (ops : List Operation)
    → distinct ops ≡ true
    → all_leave id cs ≡ true
    → quiet (find id ops) ≡ true
    → quiet (find id (run ops cs)) ≡ true
unfolding run
run-quiet id [] ops d l h = h
run-quiet id (c ∷ cs) ops d l h =
    run-quiet id cs (step ops c) (step-distinct c ops d) (ground arith)
      (step-quiet id c ops d (ground arith) h)

-- Once an operation is rejected, it is never to be sent and cannot be marked as sent, in any
-- generation and after any calls that do not track its id anew.
pub rejected_never_sent :
    (id : Option String) (g : ℕ) (ops : List Operation) (op : Operation) (cs : List Call) (g' : ℕ)
    → distinct ops ≡ true
    → (reject id g ops).0 ≡ some op
    → all_leave op.id cs ≡ true
    → (should_send op.id g' (run (reject id g ops).1 cs) ≡ false)
      × ((mark_sent op.id g' (run (reject id g ops).1 cs)).0 ≡ false)
unfolding should_send mark_sent
rejected_never_sent id g ops op cs g' d e l =
    let (terminal, old, rest) = reject_inv id g ops op e in
    let still : quiet (find op.id (run (reject id g ops).1 cs)) ≡ true =
      run-quiet op.id cs (reject id g ops).1 (unfold step in step-distinct (rejected id g) ops d) l
        (simp rest (ground (arith, find-put op.id op ops, eq_refl op.id))) in
    (ground arith, ground arith)
