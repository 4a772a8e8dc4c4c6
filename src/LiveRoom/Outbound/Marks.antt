-- ===== src/LiveRoom/Outbound/Marks.antt =====
-- Operations of the tracker that are not to be sent in a generation.
use xbin.Common.{
  ℕ, ◌≡◌, String, Bool, true, false, ◌||◌, Option-cases, none, some, List, is_some, str_eq, eq_iff,
  eq_refl, arith, inl, inr,
}
use xbin.Operations.{Operation, find, track, get, sent_in, should_send, mark_sent}
use xbin.Operations.Lookup.{find-put, find-id}

-- The operation is known, and terminal or sent in the generation.
abbrev pub done : String → ℕ → List Operation → Bool
done id generation ops = elim (find id ops) [
  | none ↦ false
  | some op ↦ op.terminal || sent_in op generation
]

module _ (generation : ℕ) (ops : List Operation) where
  pub done-get :
      (id : String)
      → str_eq id "" ≡ false
      → done id generation ops ≡ true
      → is_some (get (some id) ops) ≡ true
  unfolding get
  done-get id n h = ground arith

  pub done-should_send :
      (id : String) → done id generation ops ≡ true → should_send id generation ops ≡ false
  unfolding should_send
  done-should_send id h = ground arith

  pub should_send-done :
      (id : String)
      → is_some (get (some id) ops) ≡ true
      → should_send id generation ops ≡ false
      → done id generation ops ≡ true
  unfolding should_send get
  should_send-done id h t = ground arith

  pub track-done :
      (id : String) (op : Operation)
      → str_eq op.id "" ≡ false
      → is_some (get (some op.id) ops) ≡ false
      → done id generation ops ≡ true
      → done id generation (track op ops) ≡ true
  unfolding track get
  track-done id op n new h = ground (arith, find-put id op ops, eq_iff op.id id)

  pub track-get :
      (op : Operation) → str_eq op.id "" ≡ false → is_some (get (some op.id) (track op ops)) ≡ true
  unfolding track get
  track-get op n = ground (arith, find-put op.id op ops, eq_refl op.id)

  pub mark_sent-done_other :
      (id k : String)
      → done id generation ops ≡ true
      → done id generation (mark_sent k generation ops).1 ≡ true
  unfolding mark_sent
  mark_sent-done_other id k h = elim (Option-cases (find k ops)) [
    | inl e ↦ ground arith
    | inr (op, e) ↦
        let marked : Operation = record op { sent_generation = some generation } in
        ground (arith, find-put id marked ops, find-id k ops e, eq_iff op.id id, eq_iff k id)
  ]

  pub mark_sent-done :
      (id : String)
      → should_send id generation ops ≡ true
      → done id generation (mark_sent id generation ops).1 ≡ true
  unfolding mark_sent should_send
  mark_sent-done id h = elim (Option-cases (find id ops)) [
    | inl e ↦ absurd (ground arith)
    | inr (op, e) ↦
        let marked : Operation = record op { sent_generation = some generation } in
        ground (arith, find-put id marked ops, find-id id ops e, eq_refl id, eq_iff op.id id)
  ]
