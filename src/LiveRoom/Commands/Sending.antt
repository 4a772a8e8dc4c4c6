-- ===== src/LiveRoom/Commands/Sending.antt =====
-- What becomes of a command of the tabs.
use xbin.Common.{
  ◌≡◌, sym, ap, ◌∙◌, String, Bool, Bool-cases, true, false, not, ◌&&◌, ◌||◌, none, List, [], ◌∷◌,
  str_eq, eq_refl, arith, inl, inr, ◌⊎◌,
}
use xbin.Json.{object, Value, Fields}
use xbin.Operations.{metadata, Operation, find, put, remove, track, clear, should_send}
use xbin.Operations.Lookup.{find-put}
use xbin.Connection
use xbin.LiveRoom.Outbound.{Client, is_joined, send, mark}
use xbin.LiveRoom.Outbound.Marks.{done, mark_sent-done}
use xbin.LiveRoom.Outbound.Turns.{send-refused}
use xbin.LiveRoom.Commands.{metadata_message, start_metadata, abandon_metadata, send_metadata}

-- An operation that is taken back leaves the map as it was.
remove-put :
    (op : Operation) (ops : List Operation)
    → find op.id ops ≡ none
    → remove op.id (put op ops) ≡ ops
unfolding find put remove
remove-put op [] h = ground (arith, eq_refl op.id)
remove-put op (x ∷ xs) h = ground (arith, remove-put op xs)

module _ {Editor : Type 0} (ready : Bool) (client_id operation_id : String)
    (stringify : Value → String) (type : String) (fields : Fields) (c : Client Editor) where
  abbrev sending : Bool × Client Editor
  sending = send_metadata ready client_id operation_id stringify type fields c

  abbrev started : Client Editor
  started = start_metadata ready client_id operation_id stringify type fields c

  abbrev pub may_send : Bool
  may_send = not (
      not (is_joined c.room.connection)
      || c.room.metadata_busy
      || c.room.recovering
      || not c.room.can_edit)

  -- Nothing was sent, and the room is as it was but for the name of its operation.
  pub record IsUnsent (p : Bool × Client Editor) : Type 0 where
    pub said_no : p.0 ≡ false
    pub same_room : p.1.room ≡ record c.room { metadata_operation = p.1.room.metadata_operation }
    pub same_sent : p.1.sent ≡ c.sent

  -- The message was handed to the socket, and the room is busy with the operation, which is not to be sent again
  -- in this generation.
  pub record IsSent (p : Bool × Client Editor) : Type 0 where
    pub said_yes : p.0 ≡ true
    pub is_busy : p.1.room.metadata_busy ≡ true
    pub is_operation : p.1.room.metadata_operation ≡ operation_id
    pub is_marked : done operation_id c.room.generation p.1.room.tracker ≡ true
    pub one_more :
        p.1.sent
        ≡ metadata_message client_id operation_id type c.room.metadata_revision fields ∷ c.sent

  abbrev operation : Operation
  operation = record {
    id = operation_id;
    kind = metadata;
    generation = c.room.generation;
    document_id = none;
    recovery_text = stringify (object fields);
    message = metadata_message client_id operation_id type c.room.metadata_revision fields;
    sent_generation = none;
    terminal = false;
  }

  started-should_send : should_send operation_id c.room.generation started.room.tracker ≡ true
  unfolding start_metadata track should_send
  started-should_send =
      ground (arith, find-put operation_id operation c.room.tracker, eq_refl operation_id)

  refused_by_room : may_send ≡ false → sending ≡ (false, c)
  unfolding send_metadata
  refused_by_room h = ground arith

  refused_by_socket :
      str_eq operation_id "" ≡ false
      → find operation_id c.room.tracker ≡ none
      → may_send ≡ true
      → (Connection.send ready c.socket).0 ≡ false
      → IsUnsent sending
  unfolding send_metadata start_metadata abandon_metadata send clear track
  refused_by_socket n new may h =
      let same = send-refused ready c.socket h in
      let back = remove-put (operation) c.room.tracker new in
      record { said_no = ground arith; same_room = ground (arith, back); same_sent = ground arith }

  accepted_by_socket :
      str_eq operation_id "" ≡ false
      → may_send ≡ true
      → (Connection.send ready c.socket).0 ≡ true
      → IsSent sending
  unfolding send_metadata start_metadata send mark
  accepted_by_socket n may h = record {
    said_yes = ground arith;
    is_busy = ground arith;
    is_operation = ground arith;
    is_marked = ground (
      arith,
      mark_sent-done c.room.generation started.room.tracker operation_id started-should_send,
    );
    one_more = ground arith;
  }

  -- A command whose operation's id is new is sent exactly when the room is connected, not busy, not in
  -- recovery and may be edited, and the socket takes the message. Then the room is busy with the operation,
  -- which is marked as sent in this generation; else nothing was sent and the room is as it was, but for the
  -- name of its operation, also its tracker.
  pub send_metadata-outcome :
      str_eq operation_id "" ≡ false
      → find operation_id c.room.tracker ≡ none
      → (((may_send && (Connection.send ready c.socket).0) ≡ true)
          × IsSent (send_metadata ready client_id operation_id stringify type fields c))
        ⊎ (((may_send && (Connection.send ready c.socket).0) ≡ false)
            × IsUnsent (send_metadata ready client_id operation_id stringify type fields c))
  send_metadata-outcome n new = elim (Bool-cases may_send) [
    | inr e ↦
        let refused = refused_by_room e in
        inr (
          ground (arith, e),
          record {
            said_no = ap (λ (p : Bool × Client Editor). p.0) refused;
            same_room =
                ap (λ (p : Bool × Client Editor). p.1.room) refused
                ∙ ap
                    (λ (p : Bool × Client Editor). record c.room {
                      metadata_operation = p.1.room.metadata_operation;
                    })
                    (sym refused);
            same_sent = ap (λ (p : Bool × Client Editor). p.1.sent) refused;
          },
        )
    | inl e ↦ elim (Bool-cases (Connection.send ready c.socket).0) [
      | inl a ↦ inl (ground (arith, e, a), accepted_by_socket n e a)
      | inr a ↦ inr (ground (arith, e, a), refused_by_socket n new e a)
    ]
  ]
