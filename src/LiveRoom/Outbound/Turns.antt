-- ===== src/LiveRoom/Outbound/Turns.antt =====
-- One turn of the flush's loop.
use xbin.Common.{
  ℕ, ◌≡◌, refl, sym, ap, subst, ◌∙◌, String, Bool, Bool-cases, true, false, none, some, is_some,
  str_eq, arith, inl, inr, ◌⊎◌,
}
use xbin.Json.{Fields}
use xbin.Operations.{Operation, document, get, should_send, mark_sent}
use xbin.Connection
use xbin.LiveRoom.{Editing, Room}
use xbin.LiveRoom.Outbound.{Client, send, mark, send_operation, track_changes, flush_operation}
use xbin.LiveRoom.Outbound.Marks.{
  done, done-get, done-should_send, should_send-done, track-done, track-get, mark_sent-done_other,
  mark_sent-done,
}

-- A socket that refuses a message stays as it is.
pub send-refused :
    (ready : Bool) (s : Connection.State)
    → (Connection.send ready s).0 ≡ false
    → (Connection.send ready s).1 ≡ s
unfolding Connection.send
send-refused ready s h = ground arith

-- Nothing of the room but the tracker is changed.
abbrev pub OnlyTracker : {Editor : Type 0} → Client Editor → Client Editor → Type 0
OnlyTracker c d = d.room ≡ record c.room { tracker = d.room.tracker }

pub OnlyTracker-twice :
    {Editor : Type 0} (c d e : Client Editor) → OnlyTracker c d → OnlyTracker d e → OnlyTracker c e
OnlyTracker-twice c d e h k = k ∙ ap (λ (r : Room _). record r { tracker = e.room.tracker }) h

abbrev pub done_in : {Editor : Type 0} → String → Client Editor → Bool
done_in id c = done id c.room.generation c.room.tracker

module _ {Editor : Type 0} (ready : Bool) (id : String) (message : Fields) (c : Client Editor) where
  pub send_operation-refused :
      (generation : ℕ)
      → (Connection.send ready c.socket).0 ≡ false
      → send_operation ready id generation message c ≡ (false, c)
  unfolding send_operation send
  send_operation-refused generation h = ground (arith, send-refused ready c.socket h)

  pub send_operation-accepted :
      (generation : ℕ)
      → (Connection.send ready c.socket).0 ≡ true
      → ((send_operation ready id generation message c).0 ≡ true)
        × ((send_operation ready id generation message c).1.room
            ≡ record c.room { tracker = (mark_sent id generation c.room.tracker).1 })
  unfolding send_operation send mark
  send_operation-accepted generation h = (ground arith, ground arith)

module _ {Editor Changes : Type 0} (o : Editing Editor Changes) (client_id : String)
    (drawn : ℕ → String) (ready : Bool) where
  module _ (id document_id : String) (e : Editor) (message : Fields)
      (n : str_eq id "" ≡ false) where
    pub track_changes-known :
        (c : Client Editor)
        → is_some (get (some id) c.room.tracker) ≡ true
        → track_changes o client_id drawn ready id document_id e message c ≡ c
    unfolding track_changes
    track_changes-known c h = ground arith

    abbrev pub tracked : Client Editor → Client Editor
    tracked c = track_changes o client_id drawn ready id document_id e message c

    abbrev pub flushed : Client Editor → Bool × Client Editor
    flushed c = flush_operation o client_id drawn ready id document_id e message c

    pub track_changes-OnlyTracker : (c : Client Editor) → OnlyTracker c (tracked c)
    unfolding track_changes
    track_changes-OnlyTracker c = ground arith

    abbrev pub new_operation : Client Editor → Operation
    new_operation c = record {
      id = id;
      kind = document;
      generation = c.room.generation;
      document_id = some document_id;
      recovery_text = o.text e;
      message = message;
      sent_generation = none;
      terminal = false;
    }

    pub track_changes-get :
        (c : Client Editor) → is_some (get (some id) (tracked c).room.tracker) ≡ true
    unfolding track_changes
    track_changes-get c =
        ground (arith, track-get c.room.generation c.room.tracker (new_operation c) n)

    pub track_changes-done :
        (c : Client Editor) (j : String) → done_in j c ≡ true → done_in j (tracked c) ≡ true
    unfolding track_changes
    track_changes-done c j h =
        ground (arith, track-done c.room.generation c.room.tracker j (new_operation c) n)

    pub flush_operation-skips :
        (c : Client Editor)
        → should_send id (tracked c).room.generation (tracked c).room.tracker ≡ false
        → flushed c ≡ (true, tracked c)
    unfolding flush_operation
    flush_operation-skips c h = ground arith

    pub flush_operation-sends :
        (c : Client Editor)
        → should_send id (tracked c).room.generation (tracked c).room.tracker ≡ true
        → flushed c ≡ send_operation ready id (tracked c).room.generation message (tracked c)
    unfolding flush_operation
    flush_operation-sends c h = ground arith

    -- What is done is left alone.
    pub flush_operation-done : (c : Client Editor) → done_in id c ≡ true → flushed c ≡ (true, c)
    flush_operation-done c h =
        let same = track_changes-known c (done-get c.room.generation c.room.tracker id n h) in
        flush_operation-skips c (
          subst (λ (d : Client Editor). should_send id d.room.generation d.room.tracker ≡ false)
            (sym same) (done-should_send c.room.generation c.room.tracker id h))
        ∙ ap (λ (d : Client Editor). (true, d)) same

    -- A turn changes only the tracker, keeps what is done, and either has the operation done or ends the all_turns
    -- in a state that it leaves as it is.
    pub record Turn (c : Client Editor) (p : Bool × Client Editor) : Type 0 where
      pub only_tracker : OnlyTracker c p.1
      pub keeps : (j : String) → done_in j c ≡ true → done_in j p.1 ≡ true
      pub ends :
          ((p.0 ≡ true) × (done_in id p.1 ≡ true)) ⊎ ((p.0 ≡ false) × (flushed p.1 ≡ (false, p.1)))

    pub accepted-Turn :
        (c d : Client Editor)
        → d.room ≡ record (tracked c).room {
          tracker = (mark_sent id (tracked c).room.generation (tracked c).room.tracker).1;
        }
        → should_send id (tracked c).room.generation (tracked c).room.tracker ≡ true
        → Turn c (true, d)
    accepted-Turn c d r s =
        let t = tracked c in
        let g = t.room.generation in
        let only = track_changes-OnlyTracker c in
        let in_d : (j : String)
            → done j g (mark_sent id g t.room.tracker).1 ≡ true
            → done_in j d ≡ true =
          λ j x. subst (λ (q : Room Editor). done j q.generation q.tracker ≡ true) (sym r) x in
        record {
          only_tracker =
              OnlyTracker-twice c t d only
                (r ∙ ap (λ (q : Room Editor). record t.room { tracker = q.tracker }) (sym r));
          keeps =
              λ j x. in_d j (mark_sent-done_other g t.room.tracker j id (track_changes-done c j x));
          ends = inl (refl, in_d id (mark_sent-done g t.room.tracker id s));
        }

    pub turn : (c : Client Editor) → Turn c (flushed c)
    turn c =
        let t = tracked c in
        elim (Bool-cases (should_send id t.room.generation t.room.tracker)) [
          | inr s ↦ subst (Turn c) (sym (flush_operation-skips c s)) (record {
            only_tracker = track_changes-OnlyTracker c;
            keeps = track_changes-done c;
            ends = inl (
              refl,
              should_send-done t.room.generation t.room.tracker id (track_changes-get c) s,
            );
          })
          | inl s ↦ elim (Bool-cases (Connection.send ready t.socket).0) [
            | inl a ↦
                let (goes_on, r) = send_operation-accepted ready id message t t.room.generation a in
                let d = (flushed c).1 in
                let first : (flushed c).0 ≡ true =
                  ap (λ (p : Bool × Client Editor). p.0) (flush_operation-sends c s) ∙ goes_on in
                let room =
                  ap (λ (p : Bool × Client Editor). p.1.room) (flush_operation-sends c s) ∙ r in
                subst (λ b. Turn c (b, d)) (sym first) (accepted-Turn c d room s)
            | inr a ↦
                let refused = send_operation-refused ready id message t t.room.generation a in
                let same = track_changes-known t (track_changes-get c) in
                let again : flushed t ≡ (false, t) =
                  flush_operation-sends t (
                    subst
                      (λ (d : Client Editor).
                        should_send id d.room.generation d.room.tracker ≡ true)
                      (sym same) s)
                  ∙ ap (λ (d : Client Editor). send_operation ready id d.room.generation message d)
                      same
                  ∙ refused in
                subst (Turn c) (sym (flush_operation-sends c s ∙ refused)) (record {
                  only_tracker = track_changes-OnlyTracker c;
                  keeps = track_changes-done c;
                  ends = inr (refl, again);
                })
          ]
        ]
