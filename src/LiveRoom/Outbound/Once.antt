-- ===== src/LiveRoom/Outbound/Once.antt =====
-- A flush sends each operation once in a generation: a second flush does nothing more.
use xbin.Common.{
  ℕ, ◌≡◌, refl, sym, ap, subst, ◌∙◌, String, Bool, Bool-cases, true, false, not, ◌||◌, Option-cases,
  none, some, List, [], ◌∷◌, str_eq, arith, inl, inr, ◌⊎◌,
}
use xbin.LiveRoom.{Editing, Update, Room, next_live_outbound_update}
use xbin.LiveRoom.Outbound.{
  Client, is_joined, push_changes, flush_operation, flush_editor, flush_editors, flush_changes,
}
use xbin.LiveRoom.Outbound.Turns.{
  OnlyTracker, OnlyTracker-twice, done_in, flush_operation-done, turn,
}

-- The room may send changes.
abbrev pub may_flush : {Editor : Type 0} → Room Editor → Bool
may_flush r = not (not (is_joined r.connection) || r.resyncing || r.recovering || not r.can_edit)

module _ {Editor Changes : Type 0} (o : Editing Editor Changes) (client_id : String)
    (drawn : ℕ → String) (ready : Bool) where
  module _ (nonempty : (k : ℕ) → str_eq (drawn k) "" ≡ false) where
    abbrev turn_of : String → Editor → Client Editor → Bool × Client Editor
    turn_of document_id e c = flush_editor o client_id drawn ready document_id e c

    abbrev all_turns : List (String × Editor) → Client Editor → Client Editor
    all_turns es c = flush_editors o client_id drawn ready es c

    -- The first update that waits is done, if there is one.
    IsDone : Editor → Client Editor → Type 0
    IsDone e c =
        (next_live_outbound_update o e ≡ none)
        ⊎ ((base : ℕ) × (u : Update Changes) × (origin : ℕ) × (next_live_outbound_update o e
              ≡ some (base, (u, origin)))
            × (done_in (drawn origin) c ≡ true))

    flush_editor-none :
        (document_id : String) (e : Editor) (c : Client Editor)
        → next_live_outbound_update o e ≡ none
        → turn_of document_id e c ≡ (true, c)
    unfolding flush_editor
    flush_editor-none document_id e c h = ground arith

    flush_editor-some :
        (document_id : String) (e : Editor) (c : Client Editor) (base : ℕ) (u : Update Changes)
        (origin : ℕ)
        → next_live_outbound_update o e ≡ some (base, (u, origin))
        → turn_of document_id e c
          ≡ flush_operation o client_id drawn ready
              (drawn origin)
              document_id
              e
              (push_changes o client_id drawn ready (drawn origin) document_id base u.changes)
              c
    unfolding flush_editor
    flush_editor-some document_id e c base u origin h = ground arith

    flush_editor-done :
        (document_id : String) (e : Editor) (c : Client Editor)
        → IsDone e c
        → turn_of document_id e c ≡ (true, c)
    unfolding IsDone
    flush_editor-done document_id e c (inl h) = flush_editor-none document_id e c h
    flush_editor-done document_id e c (inr (base, u, origin, h, d)) =
        flush_editor-some document_id e c base u origin h
        ∙ flush_operation-done o client_id drawn ready (drawn origin) document_id e _
            (nonempty origin) c d

    -- The same for a turn of the all_turns, and for the all_turns.
    record EditorTurn (document_id : String) (e : Editor) (c : Client Editor)
        (p : Bool × Client Editor) : Type 0 where
      pub only_tracker : OnlyTracker c p.1
      pub keeps : (j : String) → done_in j c ≡ true → done_in j p.1 ≡ true
      pub ends :
          ((p.0 ≡ true) × IsDone e p.1)
          ⊎ ((p.0 ≡ false) × (turn_of document_id e p.1 ≡ (false, p.1)))

    editor_turn :
        (document_id : String) (e : Editor) (c : Client Editor)
        → EditorTurn document_id e c (turn_of document_id e c)
    unfolding IsDone
    editor_turn document_id e c = elim (Option-cases (next_live_outbound_update o e)) [
      | inl h ↦
          subst (EditorTurn document_id e c) (sym (flush_editor-none document_id e c h))
            (record { only_tracker = refl; keeps = λ j x. x; ends = inl (refl, inl h) })
      | inr ((base, (u, origin)), h) ↦
          let message =
            push_changes o client_id drawn ready (drawn origin) document_id base u.changes in
          let t =
            turn o client_id drawn ready (drawn origin) document_id e message (nonempty origin) c in
          let same = flush_editor-some document_id e c base u origin h in
          subst (EditorTurn document_id e c) (sym same) (record {
            only_tracker = t.only_tracker;
            keeps = t.keeps;
            ends = elim t.ends [
              | inl (a, b) ↦ inl (a, inr (base, u, origin, h, b))
              | inr (a, b) ↦ inr (a, flush_editor-some document_id e _ base u origin h ∙ b)
            ];
          })
    ]

    record LoopTurn (es : List (String × Editor)) (c d : Client Editor) : Type 0 where
      pub only_tracker : OnlyTracker c d
      pub keeps : (j : String) → done_in j c ≡ true → done_in j d ≡ true
      pub again : all_turns es d ≡ d

    kept :
        (e : Editor) (c d : Client Editor)
        → ((j : String) → done_in j c ≡ true → done_in j d ≡ true)
        → IsDone e c
        → IsDone e d
    unfolding IsDone
    kept e c d k (inl h) = inl h
    kept e c d k (inr (base, u, origin, h, x)) = inr (base, u, origin, h, k (drawn origin) x)

    flush_editors-goes_on :
        (document_id : String) (e : Editor) (es : List (String × Editor)) (c : Client Editor)
        → (turn_of document_id e c).0 ≡ true
        → all_turns ((document_id, e) ∷ es) c ≡ all_turns es (turn_of document_id e c).1
    unfolding flush_editors
    flush_editors-goes_on document_id e es c h = ground arith

    flush_editors-ends :
        (document_id : String) (e : Editor) (es : List (String × Editor)) (c : Client Editor)
        → (turn_of document_id e c).0 ≡ false
        → all_turns ((document_id, e) ∷ es) c ≡ (turn_of document_id e c).1
    unfolding flush_editors
    flush_editors-ends document_id e es c h = ground arith

    loop_turn : (es : List (String × Editor)) (c : Client Editor) → LoopTurn es c (all_turns es c)
    unfolding flush_editors
    loop_turn [] c = record { only_tracker = refl; keeps = λ j x. x; again = refl }
    loop_turn ((document_id, e) ∷ es) c =
        let t = editor_turn document_id e c in
        let next = (turn_of document_id e c).1 in
        elim t.ends [
          | inl (a, b) ↦
              let rest = loop_turn es next in
              let done =
                flush_editor-done document_id e (all_turns es next)
                  (kept e next (all_turns es next) rest.keeps b) in
              let again : all_turns ((document_id, e) ∷ es) (all_turns es next)
                  ≡ all_turns es next =
                flush_editors-goes_on document_id e es (all_turns es next)
                  (ap (λ (p : Bool × Client Editor). p.0) done)
                ∙ ap (λ (p : Bool × Client Editor). all_turns es p.1) done
                ∙ rest.again in
              subst (LoopTurn ((document_id, e) ∷ es) c)
                (sym (flush_editors-goes_on document_id e es c a))
                (record {
                  only_tracker =
                      OnlyTracker-twice c next (all_turns es next) t.only_tracker rest.only_tracker;
                  keeps = λ j x. rest.keeps j (t.keeps j x);
                  again = again;
                })
          | inr (a, b) ↦
              let again : all_turns ((document_id, e) ∷ es) next ≡ next =
                flush_editors-ends document_id e es next (ap (λ (p : Bool × Client Editor). p.0) b)
                ∙ ap (λ (p : Bool × Client Editor). p.1) b in
              subst (LoopTurn ((document_id, e) ∷ es) c)
                (sym (flush_editors-ends document_id e es c a))
                (record { only_tracker = t.only_tracker; keeps = t.keeps; again = again })
        ]

    abbrev flush : Client Editor → Client Editor
    flush c = flush_changes o client_id drawn ready c

    flush_changes-shut : (c : Client Editor) → may_flush c.room ≡ false → flush c ≡ c
    unfolding flush_changes
    flush_changes-shut c h = ground arith

    flush_changes-open :
        (c : Client Editor) → may_flush c.room ≡ true → flush c ≡ all_turns c.room.editors c
    unfolding flush_changes
    flush_changes-open c h = ground arith

    -- A flush of a room that is not connected, resynchronizes, is in recovery or may not edit does nothing; and
    -- whatever a flush did, a second one in the same generation does nothing more: each update is sent at
    -- most once, and after a message that the socket refuses nothing is sent.
    pub flush_changes-once :
        (c : Client Editor)
        → (flush_changes o client_id drawn ready (flush_changes o client_id drawn ready c)
            ≡ flush_changes o client_id drawn ready c)
          × ((flush_changes o client_id drawn ready c ≡ c) ⊎ (may_flush c.room ≡ true))
    flush_changes-once c = elim (Bool-cases (may_flush c.room)) [
      | inr e ↦ let shut = flush_changes-shut c e in (ap flush shut, inl shut)
      | inl e ↦
          let es = c.room.editors in
          let done = loop_turn es c in
          let first = flush_changes-open c e in
          let may : may_flush (all_turns es c).room ≡ true = ap may_flush (done.only_tracker) ∙ e in
          let same : (all_turns es c).room.editors ≡ es =
            ap (λ (r : Room Editor). r.editors) done.only_tracker in
          (
            ap flush first
                ∙ flush_changes-open (all_turns es c) may
                ∙ ap (λ l. all_turns l (all_turns es c)) same
                ∙ done.again
                ∙ sym first,
            inr e,
          )
    ]
