-- ===== src/Wire/Accepted.antt =====
-- Every event that the decoder accepts is valid, and decoding what it is written as gives it back.
use xbin.Common.{
  ◌>>=◌, ◌≤◌, ◌≡◌, arith, String, Bool, true, false, Option, none, some, List, [], All, subst,
  bind_some, if◌then◌else◌, str_eq,
}
use mathlib.Core.Option.{some-injective}
use xbin.Json.{as_boolean, as_string, Value, Fields, property, max_safe}
use xbin.Layout.{LayoutPreset, layout_preset, or_single}
use xbin.Wire.Types.{
  Participant, DocumentRevision, Event, presence_joined, presence_updated, participant_renamed,
}
use xbin.Wire.Parts.{
  as_record, nonnegative_integer, truthy, timestamp, decode_document_revisions, decode_participant,
}
use xbin.Wire.Decode.{
  decode_changes, decode_document_created, decode_document_updated, decode_document_deleted,
  decode_document_reordered, decode_status, decode_error, decode_room_layout_changed,
  decode_participant_removed, decode_participants, decode_joined, decode_presence,
  decode_presence_left, decode_room_mode_changed, decode_typed, decode_event,
}
use xbin.Wire.Valid.{new_ids, IsParticipant, IsEvent}
use xbin.Wire.Encode.{encode_event}
use xbin.Wire.RoundTrip.{decode-encode_event}
use xbin.Wire.Sound.{
  nonnegative_integer-le, decode_document-IsDocument, map_all-All, decode_revisions-safe,
  decode_revisions-new_ids, optional-Holds, timestamp-IsIso, decode_participant-IsParticipant,
}

if_some {ℓ} :
    {P : Type ℓ} (b : Bool) (x y : Option Event) {e : Event}
    → (x ≡ some e → P)
    → (y ≡ some e → P)
    → (if b then x else y) ≡ some e
    → P
if_some true x y f g h = f h
if_some false x y f g h = g h

module _ (to_iso : String → Option String)
    (idempotent : (s t : String) → to_iso s ≡ some t → to_iso t ≡ some t) where
  -- An event that is known to be the decoded one is valid.
  is_event : {d e : Event} → IsEvent to_iso d → some d ≡ some e → IsEvent to_iso e
  is_event v h = subst (IsEvent to_iso) (some-injective _ _ h) v

  changes-IsEvent : (fs : Fields) (e : Event) → decode_changes fs ≡ some e → IsEvent to_iso e
  unfolding decode_changes
  changes-IsEvent fs e h =
      let base = nonnegative_integer-le (property "base_version" fs) in
      let revision = nonnegative_integer-le (property "revision" fs) in
      ground (arith, base, revision)

  document_created-IsEvent :
      (fs : Fields) (e : Event) → decode_document_created fs ≡ some e → IsEvent to_iso e
  unfolding decode_document_created
  document_created-IsEvent fs e h =
      let revision = nonnegative_integer-le (property "metadata_revision" fs) in
      let document = decode_document-IsDocument (property "document" fs) in
      grind (arith, revision, document)

  document_updated-IsEvent :
      (fs : Fields) (e : Event) → decode_document_updated fs ≡ some e → IsEvent to_iso e
  unfolding decode_document_updated
  document_updated-IsEvent fs e h =
      let revision = nonnegative_integer-le (property "metadata_revision" fs) in
      ground (arith, revision)

  document_deleted-IsEvent :
      (fs : Fields) (e : Event) → decode_document_deleted fs ≡ some e → IsEvent to_iso e
  unfolding decode_document_deleted
  document_deleted-IsEvent fs e h =
      let revision = nonnegative_integer-le (property "metadata_revision" fs) in
      ground (arith, revision)

  document_reordered-IsEvent :
      (fs : Fields) (e : Event) → decode_document_reordered fs ≡ some e → IsEvent to_iso e
  unfolding decode_document_reordered
  document_reordered-IsEvent fs e h =
      let revision = nonnegative_integer-le (property "metadata_revision" fs) in
      ground (arith, revision)

  status-IsEvent : (fs : Fields) (e : Event) → decode_status fs ≡ some e → IsEvent to_iso e
  unfolding decode_status
  status-IsEvent fs e h = ground arith

  error-IsEvent : (fs : Fields) (e : Event) → decode_error fs ≡ some e → IsEvent to_iso e
  unfolding decode_error
  error-IsEvent fs e h = ground arith

  room_layout_changed-IsEvent :
      (fs : Fields) (e : Event) → decode_room_layout_changed fs ≡ some e → IsEvent to_iso e
  unfolding decode_room_layout_changed
  room_layout_changed-IsEvent fs e h = ground arith

  participant_removed-IsEvent :
      (fs : Fields) (e : Event) → decode_participant_removed fs ≡ some e → IsEvent to_iso e
  unfolding decode_participant_removed
  participant_removed-IsEvent fs e h = ground arith

  participants-All :
      (v : Value) (ps : List Participant)
      → decode_participants to_iso v ≡ some ps
      → All (IsParticipant to_iso) ps
  unfolding decode_participants
  participants-All v ps h =
      let each =
        map_all-All (IsParticipant to_iso) (decode_participant to_iso)
          (decode_participant-IsParticipant to_iso idempotent) in
      grind (arith, each)

  presence-IsEvent :
      (make : Participant → Event)
      → ((p : Participant) → IsParticipant to_iso p → IsEvent to_iso (make p))
      → (fs : Fields) (e : Event) → decode_presence to_iso make fs ≡ some e
      → IsEvent to_iso e
  unfolding decode_presence
  presence-IsEvent make valid fs e h =
      let participant =
        decode_participant-IsParticipant to_iso idempotent (property "participant" fs) in
      grind (arith, valid, participant)

  presence_left-IsEvent :
      (fs : Fields) (e : Event) → decode_presence_left to_iso fs ≡ some e → IsEvent to_iso e
  unfolding decode_presence_left
  presence_left-IsEvent fs e h =
      let remaining =
        optional-Holds (IsParticipant to_iso) (decode_participant to_iso)
          (decode_participant-IsParticipant to_iso idempotent) (property "participant" fs) in
      grind (arith, remaining)

  room_mode_changed-IsEvent :
      (fs : Fields) (e : Event) → decode_room_mode_changed to_iso fs ≡ some e → IsEvent to_iso e
  unfolding decode_room_mode_changed
  room_mode_changed-IsEvent fs e h =
      let participants = participants-All (property "participants" fs) in
      grind (arith, participants)

  document_revisions-valid :
      (v : Value) (ds : List DocumentRevision)
      → decode_document_revisions v ≡ some ds
      → All (λ (d : DocumentRevision). d.revision ≤ max_safe) ds × (new_ids [] ds ≡ true)
  unfolding decode_document_revisions
  document_revisions-valid v ds h =
      let safe = decode_revisions-safe [] in
      let ids = decode_revisions-new_ids [] in grind (arith, safe, ids)

  -- The last steps of decodeJoined, whose results nothing is asked of.
  flags-IsEvent :
      (make : Bool → Bool → Bool → LayoutPreset → Event)
      → ((reconnected creator watch_only : Bool) (preset : LayoutPreset)
          → IsEvent to_iso (make reconnected creator watch_only preset))
      → (fs : Fields) (e : Event)
      → (do
        reconnected ← as_boolean (property "reconnected" fs)
        creator ← as_boolean (property "creator" fs)
        watch_only ← as_boolean (property "watch_only" fs)
        preset ← layout_preset (or_single (property "layout_preset" fs))
        some (make reconnected creator watch_only preset))
        ≡ some e
      → IsEvent to_iso e
  flags-IsEvent make valid fs e h = grind (arith, valid)

  joined-IsEvent : (fs : Fields) (e : Event) → decode_joined to_iso fs ≡ some e → IsEvent to_iso e
  unfolding decode_joined
  joined-IsEvent fs e h =
      bind_some (truthy (timestamp to_iso (property "expires_at" fs))) _
        (λ expires_at p1 h.
          bind_some (nonnegative_integer (property "metadata_revision" fs)) _
            (λ revision p2 h.
              bind_some (decode_document_revisions (property "document_revisions" fs)) _
                (λ revisions p3 h.
                  bind_some (decode_participants to_iso (property "participants" fs)) _
                    (λ participants p4 h.
                      bind_some (decode_participant to_iso (property "participant" fs)) _
                        (λ participant p5 h.
                          let (safe, ids) =
                            document_revisions-valid (property "document_revisions" fs) revisions
                              p3 in
                          flags-IsEvent _
                            (λ reconnected creator watch_only preset. record {
                              expires_at =
                                  timestamp-IsIso to_iso idempotent (property "expires_at" fs)
                                    expires_at p1;
                              metadata_revision =
                                  nonnegative_integer-le (property "metadata_revision" fs) revision
                                    p2;
                              revisions = safe;
                              ids = ids;
                              participants =
                                  participants-All (property "participants" fs) participants p4;
                              participant =
                                  decode_participant-IsParticipant to_iso idempotent
                                    (property "participant" fs) participant p5;
                            })
                            fs e h)
                        h)
                    h)
                h)
            h)
        h

  -- The later cases of the `switch`.
  late_types :
      (type : String) (fs : Fields) (e : Event)
      → (if str_eq type "presence_left"
          then decode_presence_left to_iso fs
          else if str_eq type "room_layout_changed"
          then decode_room_layout_changed fs
          else if str_eq type "room_mode_changed"
          then decode_room_mode_changed to_iso fs
          else if str_eq type "participant_removed"
          then decode_participant_removed fs
          else if str_eq type "status"
          then decode_status fs
          else if str_eq type "error"
          then decode_error fs
          else none)
        ≡ some e
      → IsEvent to_iso e
  late_types type fs e = if_some (str_eq type "presence_left") _ _ (presence_left-IsEvent fs e) (
      if_some (str_eq type "room_layout_changed") _ _ (room_layout_changed-IsEvent fs e) (
        if_some (str_eq type "room_mode_changed") _ _ (room_mode_changed-IsEvent fs e) (
          if_some (str_eq type "participant_removed") _ _ (participant_removed-IsEvent fs e) (
            if_some (str_eq type "status") _ _ (status-IsEvent fs e)
              (if_some (str_eq type "error") _ _ (error-IsEvent fs e) (λ h. absurd (cc h)))))))

  typed-IsEvent :
      (type : String) (fs : Fields) (e : Event)
      → decode_typed to_iso type fs ≡ some e
      → IsEvent to_iso e
  unfolding decode_typed
  typed-IsEvent type fs e = if_some (str_eq type "joined") _ _ (joined-IsEvent fs e) (
      if_some (str_eq type "changes") _ _ (changes-IsEvent fs e) (
        if_some (str_eq type "document_created") _ _ (document_created-IsEvent fs e) (
          if_some (str_eq type "document_updated") _ _ (document_updated-IsEvent fs e) (
            if_some (str_eq type "document_deleted") _ _ (document_deleted-IsEvent fs e) (
              if_some (str_eq type "document_reordered") _ _ (document_reordered-IsEvent fs e) (
                if_some (str_eq type "presence_joined") _ _
                  (presence-IsEvent presence_joined (λ p v. v) fs e)
                  (if_some (str_eq type "presence_updated") _ _
                    (presence-IsEvent presence_updated (λ p v. v) fs e)
                    (if_some (str_eq type "participant_renamed") _ _
                      (presence-IsEvent participant_renamed (λ p v. v) fs e)
                      (late_types type fs e)))))))))

  -- Whatever the decoder accepts is valid: its numbers are safe integers, its timestamps canonical,
  -- its document ids distinct, and a participant is connected exactly when it has a connection.
  pub decode_event-IsEvent :
      (v : Value) (e : Event) → decode_event to_iso v ≡ some e → IsEvent to_iso e
  unfolding decode_event
  decode_event-IsEvent v e h =
      bind_some (as_record v) _
        (λ fs _ h.
          bind_some (as_string (property "type" fs)) _ (λ type _ h. typed-IsEvent type fs e h) h)
        h

  -- What the decoder accepts, written in the wire format again, decodes to the same event.
  pub decode-encode_of_decode :
      (v : Value) (e : Event)
      → decode_event to_iso v ≡ some e
      → decode_event to_iso (encode_event e) ≡ some e
  decode-encode_of_decode v e h = decode-encode_event to_iso e (decode_event-IsEvent v e h)
