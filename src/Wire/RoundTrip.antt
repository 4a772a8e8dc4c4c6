-- ===== src/Wire/RoundTrip.antt =====
-- Every valid event survives the wire.
use xbin.Common.{
  ℕ, ◌≤◌, ◌≡◌, refl, String, true, false, Option, none, some, List, [], ◌∷◌, All, includes, map,
  map_all, arith, eq_iff,
}
use xbin.Json.{Value, as_string, max_safe, items, values, string, property, end}
use xbin.Layout.{preset_of-name}
use xbin.Wire.Types.{
  Cursor, ConnectionCursor, AccessClass, ParticipantStatus, connected, creator, StatusKind, expired,
  Participant, DocumentRevision, RoomDocument, Event, Joined, joined, changes, document_created,
  document_updated, document_deleted, document_reordered, presence_joined, presence_updated,
  participant_renamed, presence_left, room_mode_changed, room_layout_changed, participant_removed,
  status, error,
}
use xbin.Wire.Parts.{
  optional, safe, truthy, status_of, access_class_of, decode_cursor, decode_connection_cursor,
  decode_document, decode_revisions, decode_document_revisions, decode_participant,
}
use xbin.Wire.Decode.{
  decode_event, status_kind_of, decode_joined, decode_changes, decode_document_created,
  decode_document_updated, decode_document_deleted, decode_document_reordered, decode_presence,
  decode_presence_left, decode_room_mode_changed, decode_room_layout_changed,
  decode_participant_removed, decode_status, decode_error,
}
use xbin.Wire.Encode.{
  map_option, maybe_field, encode_cursor, encode_connection_cursor, encode_participant,
  encode_revision, encode_document, encode_event, status_name, access_class_name, status_kind_name,
}
use xbin.Wire.Valid.{Holds, IsCursor, IsDocument, new_ids, IsIso, IsParticipant, IsJoined, IsEvent}

safe_lem : (n : ℕ) → n ≤ max_safe → safe n ≡ some n
safe_lem n h = ground arith

status_of-name : (s : ParticipantStatus) → status_of (status_name s) ≡ some s
unfolding status_of
status_of-name connected = refl
status_of-name _ = refl

access_class_of-name : (c : AccessClass) → access_class_of (access_class_name c) ≡ some c
unfolding access_class_of
access_class_of-name creator = refl
access_class_of-name _ = refl

status_kind_of-name : (k : StatusKind) → status_kind_of (status_kind_name k) ≡ some k
unfolding status_kind_of
status_kind_of-name expired = refl
status_kind_of-name _ = refl

decode-encode_cursor : (c : Cursor) → IsCursor c → decode_cursor (encode_cursor c) ≡ some c
unfolding decode_cursor encode_cursor
decode-encode_cursor c h =
    rw (safe_lem c.revision h.revision, safe_lem c.anchor h.anchor, safe_lem c.head h.head)

decode-encode_connection_cursor :
    (c : ConnectionCursor)
    → IsCursor c.cursor
    → decode_connection_cursor (encode_connection_cursor c) ≡ some c
unfolding decode_connection_cursor encode_connection_cursor decode_cursor
decode-encode_connection_cursor c h =
    rw (safe_lem c.revision h.revision, safe_lem c.anchor h.anchor, safe_lem c.head h.head)

decode-encode_document :
    (d : RoomDocument) → IsDocument d → decode_document (encode_document d) ≡ some d
unfolding decode_document encode_document
decode-encode_document d h = rw (safe_lem d.revision h.revision, safe_lem d.position h.position)

map_all-values {ℓ κ} :
    {A : Type ℓ} (P : A → Type κ) (decode : Value → Option A) (encode : A → Value)
    → ((a : A) → P a → decode (encode a) ≡ some a)
    → (xs : List A) → All P xs
    → map_all decode (items (values (map encode xs))) ≡ some xs
map_all-values P decode encode trip [] h = refl
map_all-values P decode encode trip (x ∷ xs) (h, hs) =
    rw (trip x h, map_all-values P decode encode trip xs hs)

decode-encode_revisions :
    (seen : List String) (ds : List DocumentRevision)
    → All (λ (d : DocumentRevision). d.revision ≤ max_safe) ds
    → new_ids seen ds ≡ true
    → decode_revisions seen (items (values (map encode_revision ds))) ≡ some ds
unfolding decode_revisions encode_revision
decode-encode_revisions seen [] h fresh = refl
decode-encode_revisions seen (d ∷ ds) (h, hs) fresh =
    let rest = decode-encode_revisions (d.document_id ∷ seen) ds hs (ground arith) in
    let first : includes d.document_id seen ≡ false = ground arith in
    rw (safe_lem d.revision h, first, rest)

optional-cursor :
    (c : Option Cursor)
    → Holds IsCursor c
    → optional decode_cursor
        (property "cursor" (maybe_field "cursor" (map_option encode_cursor c) end))
      ≡ some c
unfolding encode_cursor decode_cursor
optional-cursor none h = refl
optional-cursor (some c) h =
    rw (safe_lem c.revision h.revision, safe_lem c.anchor h.anchor, safe_lem c.head h.head)

strings : (ss : List String) → map_all as_string (items (values (map string ss))) ≡ some ss
strings [] = refl
strings (s ∷ ss) = rw (strings ss)

module _ (to_iso : String → Option String) where
  truthy-iso : (t : String) → IsIso to_iso t → truthy (to_iso t) ≡ some t
  truthy-iso t h = rw (h.fixed) (ground (arith, eq_iff t "", h.some_text))

  decode-encode_participant :
      (p : Participant)
      → IsParticipant to_iso p
      → decode_participant to_iso (encode_participant p) ≡ some p
  unfolding decode_participant encode_participant
  decode-encode_participant p h = rw (
    status_of-name p.status,
    access_class_of-name p.access_class,
    truthy-iso p.joined_at h.joined_at,
    truthy-iso p.last_seen_at h.last_seen_at,
    optional-cursor p.cursor h.cursor,
    map_all-values (λ (c : ConnectionCursor). IsCursor c.cursor) decode_connection_cursor
        encode_connection_cursor decode-encode_connection_cursor p.cursors h.cursors,
    safe_lem p.connection_count h.count,
    h.fits,
  )

  decode-encode_participants :
      (ps : List Participant)
      → All (IsParticipant to_iso) ps
      → map_all (decode_participant to_iso) (items (values (map encode_participant ps))) ≡ some ps
  decode-encode_participants =
      map_all-values (IsParticipant to_iso) (decode_participant to_iso) encode_participant
        decode-encode_participant

  optional-participant :
      (p : Option Participant)
      → Holds (IsParticipant to_iso) p
      → optional
          (decode_participant to_iso)
          (property "participant" (maybe_field "participant" (map_option encode_participant p) end))
        ≡ some p
  unfolding encode_participant
  optional-participant none h = refl
  optional-participant (some p) h = rw (decode-encode_participant p h)

  decode-encode_joined :
      (j : Joined)
      → IsJoined to_iso j
      → decode_event to_iso (encode_event (joined j)) ≡ some (joined j)
  unfolding decode_event encode_event decode_joined decode_document_revisions
  decode-encode_joined j h = rw (
    truthy-iso j.expires_at h.expires_at,
    safe_lem j.metadata_revision h.metadata_revision,
    decode-encode_revisions [] j.document_revisions h.revisions h.ids,
    decode-encode_participants j.participants h.participants,
    decode-encode_participant j.participant h.participant,
    preset_of-name j.layout_preset,
  )

  -- Decoding what a valid event is written as gives the event back, whatever its kind.
  pub decode-encode_event :
      (e : Event) → IsEvent to_iso e → decode_event to_iso (encode_event e) ≡ some e
  unfolding decode_event encode_event
  decode-encode_event (joined j) h = unfold decode_event encode_event in decode-encode_joined j h
  decode-encode_event (changes op client document base revision change) (h, h') =
      unfold decode_changes in rw (safe_lem base h, safe_lem revision h')
  decode-encode_event (document_created op client revision document) (h, h') =
      unfold decode_document_created in rw (decode-encode_document document h', safe_lem revision h)
  decode-encode_event (document_updated op client document revision name language) h =
      unfold decode_document_updated in rw (safe_lem revision h)
  decode-encode_event (document_deleted op client document revision) h =
      unfold decode_document_deleted in rw (safe_lem revision h)
  decode-encode_event (document_reordered op client revision order) h =
      unfold decode_document_reordered in rw (safe_lem revision h, strings order)
  decode-encode_event (presence_joined p) h =
      unfold decode_presence in rw (decode-encode_participant p h)
  decode-encode_event (presence_updated p) h =
      unfold decode_presence in rw (decode-encode_participant p h)
  decode-encode_event (participant_renamed p) h =
      unfold decode_presence in rw (decode-encode_participant p h)
  decode-encode_event (presence_left id p) h =
      unfold decode_presence_left in rw (optional-participant p h)
  decode-encode_event (room_mode_changed watch_only ps) h =
      unfold decode_room_mode_changed in rw (decode-encode_participants ps h)
  decode-encode_event (room_layout_changed preset) h =
      unfold decode_room_layout_changed in rw (preset_of-name preset)
  decode-encode_event (participant_removed id) h = unfold decode_participant_removed in refl
  decode-encode_event (status kind) h = unfold decode_status in rw (status_kind_of-name kind)
  decode-encode_event (error code message none none) h = unfold decode_error in refl
  decode-encode_event (error code message none (some s)) h = unfold decode_error in refl
  decode-encode_event (error code message (some op) none) h = unfold decode_error in refl
  decode-encode_event (error code message (some op) (some s)) h = unfold decode_error in refl
