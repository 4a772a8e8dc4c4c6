-- ===== src/Wire/Decode.antt =====
-- decodeLiveWireEvent and liveJoinMessage.
use xbin.Common.{
  String, Option, none, some, List, if◌then◌else◌, str_eq, ◌>>=◌, ◌>>◌, require, map_all,
}
use xbin.Json.{Value, Fields, property, has_property, as_string, as_boolean}
use xbin.Layout.{layout_preset, or_single}
use xbin.Wire.Types.{
  Event, StatusKind, joined, changes, document_created, document_updated, document_deleted,
  document_reordered, presence_joined, presence_updated, participant_renamed, presence_left,
  room_mode_changed, room_layout_changed, participant_removed, status, error, http_resync_required,
  rate_limited, synchronized, expired, Participant,
}
use xbin.Wire.Parts.{
  as_record, as_array, nonnegative_integer, optional, truthy, timestamp, decode_document,
  decode_document_revisions, decode_participant,
}

unfoldable pub decode_changes : Fields → Option Event
decode_changes event = do
  operation_id ← as_string (property "operation_id" event)
  client_id ← as_string (property "client_id" event)
  document_id ← as_string (property "document_id" event)
  base_version ← nonnegative_integer (property "base_version" event)
  revision ← nonnegative_integer (property "revision" event)
  require (has_property "changes" event)
  some (changes operation_id client_id document_id base_version revision (property "changes" event))

unfoldable pub decode_document_created : Fields → Option Event
decode_document_created event = do
  document ← decode_document (property "document" event)
  operation_id ← as_string (property "operation_id" event)
  client_id ← as_string (property "client_id" event)
  metadata_revision ← nonnegative_integer (property "metadata_revision" event)
  some (document_created operation_id client_id metadata_revision document)

unfoldable pub decode_document_updated : Fields → Option Event
decode_document_updated event = do
  operation_id ← as_string (property "operation_id" event)
  client_id ← as_string (property "client_id" event)
  document_id ← as_string (property "document_id" event)
  name ← as_string (property "name" event)
  language ← as_string (property "language" event)
  metadata_revision ← nonnegative_integer (property "metadata_revision" event)
  some (document_updated operation_id client_id document_id metadata_revision name language)

unfoldable pub decode_document_deleted : Fields → Option Event
decode_document_deleted event = do
  operation_id ← as_string (property "operation_id" event)
  client_id ← as_string (property "client_id" event)
  document_id ← as_string (property "document_id" event)
  metadata_revision ← nonnegative_integer (property "metadata_revision" event)
  some (document_deleted operation_id client_id document_id metadata_revision)

unfoldable pub decode_document_reordered : Fields → Option Event
decode_document_reordered event = do
  operation_id ← as_string (property "operation_id" event)
  client_id ← as_string (property "client_id" event)
  metadata_revision ← nonnegative_integer (property "metadata_revision" event)
  items ← as_array (property "order" event)
  order ← map_all as_string items
  some (document_reordered operation_id client_id metadata_revision order)

unfoldable pub status_kind_of : String → Option StatusKind
status_kind_of s =
    if str_eq s "http_resync_required"
    then some http_resync_required
    else if str_eq s "rate_limited"
    then some rate_limited
    else if str_eq s "synchronized"
    then some synchronized
    else if str_eq s "expired"
    then some expired
    else none

unfoldable pub decode_status : Fields → Option Event
unfolding status_kind_of
decode_status event = do
  name ← as_string (property "status" event)
  kind ← status_kind_of name
  some (status kind)

unfoldable pub decode_error : Fields → Option Event
decode_error event = do
  code ← as_string (property "code" event)
  message ← as_string (property "message" event)
  some (
      error code message (as_string (property "operation_id" event))
        (as_string (property "status" event)))

unfoldable pub decode_room_layout_changed : Fields → Option Event
decode_room_layout_changed event = do
  preset ← layout_preset (property "layout_preset" event)
  some (room_layout_changed preset)

unfoldable pub decode_participant_removed : Fields → Option Event
decode_participant_removed event = do
  participant_id ← as_string (property "participant_id" event)
  some (participant_removed participant_id)

module _ (to_iso : String → Option String) where
  unfoldable pub decode_participants : Value → Option (List Participant)
  decode_participants value = do items ← as_array value; map_all (decode_participant to_iso) items

  unfoldable pub decode_joined : Fields → Option Event
  unfolding decode_participants
  decode_joined event = do
    expires_at ← truthy (timestamp to_iso (property "expires_at" event))
    metadata_revision ← nonnegative_integer (property "metadata_revision" event)
    document_revisions ← decode_document_revisions (property "document_revisions" event)
    participants ← decode_participants (property "participants" event)
    participant ← decode_participant to_iso (property "participant" event)
    reconnected ← as_boolean (property "reconnected" event)
    creator ← as_boolean (property "creator" event)
    watch_only ← as_boolean (property "watch_only" event)
    preset ← layout_preset (or_single (property "layout_preset" event))
    some (
        joined (record {
          expires_at = expires_at;
          metadata_revision = metadata_revision;
          document_revisions = document_revisions;
          participants = participants;
          participant = participant;
          reconnected = reconnected;
          creator = creator;
          watch_only = watch_only;
          layout_preset = preset;
        }))

  unfoldable pub decode_presence : (Participant → Event) → Fields → Option Event
  decode_presence make event = do
    participant ← decode_participant to_iso (property "participant" event)
    some (make participant)

  unfoldable pub decode_presence_left : Fields → Option Event
  decode_presence_left event = do
    participant_id ← as_string (property "participant_id" event)
    participant ← optional (decode_participant to_iso) (property "participant" event)
    some (presence_left participant_id participant)

  unfoldable pub decode_room_mode_changed : Fields → Option Event
  unfolding decode_participants
  decode_room_mode_changed event = do
    participants ← decode_participants (property "participants" event)
    watch_only ← as_boolean (property "watch_only" event)
    some (room_mode_changed watch_only participants)

  -- The `switch` on the type.
  unfoldable pub decode_typed : String → Fields → Option Event
  decode_typed type event =
      if str_eq type "joined"
      then decode_joined event
      else if str_eq type "changes"
      then decode_changes event
      else if str_eq type "document_created"
      then decode_document_created event
      else if str_eq type "document_updated"
      then decode_document_updated event
      else if str_eq type "document_deleted"
      then decode_document_deleted event
      else if str_eq type "document_reordered"
      then decode_document_reordered event
      else if str_eq type "presence_joined"
      then decode_presence presence_joined event
      else if str_eq type "presence_updated"
      then decode_presence presence_updated event
      else if str_eq type "participant_renamed"
      then decode_presence participant_renamed event
      else if str_eq type "presence_left"
      then decode_presence_left event
      else if str_eq type "room_layout_changed"
      then decode_room_layout_changed event
      else if str_eq type "room_mode_changed"
      then decode_room_mode_changed event
      else if str_eq type "participant_removed"
      then decode_participant_removed event
      else if str_eq type "status"
      then decode_status event
      else if str_eq type "error"
      then decode_error event
      else none

  -- decodeLiveWireEvent
  unfoldable pub decode_event : Value → Option Event
  unfolding decode_typed
  decode_event value = do
    event ← as_record value
    type ← as_string (property "type" event)
    decode_typed type event
