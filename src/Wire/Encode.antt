-- ===== src/Wire/Encode.antt =====
-- The wire format, written down from the side of the sender: the object that stands for each event.
-- The decoder is judged against it.
use xbin.Common.{ℕ, String, Option, none, some, List, map}
use xbin.Json.{natural, Value, boolean, number, string, array, object, Fields, end, field, values}
use xbin.Layout.{preset_name}
use xbin.Wire.Types.{
  Cursor, ConnectionCursor, AccessClass, creator, collaborator, viewer, ParticipantStatus,
  connected, connection_lost, offline, Participant, DocumentRevision, RoomDocument, Event,
  StatusKind, joined, changes, document_created, document_updated, document_deleted,
  document_reordered, presence_joined, presence_updated, participant_renamed, presence_left,
  room_mode_changed, room_layout_changed, participant_removed, status, error, http_resync_required,
  rate_limited, synchronized, expired,
}

abbrev pub integer : ℕ → Value
integer n = number (natural n)

-- A property that is written only if it has a value.
abbrev pub maybe_field : String → Option Value → Fields → Fields
maybe_field k none rest = rest
maybe_field k (some v) rest = field k v rest

abbrev pub map_option {ℓ κ} : {A : Type ℓ} {B : Type κ} → (A → B) → Option A → Option B
map_option f none = none
map_option f (some a) = some (f a)

abbrev pub status_name : ParticipantStatus → String
status_name connected = "connected"
status_name connection_lost = "connection_lost"
status_name offline = "offline"

abbrev pub access_class_name : AccessClass → String
access_class_name creator = "creator"
access_class_name collaborator = "collaborator"
access_class_name viewer = "viewer"

abbrev pub cursor_fields : Cursor → Fields
cursor_fields c = field "document_id" (string c.document_id) (
    field "revision" (integer c.revision)
      (field "anchor" (integer c.anchor) (field "head" (integer c.head) end)))

unfoldable pub encode_cursor : Cursor → Value
encode_cursor c = object (cursor_fields c)

unfoldable pub encode_connection_cursor : ConnectionCursor → Value
encode_connection_cursor c =
    object (field "connection_id" (string c.connection_id) (cursor_fields c.cursor))

unfoldable pub encode_participant : Participant → Value
encode_participant p = object (
    field "id" (string p.id) (
      field "nickname" (string p.nickname) (
        field "access_class" (string (access_class_name p.access_class)) (
          field "can_edit" (boolean p.can_edit) (
            field "connection_count" (integer p.connection_count) (
              field "color" (string p.color) (
                field "current_tab" (string p.current_tab) (
                  field "joined_at" (string p.joined_at) (
                    field "last_seen_at" (string p.last_seen_at) (
                      field "status" (string (status_name p.status)) (
                        field "cursors" (array (values (map encode_connection_cursor p.cursors)))
                          (maybe_field "cursor" (map_option encode_cursor p.cursor) end))))))))))))

unfoldable pub encode_revision : DocumentRevision → Value
encode_revision d =
    object (field "document_id" (string d.document_id) (field "revision" (integer d.revision) end))

unfoldable pub encode_document : RoomDocument → Value
encode_document d = object (
    field "id" (string d.id) (
      field "name" (string d.name) (
        field "language" (string d.language) (
          field "content" (string d.content)
            (field "revision" (integer d.revision) (field "position" (integer d.position) end))))))

abbrev pub participants_value : List Participant → Value
participants_value ps = array (values (map encode_participant ps))

abbrev pub status_kind_name : StatusKind → String
status_kind_name http_resync_required = "http_resync_required"
status_kind_name rate_limited = "rate_limited"
status_kind_name synchronized = "synchronized"
status_kind_name expired = "expired"

abbrev typed : String → Fields → Value
typed type fields = object (field "type" (string type) fields)

unfoldable pub encode_event : Event → Value
encode_event (joined j) = typed "joined" (
    field "expires_at" (string j.expires_at) (
      field "metadata_revision" (integer j.metadata_revision) (
        field "document_revisions" (array (values (map encode_revision j.document_revisions))) (
          field "participants" (participants_value j.participants) (
            field "participant" (encode_participant j.participant) (
              field "reconnected" (boolean j.reconnected) (
                field "creator" (boolean j.creator) (
                  field "watch_only" (boolean j.watch_only)
                    (field "layout_preset" (string (preset_name j.layout_preset)) end)))))))))
encode_event (changes op client document base revision change) = typed "changes" (
    field "operation_id" (string op) (
      field "client_id" (string client) (
        field "document_id" (string document) (
          field "base_version" (integer base)
            (field "revision" (integer revision) (field "changes" change end))))))
encode_event (document_created op client revision document) = typed "document_created" (
    field "operation_id" (string op) (
      field "client_id" (string client) (
        field "metadata_revision" (integer revision)
          (field "document" (encode_document document) end))))
encode_event (document_updated op client document revision name language) =
    typed "document_updated" (
      field "operation_id" (string op) (
        field "client_id" (string client) (
          field "document_id" (string document) (
            field "metadata_revision" (integer revision)
              (field "name" (string name) (field "language" (string language) end))))))
encode_event (document_deleted op client document revision) = typed "document_deleted" (
    field "operation_id" (string op) (
      field "client_id" (string client)
        (field "document_id" (string document) (field "metadata_revision" (integer revision) end))))
encode_event (document_reordered op client revision order) = typed "document_reordered" (
    field "operation_id" (string op) (
      field "client_id" (string client) (
        field "metadata_revision" (integer revision)
          (field "order" (array (values (map string order))) end))))
encode_event (presence_joined p) =
    typed "presence_joined" (field "participant" (encode_participant p) end)
encode_event (presence_updated p) =
    typed "presence_updated" (field "participant" (encode_participant p) end)
encode_event (participant_renamed p) =
    typed "participant_renamed" (field "participant" (encode_participant p) end)
encode_event (presence_left id p) = typed "presence_left" (
    field "participant_id" (string id)
      (maybe_field "participant" (map_option encode_participant p) end))
encode_event (room_mode_changed watch_only ps) =
    typed "room_mode_changed"
      (field "watch_only" (boolean watch_only) (field "participants" (participants_value ps) end))
encode_event (room_layout_changed preset) =
    typed "room_layout_changed" (field "layout_preset" (string (preset_name preset)) end)
encode_event (participant_removed id) =
    typed "participant_removed" (field "participant_id" (string id) end)
encode_event (status kind) = typed "status" (field "status" (string (status_kind_name kind)) end)
encode_event (error code message op s) = typed "error" (
    field "code" (string code) (
      field "message" (string message) (
        maybe_field "operation_id" (map_option string op)
          (maybe_field "status" (map_option string s) end))))
