-- ===== src/LiveApi/Decode.antt =====
-- web/src/live-api.ts: the checks of the responses, and what is made of them.
use xbin.Common.{
  ℕ, String, ◌&&◌, Option, some, List, [], ◌∷◌, if◌then◌else◌, ◌>>=◌, ◌>>◌, require, map_all, leb,
  ltb, ◌==◌, length, utf16_length,
}
use xbin.Json.{Value, Fields, property, has_property, as_string, as_boolean}
use xbin.Wire.Parts.{as_record, as_array, nonnegative_integer}
use xbin.LiveApi.{Document, ServiceConfig, RoomSnapshot, CreatedRoom}

-- positiveInteger
unfoldable pub positive_integer : Value → Option ℕ
positive_integer value = do n ← nonnegative_integer value; require (ltb 0 n); some n

-- isCreatedLiveRoom
unfoldable pub created_room : Value → Option CreatedRoom
created_room value = do
  fields ← as_record value
  slug ← as_string (property "slug" fields)
  url ← as_string (property "url" fields)
  expires_at ← as_string (property "expires_at" fields)
  password_required ← as_boolean (property "password_required" fields)
  some (record {
    slug = slug;
    url = url;
    expires_at = expires_at;
    password_required = password_required;
  })

-- The limits that isLiveRoomSnapshot and isLiveServiceConfig ask for alike.
unfoldable pub limits_in : Fields → Option ServiceConfig
unfolding positive_integer
limits_in fields = do
  max_bytes ← positive_integer (property "max_bytes" fields)
  max_document_bytes ← positive_integer (property "max_document_bytes" fields)
  require (max_document_bytes == max_bytes)
  max_tabs ← positive_integer (property "max_tabs" fields)
  max_writers ← positive_integer (property "max_writers" fields)
  max_viewers ← nonnegative_integer (property "max_viewers" fields)
  max_participants ← positive_integer (property "max_participants" fields)
  room_lifetime_seconds ← positive_integer (property "room_lifetime_seconds" fields)
  some (record {
    max_bytes = max_bytes;
    max_tabs = max_tabs;
    max_writers = max_writers;
    max_viewers = max_viewers;
    max_participants = max_participants;
    room_lifetime_seconds = room_lifetime_seconds;
  })

-- isLiveServiceConfig and normalizeLiveServiceConfig
unfoldable pub service_config : Value → Option ServiceConfig
unfolding limits_in
service_config value = as_record value >>= limits_in

-- The check of one document in isLiveRoomSnapshot
unfoldable pub document_in : Value → Option Document
document_in value = do
  fields ← as_record value
  id ← as_string (property "id" fields)
  name ← as_string (property "name" fields)
  language ← as_string (property "language" fields)
  content ← as_string (property "content" fields)
  revision ← nonnegative_integer (property "revision" fields)
  position ← nonnegative_integer (property "position" fields)
  snapshot_revision ← nonnegative_integer (property "snapshot_revision" fields)
  some (record {
    id = id;
    name = name;
    language = language;
    content = content;
    revision = revision;
    position = position;
    snapshot_revision = snapshot_revision;
  })

-- The check of one operation id.
unfoldable pub operation_id : Value → Option String
operation_id value = do
  id ← as_string value
  require (leb 1 (utf16_length id) && leb (utf16_length id) 128)
  some id

-- `!("accepted_operation_ids" in value) || ...`, and `value.accepted_operation_ids ?? []`
unfoldable pub operation_ids : Fields → Option (List String)
unfolding operation_id
operation_ids fields =
    if has_property "accepted_operation_ids" fields
    then (do
      ids ← as_array (property "accepted_operation_ids" fields)
      require (leb (length ids) 64)
      map_all operation_id ids)
    else some []

-- `sort((left, right) => left.position - right.position)`, which is stable: a document is put before
-- the first of those that come after it in the list that is not below it.
unfoldable pub place : Document → List Document → List Document
place d [] = d ∷ []
place d (e ∷ es) =
    let rest = place d es in if leb d.position e.position then d ∷ e ∷ es else e ∷ rest

unfoldable pub by_position : List Document → List Document
unfolding place
by_position [] = []
by_position (d ∷ ds) = place d (by_position ds)

-- isLiveRoomSnapshot and normalizeLiveRoomSnapshot
unfoldable pub room_snapshot : Value → Option RoomSnapshot
unfolding limits_in document_in operation_ids by_position
room_snapshot value = do
  fields ← as_record value
  slug ← as_string (property "slug" fields)
  expires_at ← as_string (property "expires_at" fields)
  password_required ← as_boolean (property "password_required" fields)
  metadata_revision ← nonnegative_integer (property "metadata_revision" fields)
  metadata_snapshot_revision ← nonnegative_integer (property "metadata_snapshot_revision" fields)
  limits ← limits_in fields
  values ← as_array (property "documents" fields)
  documents ← map_all document_in values
  accepted ← operation_ids fields
  some (record {
    slug = slug;
    expires_at = expires_at;
    password_required = password_required;
    metadata_revision = metadata_revision;
    limits = limits;
    documents = by_position documents;
    accepted_operation_ids = accepted;
  })
