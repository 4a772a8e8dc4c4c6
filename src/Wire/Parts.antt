-- ===== src/Wire/Parts.antt =====
-- The decoders of the parts of an event.
use xbin.Common.{
  ℕ, zero, suc, String, Bool, true, false, not, Option, none, some, List, [], ◌∷◌, leb, ◌==◌,
  if◌then◌else◌, str_eq, ◌>>=◌, ◌>>◌, require, map_all, includes,
}
use xbin.Json.{
  natural, Value, undefined, number, string, array, object, Fields, end, items, property, as_string,
  as_boolean, max_safe,
}
use xbin.Wire.Types.{
  Cursor, ConnectionCursor, AccessClass, creator, collaborator, viewer, ParticipantStatus,
  connected, connection_lost, offline, Participant, DocumentRevision, RoomDocument,
}

-- `record`: an array is an object too, with none of the properties that are read here.
abbrev pub as_record : Value → Option Fields
as_record (object fields) = some fields
as_record (array vs) = some end
as_record _ = none

abbrev pub as_array : Value → Option (List Value)
as_array (array vs) = some (items vs)
as_array _ = none

abbrev pub safe : ℕ → Option ℕ
safe n = if leb n max_safe then some n else none

abbrev pub nonnegative_integer : Value → Option ℕ
nonnegative_integer (number (natural n)) = safe n
nonnegative_integer _ = none

-- `value === undefined ? undefined : decode(value)`, refused if a value that is there does not decode.
abbrev pub optional {ℓ} : {A : Type ℓ} → (Value → Option A) → Value → Option (Option A)
optional f undefined = some none
optional f v = do some (some (← f v))

-- `!text` refuses `undefined` and the empty text.
abbrev pub truthy : Option String → Option String
truthy none = none
truthy (some s) = if str_eq s "" then none else some s

unfoldable pub status_of : String → Option ParticipantStatus
status_of s =
    if str_eq s "connected"
    then some connected
    else if str_eq s "connection_lost"
    then some connection_lost
    else if str_eq s "offline"
    then some offline
    else none

unfoldable pub access_class_of : String → Option AccessClass
access_class_of s =
    if str_eq s "creator"
    then some creator
    else if str_eq s "collaborator"
    then some collaborator
    else if str_eq s "viewer"
    then some viewer
    else none

-- isParticipantStatus, with the status that it finds
abbrev pub participant_status : Value → Option ParticipantStatus
participant_status (string s) = status_of s
participant_status _ = none

-- isParticipantAccessClass
abbrev pub participant_access_class : Value → Option AccessClass
participant_access_class (string s) = access_class_of s
participant_access_class _ = none

-- decodeCursor
unfoldable pub decode_cursor : Value → Option Cursor
decode_cursor value = do
  cursor ← as_record value
  document_id ← as_string (property "document_id" cursor)
  revision ← nonnegative_integer (property "revision" cursor)
  anchor ← nonnegative_integer (property "anchor" cursor)
  head ← nonnegative_integer (property "head" cursor)
  some (record { document_id = document_id; revision = revision; anchor = anchor; head = head })

-- decodeConnectionCursor
unfoldable pub decode_connection_cursor : Value → Option ConnectionCursor
decode_connection_cursor value = do
  fields ← as_record value
  decoded ← decode_cursor value
  connection_id ← as_string (property "connection_id" fields)
  some (record { connection_id = connection_id; cursor = decoded })

-- decodeDocument
unfoldable pub decode_document : Value → Option RoomDocument
decode_document value = do
  document ← as_record value
  id ← as_string (property "id" document)
  name ← as_string (property "name" document)
  language ← as_string (property "language" document)
  content ← as_string (property "content" document)
  revision ← nonnegative_integer (property "revision" document)
  position ← nonnegative_integer (property "position" document)
  some (record {
    id = id;
    name = name;
    language = language;
    content = content;
    revision = revision;
    position = position;
  })

-- The loop of decodeDocumentRevisions over the ids seen so far.
unfoldable pub decode_revisions : List String → List Value → Option (List DocumentRevision)
decode_revisions seen [] = some []
decode_revisions seen (value ∷ rest) = do
  item ← as_record value
  document_id ← as_string (property "document_id" item)
  revision ← nonnegative_integer (property "revision" item)
  require (not (includes document_id seen))
  decoded ← decode_revisions (document_id ∷ seen) rest
  some (record { document_id = document_id; revision = revision } ∷ decoded)

unfoldable pub decode_document_revisions : Value → Option (List DocumentRevision)
unfolding decode_revisions
decode_document_revisions value = do documents ← as_array value; decode_revisions [] documents

-- A connected participant has a connection, and no other has one.
abbrev pub count_fits : ParticipantStatus → ℕ → Bool
count_fits connected zero = false
count_fits connected (suc n) = true
count_fits _ n = n == 0

unfoldable pub decode_cursors : Value → Option (List ConnectionCursor)
decode_cursors undefined = some []
decode_cursors value = do cursors ← as_array value; map_all decode_connection_cursor cursors

module _ (to_iso : String → Option String) where
  -- `timestamp`, where `to_iso` is `new Date(value).toISOString()`, `none` for an invalid date
  abbrev pub timestamp : Value → Option String
  timestamp (string s) = to_iso s
  timestamp _ = none

  -- decodeParticipant
  unfoldable pub decode_participant : Value → Option Participant
  unfolding decode_cursors
  decode_participant value = do
    participant ← as_record value
    id ← as_string (property "id" participant)
    nickname ← as_string (property "nickname" participant)
    color ← as_string (property "color" participant)
    current_tab ← as_string (property "current_tab" participant)
    status ← participant_status (property "status" participant)
    access_class ← participant_access_class (property "access_class" participant)
    can_edit ← as_boolean (property "can_edit" participant)
    joined_at ← truthy (timestamp (property "joined_at" participant))
    last_seen_at ← truthy (timestamp (property "last_seen_at" participant))
    cursor ← optional decode_cursor (property "cursor" participant)
    cursors ← decode_cursors (property "cursors" participant)
    connection_count ← nonnegative_integer (property "connection_count" participant)
    require (count_fits status connection_count)
    some (record {
      id = id;
      nickname = nickname;
      access_class = access_class;
      can_edit = can_edit;
      connection_count = connection_count;
      color = color;
      current_tab = current_tab;
      joined_at = joined_at;
      last_seen_at = last_seen_at;
      cursor = cursor;
      cursors = cursors;
      status = status;
    })
