-- ===== src/Wire/Types.antt =====
-- The types of live-wire.ts.
use xbin.Common.{ℕ, String, Bool, Option, List}
use xbin.Json.{Value}
use xbin.Layout.{LayoutPreset}

pub record Cursor : Type 0 where
  pub document_id : String
  pub revision : ℕ
  pub anchor : ℕ
  pub head : ℕ

pub record ConnectionCursor : Type 0 where
  pub connection_id : String
  pub cursor : Cursor
  pub open cursor use *

pub data AccessClass : Type 0 where
  creator collaborator viewer : AccessClass

pub data ParticipantStatus : Type 0 where
  connected connection_lost offline : ParticipantStatus

pub record Participant : Type 0 where
  pub id : String
  pub nickname : String
  pub access_class : AccessClass
  pub can_edit : Bool
  pub connection_count : ℕ
  pub color : String
  pub current_tab : String
  pub joined_at : String
  pub last_seen_at : String
  pub cursor : Option Cursor
  pub cursors : List ConnectionCursor
  pub status : ParticipantStatus

pub record DocumentRevision : Type 0 where
  pub document_id : String
  pub revision : ℕ

-- LiveRoomDocument of live-api.ts
pub record RoomDocument : Type 0 where
  pub id : String
  pub name : String
  pub language : String
  pub content : String
  pub revision : ℕ
  pub position : ℕ

pub record Joined : Type 0 where
  pub expires_at : String
  pub metadata_revision : ℕ
  pub document_revisions : List DocumentRevision
  pub participants : List Participant
  pub participant : Participant
  pub reconnected : Bool
  pub creator : Bool
  pub watch_only : Bool
  pub layout_preset : LayoutPreset

pub data StatusKind : Type 0 where
  http_resync_required rate_limited synchronized expired : StatusKind

-- LiveWireEvent: the arguments of a constructor are the fields of the source, in their order.
pub data Event : Type 0 where
  joined : Joined → Event
  changes : String → String → String → ℕ → ℕ → Value → Event
  document_created : String → String → ℕ → RoomDocument → Event
  document_updated : String → String → String → ℕ → String → String → Event
  document_deleted : String → String → String → ℕ → Event
  document_reordered : String → String → ℕ → List String → Event
  presence_joined presence_updated participant_renamed : Participant → Event
  presence_left : String → Option Participant → Event
  room_mode_changed : Bool → List Participant → Event
  room_layout_changed : LayoutPreset → Event
  participant_removed : String → Event
  status : StatusKind → Event
  error : String → String → Option String → Option String → Event
