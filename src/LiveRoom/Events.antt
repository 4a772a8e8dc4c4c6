-- ===== src/LiveRoom/Events.antt =====
-- The dispatcher of the wire events: handleEvent, recoverOperationError and enterRecovery of
-- web/src/live-room.tsx.
--
-- The controller of the snapshots answers to two questions, which are arguments: whether it keeps the event for
-- replay, and whether it is at work. What the handler asks of it is an effect.
pub mod Modes
pub mod Recovering
mod Tests
use xbin.Common.{
  ◌+◌, String, Bool, true, false, not, ◌&&◌, ◌||◌, Option, none, some, List, [], ◌∷◌, ◌++◌,
  if◌then◌else◌, str_eq, keep, map, is_some,
}
use xbin.Json.{property, string}
use xbin.Layout.{LayoutPreset}
use xbin.Wire.Types.{
  Event, Participant, AccessClass, Joined, joined, changes, document_created, document_updated,
  document_deleted, document_reordered, presence_joined, presence_updated, participant_renamed,
  presence_left, room_mode_changed, room_layout_changed, participant_removed, status, error,
  http_resync_required, connection_lost,
}
use xbin.Operations.{
  Operation, ErrorClass, retryable, resync, auth, overload, classify, get, reject, clear,
}
use xbin.Connection
use xbin.Connection.{recovery, offline}
use xbin.Reconciliation.{is_authority_event}
use xbin.LiveRoom.{
  Editing, Room, Recovery, applied, gap, thrown, set_connection_state, schedule_flush,
  update_queue_state,
}
use xbin.LiveRoom.Documents.{DocumentEvent, apply_document_event}
use xbin.LiveRoom.Metadata.{
  created, updated, deleted, reordered, MetadataEvent, apply_metadata_event, end_metadata_operation,
}
use xbin.LiveRoom.Outbound.{Client, is_metadata, replay_pending_metadata}

-- What the handler does beside: the snapshot is asked for, the nickname is stored, a text is said.
pub data Effect : Type 0 where
  snapshot_refreshed : Effect
  nickname_saved said : String → Effect

pub record Session (Editor : Type 0) : Type 0 where
  pub client : Client Editor
  pub participants : List Participant
  pub local_participant_id : String
  pub local_access_class : AccessClass
  pub creator : Bool
  pub creator_preset : LayoutPreset
  pub watch_only : Bool
  pub room_full : Bool
  pub fatal : Bool
  pub effects : List Effect

-- The type's name in the wire format.
pub event_type : Event → String
event_type (joined _) = "joined"
event_type (changes _ _ _ _ _ _) = "changes"
event_type (document_created _ _ _ _) = "document_created"
event_type (document_updated _ _ _ _ _ _) = "document_updated"
event_type (document_deleted _ _ _ _) = "document_deleted"
event_type (document_reordered _ _ _ _) = "document_reordered"
event_type (presence_joined _) = "presence_joined"
event_type (presence_updated _) = "presence_updated"
event_type (participant_renamed _) = "participant_renamed"
event_type (presence_left _ _) = "presence_left"
event_type (room_mode_changed _ _) = "room_mode_changed"
event_type (room_layout_changed _) = "room_layout_changed"
event_type (participant_removed _) = "participant_removed"
event_type (status _) = "status"
event_type (error _ _ _ _) = "error"

-- The participants after an event.
pub without_participant : String → List Participant → List Participant
without_participant id ps = keep (λ (p : Participant). not (str_eq p.id id)) ps

pub replace_participant : String → (Participant → Participant) → List Participant → List Participant
replace_participant id change ps =
    map (λ (p : Participant). if str_eq p.id id then change p else p) ps

pub find_participant : String → List Participant → Option Participant
find_participant id [] = none
find_participant id (p ∷ ps) = if str_eq p.id id then some p else find_participant id ps

pub recovery_message : ErrorClass → String
recovery_message auth = "This edit needs a new room session. Your text is preserved for recovery."
recovery_message overload =
    "This edit could not be accepted because the room is busy. Your text is preserved for recovery."
recovery_message _ = "This edit was rejected. Your text is preserved for recovery."

-- `pendingOperation.message.type === "document_create"`
pub is_creation : Operation → Bool
is_creation op = elim (property "type" op.message) [
  | string t ↦ str_eq t "document_create"
  | _ ↦ false
]

module _ {Editor : Type 0} where
  unfoldable pub in_room : (Room Editor → Room Editor) → Session Editor → Session Editor
  in_room f s = record s { client = record s.client { room = f s.client.room } }

  unfoldable pub emit : Effect → Session Editor → Session Editor
  emit e s = record s { effects = e ∷ s.effects }

  -- setLocalParticipantAuthority
  pub set_local_participant_authority : Participant → Session Editor → Session Editor
  unfolding in_room
  set_local_participant_authority p s =
      in_room (λ (r : Room Editor). record r { can_edit = p.can_edit })
        (record s { local_access_class = p.access_class })

  pub change_participant : Participant → Session Editor → Session Editor
  unfolding without_participant
  change_participant p s = record s {
    participants = without_participant p.id s.participants ++ p ∷ [];
  }

  -- enterRecovery
  pub enter_recovery : Operation → String → Room Editor → Room Editor
  unfolding set_connection_state
  enter_recovery op message r =
      let shown : Recovery = record {
        operation_id = op.id;
        text = op.recovery_text;
        message = message;
      } in
      let kept =
        set_connection_state recovery
          (record r { recovering = true; recovery_shown = some shown }) in
      record kept {
        metadata_operation =
            if str_eq op.id kept.metadata_operation then "" else kept.metadata_operation;
        metadata_busy = false;
      }

  -- `if (!resyncingRef.current) void refreshSnapshot()`
  pub ask_snapshot : Session Editor → Session Editor
  unfolding emit
  ask_snapshot s = if s.client.room.resyncing then s else emit snapshot_refreshed s

  -- The operation that is rejected, if the tracker gives it, is kept for recovery.
  pub reject_operation : Option String → ErrorClass → Session Editor → Session Editor
  unfolding reject enter_recovery in_room emit recovery_message
  reject_operation id category s =
      let (rejected, tracker) = reject id s.client.room.generation s.client.room.tracker in
      let marked = in_room (λ (r : Room Editor). record r { tracker = tracker }) s in
      elim rejected [
        | none ↦ marked
        | some op ↦
            emit (said (recovery_message category))
              (in_room (enter_recovery op (recovery_message category)) marked)
      ]

  pub reject_by_class : ErrorClass → Option String → Session Editor → Session Editor
  unfolding ask_snapshot reject_operation
  reject_by_class retryable id s = ask_snapshot s
  reject_by_class resync id s = ask_snapshot s
  reject_by_class category id s = reject_operation id category s

  -- A new tab that the room has no place for is given up.
  pub give_up_creation : String → Operation → Session Editor → Session Editor
  unfolding clear end_metadata_operation in_room emit ask_snapshot
  give_up_creation limit_message op s = ask_snapshot (
      emit (said limit_message) (
        in_room
          (λ (r : Room Editor).
            end_metadata_operation op.id (record r { tracker = clear (some op.id) r.tracker }))
          s))

  -- recoverOperationError
  pub recover_operation_error :
      String → String → Option String → Option String → Session Editor → Session Editor
  unfolding get give_up_creation reject_by_class is_creation
  recover_operation_error limit_message code id state s =
      let by_class = reject_by_class (classify code state) id s in
      elim (get id s.client.room.tracker) [
        | none ↦ by_class
        | some op ↦
            if str_eq code "room_limit_reached" && is_metadata op && is_creation op
            then give_up_creation limit_message op s
            else by_class
      ]

-- What becomes of an event.
pub data Handled : Type 0 where
  done failed : Handled

module _ {Editor Changes : Type 0} (o : Editing Editor Changes) (client_id limit_message : String)
    (ready : Bool) where
  -- `markJoined`, whose new state reaches the room.
  pub mark_joined_client : Client Editor → Client Editor
  unfolding set_connection_state
  mark_joined_client c =
      let socket = Connection.mark_joined c.socket in
      record c {
        socket = socket;
        room =
            if Connection.same_state c.socket.state socket.state
            then c.room
            else set_connection_state socket.state c.room;
      }

  pub join_client : Client Editor → Client Editor
  unfolding mark_joined_client update_queue_state schedule_flush
  join_client c =
      let r = c.room in
      let busy = is_some (get (some r.metadata_operation) r.tracker) && r.metadata_busy in
      let next = record c {
        room = record r { metadata_busy = busy; generation = r.generation + 1 };
      } in
      let replayed = replay_pending_metadata ready (r.generation + 1) (mark_joined_client next) in
      record replayed { room = schedule_flush (update_queue_state o true replayed.room) }

  -- The branch `joined`.
  pub handle_joined : Joined → Session Editor → Session Editor
  unfolding set_local_participant_authority emit join_client
  handle_joined j s =
      let seated = emit (nickname_saved j.participant.nickname) (
        set_local_participant_authority j.participant
          (record s { participants = j.participants; local_participant_id = j.participant.id })) in
      record seated {
        creator = j.creator;
        creator_preset = j.layout_preset;
        watch_only = j.watch_only;
        room_full = false;
        client = join_client seated.client;
      }

  -- The branch `changes`.
  pub handle_changes : DocumentEvent → Session Editor → Handled × Session Editor
  unfolding emit
  handle_changes event s =
      let (result, room) = apply_document_event o client_id event s.client.room in
      let next = record s { client = record s.client { room = room } } in
      elim result [
        | applied ↦ (done, next)
        | gap ↦ (done, emit snapshot_refreshed next)
        | thrown ↦ (failed, next)
      ]

  -- The branches of the tabs.
  pub handle_metadata : MetadataEvent → Session Editor → Session Editor
  unfolding emit
  handle_metadata event s =
      let (known, room) = apply_metadata_event o client_id event s.client.room in
      let next = record s { client = record s.client { room = room } } in
      if known then next else emit snapshot_refreshed next

  -- The branch `presence_left`.
  pub handle_left : String → Option Participant → Session Editor → Session Editor
  unfolding replace_participant set_local_participant_authority
  handle_left id none s = record s {
    participants =
        replace_participant id (λ (p : Participant). record p { status = connection_lost })
          s.participants;
  }
  handle_left id (some remaining) s =
      let next = record s {
        participants = replace_participant id (λ (p : Participant). remaining) s.participants;
      } in
      if str_eq remaining.id s.local_participant_id
      then set_local_participant_authority remaining next
      else next

  -- The branch `room_mode_changed`.
  pub handle_mode : Bool → List Participant → Session Editor → Session Editor
  unfolding find_participant set_local_participant_authority
  handle_mode watch_only participants s =
      let next = record s { participants = participants; watch_only = watch_only } in
      elim (find_participant s.local_participant_id participants) [
        | none ↦ next
        | some local ↦ set_local_participant_authority local next
      ]

  -- The branch `error`.
  pub handle_error : String → Option String → Option String → Session Editor → Session Editor
  unfolding in_room set_connection_state emit clear recover_operation_error
  handle_error code id state s =
      if str_eq code "room_expired" || elim state [ none ↦ false | some t ↦ str_eq t "expired" ]
      then emit (said "Live room expired") (
          in_room (λ (r : Room Editor). record (set_connection_state offline r) { tracker = [] })
            (record s { fatal = true }))
      else recover_operation_error limit_message code id state s

  -- The `switch` of handleEvent; `active` is whether the controller of the snapshots is at work.
  pub handle : Bool → Event → Session Editor → Handled × Session Editor
  unfolding handle_joined handle_changes handle_metadata handle_left handle_mode handle_error
      change_participant without_participant emit
  handle active (joined j) s = (done, handle_joined j s)
  handle active (changes op client id base revision v) s =
      handle_changes
        (record {
          operation_id = op;
          client_id = client;
          document_id = id;
          revision = revision;
          changes = v;
        })
        s
  handle active (document_created op client revision d) s = (
    done,
    handle_metadata (record { operation_id = op; revision = revision; change = created d }) s,
  )
  handle active (document_updated op client id revision name language) s = (
    done,
    handle_metadata
        (record { operation_id = op; revision = revision; change = updated id name language }) s,
  )
  handle active (document_deleted op client id revision) s = (
    done,
    handle_metadata (record { operation_id = op; revision = revision; change = deleted id }) s,
  )
  handle active (document_reordered op client revision order) s = (
    done,
    handle_metadata (record { operation_id = op; revision = revision; change = reordered order }) s,
  )
  handle active (presence_joined p) s = (done, change_participant p s)
  handle active (presence_updated p) s = (done, change_participant p s)
  handle active (participant_renamed p) s =
      let next = change_participant p s in
      (
        done,
        if str_eq p.id s.local_participant_id then emit (nickname_saved p.nickname) next else next,
      )
  handle active (presence_left id remaining) s = (done, handle_left id remaining s)
  handle active (room_mode_changed watch_only participants) s =
      (done, handle_mode watch_only participants s)
  handle active (room_layout_changed preset) s = (done, record s { creator_preset = preset })
  handle active (participant_removed id) s =
      (done, record s { participants = without_participant id s.participants })
  handle active (error code message id state) s = (done, handle_error code id state s)
  handle active (status http_resync_required) s =
      (done, if active then s else emit snapshot_refreshed s)
  handle active (status _) s = (done, s)

  -- handleEvent; `kept` is whether the controller of the snapshots keeps an event for replay.
  pub handle_event : Bool → Bool → Event → Session Editor → Handled × Session Editor
  unfolding is_authority_event event_type handle
  handle_event kept active event s =
      if is_authority_event (event_type event) && kept then (done, s) else handle active event s
