-- ===== src/LiveRoom/Events/Recovering.antt =====
-- handleEvent of web/src/live-room.tsx: no event starts or ends a resynchronization, and a room in recovery is not
-- taken for connected.
use xbin.Common.{
  ℕ, ◌+◌, ◌≡◌, refl, is_some, ◌∙◌, String, Bool, true, ◌&&◌, Option, some, if◌then◌else◌, if-both,
  Option-split, str_eq, arith,
}
use xbin.Wire.Types.{
  rate_limited, synchronized, expired, Event, Joined, joined, changes, document_created,
  document_updated, document_deleted, document_reordered, presence_joined, presence_updated,
  participant_renamed, presence_left, room_mode_changed, room_layout_changed, participant_removed,
  status, error, http_resync_required,
}
use xbin.Operations.{
  Operation, ErrorClass, retryable, resync, auth, overload, validation, terminal_error, classify,
  get,
}
use xbin.Reconciliation.{is_authority_event}
use xbin.LiveRoom.{Editing, Room, set_connection_state, update_queue_state}
use xbin.LiveRoom.Modes.{
  is_held, mode, IsQuiet, IsQuiet-by_mode, IsQuiet-twice, set_connection_state-IsQuiet,
  schedule_flush-mode, update_queue_state-mode,
}
use xbin.LiveRoom.Outbound.{Client, is_metadata, replay_pending_metadata}
use xbin.LiveRoom.Outbound.Modes.{replay_pending_metadata-mode}
use xbin.LiveRoom.Events.{
  event_type, Session, Handled, done, in_room, emit, set_local_participant_authority,
  change_participant, enter_recovery, reject_operation, reject_by_class, give_up_creation,
  is_creation, recover_operation_error, mark_joined_client, join_client, handle_joined,
  handle_error, handle, handle_event,
}
use xbin.LiveRoom.Events.Modes.{
  room, authority-mode, ask_snapshot-mode, give_up_creation-mode, handle_left-mode,
  handle_mode-mode, handle_changes-mode, handle_metadata-mode,
}

module _ {Editor : Type 0} where
  reject_operation-IsQuiet :
      (id : Option String) (category : ErrorClass) (s : Session Editor)
      → IsQuiet (room s) (room (reject_operation id category s))
  unfolding reject_operation in_room emit is_held enter_recovery set_connection_state
  reject_operation-IsQuiet id category s = (ground arith, λ h. ground arith)

  reject_by_class-IsQuiet :
      (category : ErrorClass) (id : Option String) (s : Session Editor)
      → IsQuiet (room s) (room (reject_by_class category id s))
  unfolding reject_by_class
  reject_by_class-IsQuiet retryable id s = IsQuiet-by_mode (room s) _ (ask_snapshot-mode s)
  reject_by_class-IsQuiet resync id s = IsQuiet-by_mode (room s) _ (ask_snapshot-mode s)
  reject_by_class-IsQuiet auth id s = reject_operation-IsQuiet id auth s
  reject_by_class-IsQuiet overload id s = reject_operation-IsQuiet id overload s
  reject_by_class-IsQuiet validation id s = reject_operation-IsQuiet id validation s
  reject_by_class-IsQuiet terminal_error id s = reject_operation-IsQuiet id terminal_error s

  recover_operation_error-IsQuiet :
      (limit_message code : String) (id state : Option String) (s : Session Editor)
      → IsQuiet (room s) (room (recover_operation_error limit_message code id state s))
  unfolding recover_operation_error
  recover_operation_error-IsQuiet limit_message code id state s =
      let P = λ (t : Session Editor). IsQuiet (room s) (room t) in
      let by_class = reject_by_class (classify code state) id s in
      let kept = reject_by_class-IsQuiet (classify code state) id s in
      let given_up = λ (op : Operation). give_up_creation limit_message op s in
      let is_limit =
        λ (op : Operation). str_eq code "room_limit_reached" && is_metadata op && is_creation op in
      Option-split P {n = by_class}
        {f = λ (op : Operation). if is_limit op then given_up op else by_class}
        (get id (room s).tracker) (λ e. kept)
        (λ op e.
          if-both P {x = given_up op} {y = by_class}
            (IsQuiet-by_mode (room s) _ (give_up_creation-mode limit_message op s)) kept
            (is_limit op))

module _ {Editor Changes : Type 0} (o : Editing Editor Changes) (client_id limit_message : String)
    (ready : Bool) where
  ready_room-mode :
      (b : Bool) (n : ℕ) (r : Room Editor)
      → mode (record r { metadata_busy = b; generation = n }) ≡ mode r
  unfolding mode
  ready_room-mode b n r = refl

  mark_joined_client-IsQuiet :
      (c : Client Editor)
      → IsQuiet c.room (mark_joined_client o client_id limit_message ready c).room
  unfolding mark_joined_client
  mark_joined_client-IsQuiet c =
      if-both (λ (r : Room Editor). IsQuiet c.room r) {x = c.room}
        {y = set_connection_state _ c.room} (refl, λ h. h) (set_connection_state-IsQuiet _ c.room) _

  join_client-IsQuiet :
      (c : Client Editor) → IsQuiet c.room (join_client o client_id limit_message ready c).room
  unfolding join_client
  join_client-IsQuiet c =
      let ready_room : Client Editor = record c {
        room = record c.room {
          metadata_busy =
              is_some (get (some c.room.metadata_operation) c.room.tracker) && c.room.metadata_busy;
          generation = c.room.generation + 1;
        };
      } in
      let marked = mark_joined_client o client_id limit_message ready ready_room in
      let replayed = replay_pending_metadata ready (c.room.generation + 1) marked in
      IsQuiet-twice c.room marked.room _
        (IsQuiet-twice c.room ready_room.room marked.room
          (IsQuiet-by_mode c.room ready_room.room (ready_room-mode _ _ c.room))
          (mark_joined_client-IsQuiet ready_room))
        (IsQuiet-by_mode marked.room _ (
          schedule_flush-mode (update_queue_state o true replayed.room)
          ∙ update_queue_state-mode o true replayed.room
          ∙ replay_pending_metadata-mode ready (c.room.generation + 1) marked))

  handle_joined-IsQuiet :
      (j : Joined) (s : Session Editor)
      → IsQuiet (room s) (room (handle_joined o client_id limit_message ready j s))
  unfolding handle_joined set_local_participant_authority in_room emit
  handle_joined-IsQuiet j s =
      let placed = set_local_participant_authority j.participant s in
      IsQuiet-twice (room s) (room placed) _
        (IsQuiet-by_mode (room s) (room placed) (authority-mode j.participant s))
        (join_client-IsQuiet _)

  handle_error-IsQuiet :
      (code : String) (id state : Option String) (s : Session Editor)
      → IsQuiet (room s) (room (handle_error o client_id limit_message ready code id state s))
  unfolding handle_error in_room emit set_connection_state is_held
  handle_error-IsQuiet code id state s =
      let (same, held) = recover_operation_error-IsQuiet limit_message code id state s in
      (ground arith, λ h. let kept = held h in ground arith)

  pub handle-IsQuiet :
      (active : Bool) (event : Event) (s : Session Editor)
      → IsQuiet (room s) (room (handle o client_id limit_message ready active event s).1)
  unfolding handle change_participant emit is_held
  handle-IsQuiet active (joined j) s = handle_joined-IsQuiet j s
  handle-IsQuiet active (changes op client id base revision v) s =
      IsQuiet-by_mode (room s) _ (handle_changes-mode o client_id limit_message ready _ s)
  handle-IsQuiet active (document_created op client revision d) s =
      IsQuiet-by_mode (room s) _ (handle_metadata-mode o client_id limit_message ready _ s)
  handle-IsQuiet active (document_updated op client id revision name language) s =
      IsQuiet-by_mode (room s) _ (handle_metadata-mode o client_id limit_message ready _ s)
  handle-IsQuiet active (document_deleted op client id revision) s =
      IsQuiet-by_mode (room s) _ (handle_metadata-mode o client_id limit_message ready _ s)
  handle-IsQuiet active (document_reordered op client revision order) s =
      IsQuiet-by_mode (room s) _ (handle_metadata-mode o client_id limit_message ready _ s)
  handle-IsQuiet active (presence_joined p) s = (refl, λ h. h)
  handle-IsQuiet active (presence_updated p) s = (refl, λ h. h)
  handle-IsQuiet active (participant_renamed p) s = (ground arith, λ h. ground arith)
  handle-IsQuiet active (presence_left id remaining) s =
      IsQuiet-by_mode (room s) _ (handle_left-mode o client_id limit_message ready id remaining s)
  handle-IsQuiet active (room_mode_changed watch_only ps) s =
      IsQuiet-by_mode (room s) _ (handle_mode-mode o client_id limit_message ready watch_only ps s)
  handle-IsQuiet active (room_layout_changed preset) s = (refl, λ h. h)
  handle-IsQuiet active (participant_removed id) s = (refl, λ h. h)
  handle-IsQuiet active (error code message id state) s = handle_error-IsQuiet code id state s
  handle-IsQuiet active (status http_resync_required) s = (ground arith, λ h. ground arith)
  handle-IsQuiet active (status rate_limited) s = (refl, λ h. h)
  handle-IsQuiet active (status synchronized) s = (refl, λ h. h)
  handle-IsQuiet active (status expired) s = (refl, λ h. h)

  -- handleEvent never lets a room in recovery pass for a connected one: whatever the event is, whether or not
  -- the controller of the snapshots keeps it or is at work, if the room is not both in recovery and connected
  -- before the event, it is not afterwards.
  pub handle_event-held :
      (kept active : Bool) (event : Event) (s : Session Editor)
      → is_held s.client.room ≡ true
      → is_held (handle_event o client_id limit_message ready kept active event s).1.client.room
        ≡ true
  unfolding handle_event
  handle_event-held kept active event s h =
      if-both (λ (p : Handled × Session Editor). is_held p.1.client.room ≡ true) {x = (done, s)}
        {y = handle o client_id limit_message ready active event s} h
        ((handle-IsQuiet active event s).1 h) (is_authority_event (event_type event) && kept)
