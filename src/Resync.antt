-- ===== src/Resync.antt =====
-- web/src/live-resync.ts: the controller that fetches an HTTP snapshot of a live room, with retries
-- under a budget, and replays the wire events that arrive while a request is out.
--
-- The state is the controller's fields, and beside them what the platform keeps: the timers that are
-- pending, the abort signals that have fired, the requests and notices so far (newest first), and the
-- state `App` that the callbacks of the room read and write. The callbacks are parameters.
pub mod Safety
pub mod Budget
pub mod Replay
pub mod Owner
mod Tests
use xbin.Common.{
  ℕ, zero, suc, ◌+◌, ◌-◌, ◌*◌, ◌^◌, min, Bool, true, false, not, ◌&&◌, Option, none, some, List, [],
  ◌∷◌, ◌++◌, ltb, leb, ◌==◌, if◌then◌else◌, length,
}

-- LiveResyncReconcileResult: `true`, `false` or "terminal"; or an exception
pub data Reconciled : Type 0 where
  reconciled rejected terminal raised : Reconciled

-- What applyBuffered comes to: `true`, `false`, or an exception.
pub data Applying : Type 0 where
  applies refuses raises : Applying

pub data Reason : Type 0 where
  reconciliation_failed request_failed : Reason

-- LiveResyncOptions
pub record Options (Snapshot Event Authority App : Type 0) : Type 0 where
  pub capture_authority : App → Authority
  pub reconcile : Snapshot → Authority → App → Reconciled × App
  pub apply_buffered : Event → App → Applying × App
  pub on_started : App → App
  pub on_succeeded : App → App
  pub on_failed : Reason → App → App
  pub buffer_limit : ℕ
  pub max_attempts : ℕ
  pub max_elapsed_ms : ℕ
  pub retry_base_ms : ℕ
  pub retry_max_ms : ℕ

-- What the callbacks of one request remember: its generation, its number, its abort controller (named
-- by the generation that made it) and the authority that was captured.
pub record Request (Authority : Type 0) : Type 0 where
  pub generation : ℕ
  pub attempt : ℕ
  pub controller : ℕ
  pub authority : Authority

pub data Notice : Type 0 where
  started succeeded : Notice
  failed : Reason → Notice

pub record State (Event Authority App : Type 0) : Type 0 where
  pub active : Bool
  pub attempt : ℕ
  pub started_at : ℕ
  pub generation : ℕ
  pub buffer : List Event
  pub request_controller : Option ℕ
  pub retry_timer : Option ℕ
  pub deadline_timer : Option ℕ
  pub retry_pending : List ℕ
  pub deadline_pending : List ℕ
  pub next_timer : ℕ
  pub aborted : List ℕ
  pub requests : List (Request Authority)
  pub notices : List Notice
  pub app : App

abbrev pub has : ℕ → List ℕ → Bool
has n [] = false
has n (x ∷ xs) = if x == n then true else has n xs

-- `clearTimeout`
abbrev pub without : ℕ → List ℕ → List ℕ
without n [] = []
without n (x ∷ xs) = let rest = without n xs in if x == n then rest else x ∷ rest

module _ {Event Authority App : Type 0} where
  -- A controller as the constructor leaves it.
  abbrev pub new : App → State Event Authority App
  new app = record {
    active = false;
    attempt = 0;
    started_at = 0;
    generation = 0;
    buffer = [];
    request_controller = none;
    retry_timer = none;
    deadline_timer = none;
    retry_pending = [];
    deadline_pending = [];
    next_timer = 1;
    aborted = [];
    requests = [];
    notices = [];
    app = app;
  }

  abort_request : State Event Authority App → State Event Authority App
  abort_request s = elim s.request_controller [
    | none ↦ s
    | some c ↦ record s { request_controller = none; aborted = c ∷ s.aborted }
  ]

  clear_retry : State Event Authority App → State Event Authority App
  clear_retry s = elim s.retry_timer [
    | none ↦ s
    | some id ↦ record s { retry_timer = none; retry_pending = without id s.retry_pending }
  ]

  pub cancel_attempt : State Event Authority App → State Event Authority App
  unfolding abort_request clear_retry
  cancel_attempt s = clear_retry (abort_request s)

  pub clear_deadline : State Event Authority App → State Event Authority App
  clear_deadline s = elim s.deadline_timer [
    | none ↦ s
    | some id ↦ record s { deadline_timer = none; deadline_pending = without id s.deadline_pending }
  ]

  pub is_current : Request Authority → State Event Authority App → Bool
  is_current r s =
      s.active
      && s.generation == r.generation
      && elim s.request_controller [ none ↦ false | some c ↦ c == r.controller ]
      && not (has r.controller s.aborted)

  pub stop : State Event Authority App → State Event Authority App
  unfolding cancel_attempt clear_deadline
  stop s =
      let s = clear_deadline (cancel_attempt (record s { generation = s.generation + 1 })) in
      record s { active = false; buffer = [] }

module _ {Snapshot Event Authority App : Type 0} (o : Options Snapshot Event Authority App) where
  pub fail : Reason → State Event Authority App → State Event Authority App
  unfolding cancel_attempt clear_deadline
  fail reason s =
      let s = clear_deadline (cancel_attempt s) in
      record s {
        active = false;
        buffer = [];
        notices = failed reason ∷ s.notices;
        app = o.on_failed reason s.app;
      }

  -- `now - startedAt + nextDelay <= maxElapsedMs`, with the subtraction moved to the other side: a
  -- clock that was set back gives a negative difference there.
  pub has_budget : ℕ → ℕ → State Event Authority App → Bool
  has_budget now next_delay s =
      ltb s.attempt o.max_attempts && leb (now + next_delay) (o.max_elapsed_ms + s.started_at)

  pub send_request : State Event Authority App → State Event Authority App
  send_request s =
      let generation = s.generation + 1 in
      record s {
        attempt = s.attempt + 1;
        generation = generation;
        request_controller = some generation;
        buffer = [];
        requests =
            record {
              generation = generation;
              attempt = s.attempt + 1;
              controller = generation;
              authority = o.capture_authority s.app;
            }
            ∷ s.requests;
      }

  pub begin_attempt : ℕ → State Event Authority App → State Event Authority App
  begin_attempt now s =
      if s.active
      then (let s = cancel_attempt s in
          if has_budget now 0 s then send_request s else fail request_failed s)
      else s

  pub open_session : ℕ → State Event Authority App → State Event Authority App
  open_session now s = record s {
    active = true;
    attempt = 0;
    started_at = now;
    deadline_timer = some s.next_timer;
    deadline_pending = s.next_timer ∷ s.deadline_pending;
    next_timer = s.next_timer + 1;
    notices = started ∷ s.notices;
    app = o.on_started s.app;
  }

  -- The clock is read for `startedAt` and once more for the budget.
  pub start : ℕ → ℕ → State Event Authority App → State Event Authority App
  start now later s = begin_attempt later (if s.active then s else open_session now s)

  -- The event is kept for replay, or makes a new request that covers it; `false` hands it back.
  pub buffer_event : ℕ → Event → State Event Authority App → Bool × State Event Authority App
  buffer_event now event s =
      if s.active
      then (if ltb (length s.buffer) o.buffer_limit
          then (true, record s { buffer = s.buffer ++ event ∷ [] })
          else (true, begin_attempt now s))
      else (false, s)

  pub retry_delay : ℕ → ℕ
  retry_delay attempt = min o.retry_max_ms (o.retry_base_ms * 2 ^ (attempt - 1))

  pub schedule_retry : State Event Authority App → State Event Authority App
  schedule_retry s = record s {
    retry_timer = some s.next_timer;
    retry_pending = s.next_timer ∷ s.retry_pending;
    next_timer = s.next_timer + 1;
  }

  pub retry : ℕ → Reason → State Event Authority App → State Event Authority App
  unfolding schedule_retry
  retry now reason s =
      if s.active
      then (if has_budget now (retry_delay s.attempt) s then schedule_retry s else fail reason s)
      else s

  -- The loop over the buffered events stops at the first that does not apply.
  pub replay : List Event → App → Applying × App
  replay [] app = (applies, app)
  replay (event ∷ events) app =
      let (result, app') = o.apply_buffered event app in
      elim result [
        | applies ↦ replay events app'
        | refuses ↦ (refuses, app')
        | raises ↦ (raises, app')
      ]

  -- After an exception the controller stays active, with no request, until its deadline.
  finish : ℕ → Applying → State Event Authority App → State Event Authority App
  unfolding clear_deadline retry
  finish now applies s =
      let s = clear_deadline (record s { active = false }) in
      record s { notices = succeeded ∷ s.notices; app = o.on_succeeded s.app }
  finish now refuses s = retry now reconciliation_failed s
  finish now raises s = s

  settle : ℕ → Reconciled → State Event Authority App → State Event Authority App
  unfolding finish retry fail replay
  settle now terminal s = fail reconciliation_failed s
  settle now rejected s = retry now reconciliation_failed s
  settle now raised s = s
  settle now reconciled s =
      let (result, app') = replay s.buffer s.app in
      finish now result (record s { buffer = []; app = app' })

  -- The snapshot of request `r` arrives.
  pub resolve :
      ℕ → Request Authority → Snapshot → State Event Authority App → State Event Authority App
  unfolding is_current settle
  resolve now r snapshot s =
      if is_current r s
      then (let (result, app') = o.reconcile snapshot r.authority s.app in
          settle now result (record s { request_controller = none; app = app' }))
      else s

  -- Request `r` fails; `abort` tells an `AbortError` from the other errors.
  pub reject : ℕ → Request Authority → Bool → State Event Authority App → State Event Authority App
  unfolding is_current retry
  reject now r abort s =
      if is_current r s
      then (let s = record s { request_controller = none } in
          if abort then s else retry now request_failed s)
      else s

  -- The platform runs the callback of a timer that is pending.
  pub fire_retry : ℕ → ℕ → State Event Authority App → State Event Authority App
  unfolding begin_attempt
  fire_retry now id s =
      if has id s.retry_pending
      then begin_attempt now
          (record s { retry_timer = none; retry_pending = without id s.retry_pending })
      else s

  pub fire_deadline : ℕ → State Event Authority App → State Event Authority App
  unfolding fail
  fire_deadline id s =
      if has id s.deadline_pending
      then (let s = record s {
        deadline_timer = none;
        deadline_pending = without id s.deadline_pending;
      } in
          if s.active then fail request_failed s else s)
      else s

-- What may happen to a controller, in any order. The clock readings come with the event.
pub data Input (Snapshot Event Authority : Type 0) : Type 0 where
  start_called : ℕ → ℕ → Input Snapshot Event Authority
  event_received : ℕ → Event → Input Snapshot Event Authority
  stop_called : Input Snapshot Event Authority
  request_resolved : ℕ → Request Authority → Snapshot → Input Snapshot Event Authority
  request_rejected : ℕ → Request Authority → Bool → Input Snapshot Event Authority
  retry_fired : ℕ → ℕ → Input Snapshot Event Authority
  deadline_fired : ℕ → Input Snapshot Event Authority

module _ {Snapshot Event Authority App : Type 0} (o : Options Snapshot Event Authority App) where
  pub step : State Event Authority App → Input Snapshot Event Authority → State Event Authority App
  step s (start_called now later) = start o now later s
  step s (event_received now event) = (buffer_event o now event s).1
  step s stop_called = stop s
  step s (request_resolved now r snapshot) = resolve o now r snapshot s
  step s (request_rejected now r abort) = reject o now r abort s
  step s (retry_fired now id) = fire_retry o now id s
  step s (deadline_fired id) = fire_deadline o id s

  pub run :
      State Event Authority App → List (Input Snapshot Event Authority) → State Event Authority App
  run s [] = s
  run s (i ∷ is) = run (step s i) is
