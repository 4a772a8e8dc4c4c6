-- ===== src/Resync/Budget.antt =====
-- How many requests a controller makes, what it tells its owner, and how it ends.
use xbin.Common.{
  ℕ, suc, ◌+◌, ◌*◌, ◌≤◌, ◌≡◌, ◌<◌, Bool, true, false, ◌&&◌, none, some, List, [], ◌∷◌, arith,
  length, Option-cases, Bool-cases, inl, inr,
}
use xbin.Resync.{
  Options, Request, Reconciled, reconciled, rejected, terminal, raised, Applying, applies, refuses,
  raises, Reason, reconciliation_failed, request_failed, State, Input, new, cancel_attempt,
  is_current, stop, fail, has_budget, send_request, begin_attempt, open_session, start,
  buffer_event, retry, replay, finish, settle, resolve, reject, fire_retry, fire_deadline, step,
  run, start_called, event_received, stop_called, request_resolved, request_rejected, retry_fired,
  deadline_fired, has, without, Notice, started, failed,
}
use xbin.Resync.Safety.{IsSafe, step-IsSafe, new-IsSafe}

abbrev pub starts : List Notice → ℕ
starts [] = 0
starts (started ∷ ns) = suc (starts ns)
starts (_ ∷ ns) = starts ns

abbrev pub begun : List Notice → Bool
begun (started ∷ ns) = true
begun _ = false

-- Newest first: a success or a failure comes right after the start that it ends.
abbrev pub alternates : List Notice → Bool
alternates [] = true
alternates (started ∷ ns) = alternates ns
alternates (_ ∷ ns) = begun ns && alternates ns

module _ {Snapshot Event Authority App : Type 0} (o : Options Snapshot Event Authority App) where
  pub record IsCounted (s : State Event Authority App) : Type 0 where
    pub sent : length s.requests ≤ o.max_attempts * starts s.notices
    pub left :
        s.active ≡ true
        → length s.requests + o.max_attempts ≤ o.max_attempts * starts s.notices + s.attempt
    pub ordered : alternates s.notices ≡ true
    pub open_ended : s.active ≡ true → begun s.notices ≡ true

  stop-IsCounted : {s : State Event Authority App} → IsCounted s → IsCounted (stop s)
  unfolding stop
  stop-IsCounted h = ground arith

  fail-IsCounted :
      (r : Reason) {s : State Event Authority App}
      → s.active ≡ true
      → IsCounted s
      → IsCounted (fail o r s)
  unfolding fail
  fail-IsCounted r e h = ground arith

  begin_attempt-IsCounted :
      (now : ℕ) {s : State Event Authority App} → IsCounted s → IsCounted (begin_attempt o now s)
  unfolding begin_attempt has_budget send_request fail cancel_attempt
  begin_attempt-IsCounted now h = ground arith

  retry-IsCounted :
      (now : ℕ) (r : Reason) {s : State Event Authority App}
      → IsCounted s
      → IsCounted (retry o now r s)
  unfolding retry has_budget
  retry-IsCounted now r {s} h = elim (Bool-cases s.active) [
    | inl on ↦ ground (arith, fail-IsCounted r on h)
    | inr off ↦ ground arith
  ]

  open_session-IsCounted :
      (now : ℕ) {s : State Event Authority App}
      → IsSafe o s
      → s.active ≡ false
      → IsCounted s
      → IsCounted (open_session o now s)
  unfolding open_session
  open_session-IsCounted now v e h = ground arith

  start-IsCounted :
      (now later : ℕ) {s : State Event Authority App}
      → IsSafe o s
      → IsCounted s
      → IsCounted (start o now later s)
  unfolding start
  start-IsCounted now later {s} v h = elim (Bool-cases s.active) [
    | inl on ↦ simp on (begin_attempt-IsCounted later h)
    | inr off ↦ simp off (begin_attempt-IsCounted later (open_session-IsCounted now v off h))
  ]

  buffer_event-IsCounted :
      (now : ℕ) (e : Event) {s : State Event Authority App}
      → IsCounted s
      → IsCounted (buffer_event o now e s).1
  unfolding buffer_event
  buffer_event-IsCounted now e h = ground (arith, begin_attempt-IsCounted now h)

  finish-IsCounted :
      (now : ℕ) (result : Applying) {s : State Event Authority App}
      → s.active ≡ true
      → IsCounted s
      → IsCounted (finish o now result s)
  unfolding finish
  finish-IsCounted now applies on h = ground arith
  finish-IsCounted now refuses on h = retry-IsCounted now reconciliation_failed h
  finish-IsCounted now raises on h = h

  settle-IsCounted :
      (now : ℕ) (r : Reconciled) {s : State Event Authority App}
      → s.active ≡ true
      → IsCounted s
      → IsCounted (settle o now r s)
  unfolding settle
  settle-IsCounted now terminal on h = fail-IsCounted reconciliation_failed on h
  settle-IsCounted now rejected on h = retry-IsCounted now reconciliation_failed h
  settle-IsCounted now raised on h = h
  settle-IsCounted now reconciled {s} on h =
      let (result, app') = replay o s.buffer s.app in
      let h' : IsCounted (record s { buffer = []; app = app' }) = ground arith in
      finish-IsCounted now result on h'

  resolve-IsCounted :
      (now : ℕ) (r : Request Authority) (snapshot : Snapshot) {s : State Event Authority App}
      → IsCounted s
      → IsCounted (resolve o now r snapshot s)
  unfolding resolve
  resolve-IsCounted now r snapshot {s} h = elim (Bool-cases (is_current r s)) [
    | inl e ↦
        let (result, app') = o.reconcile snapshot r.authority s.app in
        let on : s.active ≡ true = unfold is_current in ground arith in
        let h' : IsCounted (record s { request_controller = none; app = app' }) = ground arith in
        simp e (settle-IsCounted now result on h')
    | inr e ↦ simp e h
  ]

  reject-IsCounted :
      (now : ℕ) (r : Request Authority) (abort : Bool) {s : State Event Authority App}
      → IsCounted s
      → IsCounted (reject o now r abort s)
  unfolding reject
  reject-IsCounted now r abort {s} h =
      let h' : IsCounted (record s { request_controller = none }) = ground arith in
      ground (arith, retry-IsCounted now request_failed h')

  fire_retry-IsCounted :
      (now id : ℕ) {s : State Event Authority App} → IsCounted s → IsCounted (fire_retry o now id s)
  unfolding fire_retry
  fire_retry-IsCounted now id {s} h =
      let h' : IsCounted
          (record s { retry_timer = none; retry_pending = without id s.retry_pending }) =
        ground arith in
      ground (arith, begin_attempt-IsCounted now h')

  fire_deadline-IsCounted :
      (id : ℕ) {s : State Event Authority App} → IsCounted s → IsCounted (fire_deadline o id s)
  unfolding fire_deadline
  fire_deadline-IsCounted id h = ground arith

  step-IsCounted :
      (i : Input Snapshot Event Authority) {s : State Event Authority App}
      → IsSafe o s
      → IsCounted s
      → IsCounted (step o s i)
  unfolding step
  step-IsCounted (start_called now later) v h = start-IsCounted now later v h
  step-IsCounted (event_received now e) v h = buffer_event-IsCounted now e h
  step-IsCounted stop_called v h = stop-IsCounted h
  step-IsCounted (request_resolved now r snapshot) v h = resolve-IsCounted now r snapshot h
  step-IsCounted (request_rejected now r abort) v h = reject-IsCounted now r abort h
  step-IsCounted (retry_fired now id) v h = fire_retry-IsCounted now id h
  step-IsCounted (deadline_fired id) v h = fire_deadline-IsCounted id h

  run-IsCounted :
      (is : List (Input Snapshot Event Authority)) {s : State Event Authority App}
      → IsSafe o s
      → IsCounted s
      → IsCounted (run o s is)
  unfolding run
  run-IsCounted [] v h = h
  run-IsCounted (i ∷ is) v h = run-IsCounted is (step-IsSafe o i v) (step-IsCounted i v h)

  new-IsCounted : (app : App) → IsCounted (new app)
  new-IsCounted app = ground arith

  -- Whatever happens to a new controller, it makes at most `maxAttempts` requests for each session
  -- that it starts, and the owner hears of at most one end for each start, after that start.
  pub requests_bounded :
      (app : App) (is : List (Input Snapshot Event Authority))
      → (length (run o (new app) is).requests
          ≤ o.max_attempts * starts (run o (new app) is).notices)
        × (alternates (run o (new app) is).notices ≡ true)
  requests_bounded app is =
      let h = run-IsCounted is (new-IsSafe o app) (new-IsCounted app) in (h.sent, h.ordered)

  -- A new controller that is started is active, if it may try at all.
  pub step-new_active :
      (app : App) (now : ℕ)
      → 0 < o.max_attempts
      → (step o (new app) (start_called now now)).active ≡ true
  unfolding step start open_session begin_attempt cancel_attempt has_budget send_request
  step-new_active app now h = ground arith

  -- What a deadline that fires does to the owner.
  pub fire_deadline-app :
      (id : ℕ) (s : State Event Authority App)
      → s.active ≡ true
      → has id s.deadline_pending ≡ true
      → (fire_deadline o id s).app ≡ o.on_failed request_failed s.app
  unfolding fire_deadline
  fire_deadline-app id s on pending = ground arith

  -- A safe controller that is active has a deadline pending, and when the deadline fires the
  -- controller becomes idle and reports a failed request.
  pub deadline_ends :
      (s : State Event Authority App)
      → IsSafe o s
      → s.active ≡ true
      → (id : ℕ) × (s.deadline_timer ≡ some id)
        × ((fire_deadline o id s).active ≡ false)
        × ((fire_deadline o id s).notices ≡ failed request_failed ∷ s.notices)
        × ((fire_deadline o id s).retry_pending ≡ [])
        × ((fire_deadline o id s).deadline_pending ≡ [])
  unfolding fire_deadline
  deadline_ends s v on = elim (Option-cases s.deadline_timer) [
    | inl e ↦ absurd (ground arith)
    | inr (id, e) ↦ (id, e, ground arith, ground arith, ground arith, ground arith)
  ]
