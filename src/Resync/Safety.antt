-- ===== src/Resync/Safety.antt =====
-- The controller's invariant: what it holds is what the platform keeps, within the bounds.
use xbin.Common.{
  ℕ, ◌≤◌, ◌≡◌, refl, Bool, true, false, ◌&&◌, Option, none, some, List, [], ◌∷◌, arith, length,
  is_some, Bool-cases, inl, inr, length-append,
}
use xbin.Resync.{
  Options, Request, Reconciled, reconciled, rejected, terminal, raised, Applying, applies, refuses,
  raises, Reason, reconciliation_failed, request_failed, State, Input, new, cancel_attempt,
  is_current, stop, fail, has_budget, send_request, begin_attempt, open_session, start,
  buffer_event, retry, replay, finish, settle, resolve, reject, fire_retry, fire_deadline, step,
  run, start_called, event_received, stop_called, request_resolved, request_rejected, retry_fired,
  deadline_fired, has, without,
}

abbrev pub held : Option ℕ → List ℕ
held none = []
held (some id) = id ∷ []

module _ {Snapshot Event Authority App : Type 0} (o : Options Snapshot Event Authority App) where
  -- An idle controller holds nothing. An active one has its deadline pending, and never waits for a
  -- request and a retry at once. The pending timers are those that the fields name.
  pub record IsSafe (s : State Event Authority App) : Type 0 where
    pub idle_request : s.active ≡ false → s.request_controller ≡ none
    pub idle_retry : s.active ≡ false → s.retry_timer ≡ none
    pub idle_deadline : s.active ≡ false → s.deadline_timer ≡ none
    pub idle_buffer : s.active ≡ false → s.buffer ≡ []
    pub watched : s.active ≡ true → is_some s.deadline_timer ≡ true
    pub one_wait : (is_some s.request_controller && is_some s.retry_timer) ≡ false
    pub retry_held : s.retry_pending ≡ held s.retry_timer
    pub deadline_held : s.deadline_pending ≡ held s.deadline_timer
    pub bounded : length s.buffer ≤ o.buffer_limit
    pub budgeted : s.attempt ≤ o.max_attempts

  pub stop-IsSafe : {s : State Event Authority App} → IsSafe s → IsSafe (stop s)
  unfolding stop
  stop-IsSafe h = ground arith

  pub fail-IsSafe : (r : Reason) {s : State Event Authority App} → IsSafe s → IsSafe (fail o r s)
  unfolding fail
  fail-IsSafe r h = ground arith

  pub begin_attempt-IsSafe :
      (now : ℕ) {s : State Event Authority App} → IsSafe s → IsSafe (begin_attempt o now s)
  unfolding begin_attempt has_budget send_request fail cancel_attempt
  begin_attempt-IsSafe now h = ground arith

  open_session-IsSafe :
      (now : ℕ) {s : State Event Authority App}
      → s.active ≡ false
      → IsSafe s
      → IsSafe (open_session o now s)
  unfolding open_session
  open_session-IsSafe now e h = ground arith

  pub start-IsSafe :
      (now later : ℕ) {s : State Event Authority App} → IsSafe s → IsSafe (start o now later s)
  unfolding start
  start-IsSafe now later {s} h = elim (Bool-cases s.active) [
    | inl on ↦ simp on (begin_attempt-IsSafe later h)
    | inr off ↦ simp off (begin_attempt-IsSafe later (open_session-IsSafe now off h))
  ]

  pub buffer_event-IsSafe :
      (now : ℕ) (e : Event) {s : State Event Authority App}
      → IsSafe s
      → IsSafe (buffer_event o now e s).1
  unfolding buffer_event
  buffer_event-IsSafe now e {s} h =
      ground (arith, begin_attempt-IsSafe now h, length-append s.buffer (e ∷ []))

  retry-IsSafe :
      (now : ℕ) (r : Reason) {s : State Event Authority App}
      → s.request_controller ≡ none
      → s.retry_timer ≡ none
      → IsSafe s
      → IsSafe (retry o now r s)
  unfolding retry has_budget
  retry-IsSafe now r e e' h = ground (arith, fail-IsSafe r h)

  finish-IsSafe :
      (now : ℕ) (result : Applying) (app : App) {s : State Event Authority App}
      → s.request_controller ≡ none
      → s.retry_timer ≡ none
      → IsSafe s
      → IsSafe (finish o now result (record s { buffer = []; app = app }))
  unfolding finish
  finish-IsSafe now applies app e e' h = ground arith
  finish-IsSafe now refuses app {s} e e' h =
      let h' : IsSafe (record s { buffer = []; app = app }) = ground arith in
      retry-IsSafe now reconciliation_failed e e' h'
  finish-IsSafe now raises app e e' h = ground arith

  -- The request of a current callback is the one that is out, so no retry is pending.
  answered-IsSafe :
      (r : Request Authority) (app : App) {s : State Event Authority App}
      → is_current r s ≡ true
      → IsSafe s
      → (s.retry_timer ≡ none) × IsSafe (record s { request_controller = none; app = app })
  unfolding is_current
  answered-IsSafe r app e h = (ground arith, ground arith)

  settle-IsSafe :
      (now : ℕ) (r : Reconciled) {s : State Event Authority App}
      → s.request_controller ≡ none
      → s.retry_timer ≡ none
      → IsSafe s
      → IsSafe (settle o now r s)
  unfolding settle
  settle-IsSafe now terminal e e' h = fail-IsSafe reconciliation_failed h
  settle-IsSafe now rejected e e' h = retry-IsSafe now reconciliation_failed e e' h
  settle-IsSafe now raised e e' h = h
  settle-IsSafe now reconciled {s} e e' h = finish-IsSafe now (replay o s.buffer s.app).0 _ e e' h

  resolve-IsSafe :
      (now : ℕ) (r : Request Authority) (snapshot : Snapshot) {s : State Event Authority App}
      → IsSafe s
      → IsSafe (resolve o now r snapshot s)
  unfolding resolve
  resolve-IsSafe now r snapshot {s} h = elim (Bool-cases (is_current r s)) [
    | inl e ↦
        let (result, app') = o.reconcile snapshot r.authority s.app in
        let (idle, h') = answered-IsSafe r app' e h in
        simp e (settle-IsSafe now result refl idle h')
    | inr e ↦ simp e h
  ]

  reject-IsSafe :
      (now : ℕ) (r : Request Authority) (abort : Bool) {s : State Event Authority App}
      → IsSafe s
      → IsSafe (reject o now r abort s)
  unfolding reject
  reject-IsSafe now r abort {s} h = elim (Bool-cases (is_current r s)) [
    | inl e ↦
        let (idle, h') = answered-IsSafe r s.app e h in
        simp e (ground (arith, retry-IsSafe now request_failed refl idle h'))
    | inr e ↦ simp e h
  ]

  fired-IsSafe :
      (id : ℕ) {s : State Event Authority App}
      → has id s.retry_pending ≡ true
      → IsSafe s
      → IsSafe (record s { retry_timer = none; retry_pending = without id s.retry_pending })
  fired-IsSafe id e h = ground arith

  fire_retry-IsSafe :
      (now id : ℕ) {s : State Event Authority App} → IsSafe s → IsSafe (fire_retry o now id s)
  unfolding fire_retry
  fire_retry-IsSafe now id {s} h = elim (Bool-cases (has id s.retry_pending)) [
    | inl e ↦ simp e (begin_attempt-IsSafe now (fired-IsSafe id e h))
    | inr e ↦ simp e h
  ]

  fire_deadline-IsSafe :
      (id : ℕ) {s : State Event Authority App} → IsSafe s → IsSafe (fire_deadline o id s)
  unfolding fire_deadline
  fire_deadline-IsSafe id h = ground arith

  pub step-IsSafe :
      (i : Input Snapshot Event Authority) {s : State Event Authority App}
      → IsSafe s
      → IsSafe (step o s i)
  unfolding step
  step-IsSafe (start_called now later) h = start-IsSafe now later h
  step-IsSafe (event_received now e) h = buffer_event-IsSafe now e h
  step-IsSafe stop_called h = stop-IsSafe h
  step-IsSafe (request_resolved now r snapshot) h = resolve-IsSafe now r snapshot h
  step-IsSafe (request_rejected now r abort) h = reject-IsSafe now r abort h
  step-IsSafe (retry_fired now id) h = fire_retry-IsSafe now id h
  step-IsSafe (deadline_fired id) h = fire_deadline-IsSafe id h

  pub new-IsSafe : (app : App) → IsSafe (new app)
  new-IsSafe app = ground arith

  -- From a safe state (a new controller is one), whatever happens next, in any order and with any
  -- clock, the controller is safe.
  pub run-IsSafe :
      (is : List (Input Snapshot Event Authority)) {s : State Event Authority App}
      → IsSafe s
      → IsSafe (run o s is)
  unfolding run
  run-IsSafe [] h = h
  run-IsSafe (i ∷ is) h = run-IsSafe is (step-IsSafe i h)
