-- ===== src/Resync/Owner.antt =====
-- What a room whose state the controller changes may rely on, whatever the sequence of calls, answers and
-- timers: a property while a session is active, and one while none is.
use xbin.Common.{
  ℕ, ◌+◌, ◌≡◌, sym, ◌∙◌, subst, Bool, true, false, none, List, [], ◌∷◌, ◌++◌, Bool-cases, inl, inr,
  if-split, if◌then◌else◌, length, ltb, arith,
}
use xbin.Resync.{
  Options, Request, Reconciled, reconciled, rejected, terminal, raised, Applying, applies, refuses,
  raises, Reason, reconciliation_failed, request_failed, State, Input, cancel_attempt,
  clear_deadline, is_current, stop, fail, has_budget, send_request, begin_attempt, open_session,
  start, buffer_event, retry_delay, schedule_retry, retry, replay, finish, settle, resolve, reject,
  fire_retry, fire_deadline, step, run, start_called, event_received, stop_called, request_resolved,
  request_rejected, retry_fired, deadline_fired, has, without,
}

-- The property of the owner's state, by whether a session is active.
abbrev pub Phase : {App : Type 0} → (App → Type 0) → (App → Type 0) → Bool → App → Type 0
Phase Busy Idle true a = Busy a
Phase Busy Idle false a = Idle a

module _ {Snapshot Event Authority App : Type 0} (o : Options Snapshot Event Authority App)
    (Busy Idle : App → Type 0) where
  -- What the owner's callbacks do with the properties.
  pub record IsOwner : Type 0 where
    pub started : (a : App) → Idle a → Busy (o.on_started a)
    pub reconciling :
        (d : Snapshot) (authority : Authority) (a : App)
        → Busy a
        → Busy (o.reconcile d authority a).1
    pub applying : (e : Event) (a : App) → Busy a → Busy (o.apply_buffered e a).1
    pub succeeding : (a : App) → Busy a → Idle (o.on_succeeded a)
    pub failing : (r : Reason) (a : App) → Busy a → Idle (o.on_failed r a)
    pub stopping : (a : App) → Busy a → Idle a

  abbrev pub Owned : State Event Authority App → Type 0
  Owned s = Phase Busy Idle s.active s.app

-- The case distinction of the loop over the buffer.
abbrev after_event : {App : Type 0} → Applying → App → Applying × App → Applying × App
after_event r a later = elim r [ applies ↦ later | refuses ↦ (refuses, a) | raises ↦ (raises, a) ]

module _ {Snapshot Event Authority App : Type 0} (o : Options Snapshot Event Authority App)
    (Busy Idle : App → Type 0) (c : IsOwner o Busy Idle) where
  -- A state with the same session and the same owner.
  same-Owned :
      (s t : State Event Authority App)
      → t.active ≡ s.active
      → t.app ≡ s.app
      → Owned o Busy Idle s
      → Owned o Busy Idle t
  same-Owned s t e f h =
      subst (λ (a : App). Phase Busy Idle t.active a) (sym f)
        (subst (λ (b : Bool). Phase Busy Idle b s.app) (sym e) h)

  busy : (s : State Event Authority App) → s.active ≡ true → Owned o Busy Idle s → Busy s.app
  busy s on h = subst (λ (b : Bool). Phase Busy Idle b s.app) on h

  idle : (s : State Event Authority App) → Owned o Busy Idle s → Idle s.app
  idle s h = elim (Bool-cases s.active) [
    | inl on ↦ c.stopping s.app (busy s on h)
    | inr off ↦ subst (λ (b : Bool). Phase Busy Idle b s.app) off h
  ]

  at_work : (s : State Event Authority App) → s.active ≡ true → Busy s.app → Owned o Busy Idle s
  at_work s on h = subst (λ (b : Bool). Phase Busy Idle b s.app) (sym on) h

  at_rest : (s : State Event Authority App) → s.active ≡ false → Idle s.app → Owned o Busy Idle s
  at_rest s off h = subst (λ (b : Bool). Phase Busy Idle b s.app) (sym off) h

  deadline-active : (s : State Event Authority App) → (clear_deadline s).active ≡ s.active
  unfolding clear_deadline
  deadline-active s = ground arith

  cancelled-active : (s : State Event Authority App) → (cancel_attempt s).active ≡ s.active
  unfolding cancel_attempt
  cancelled-active s = ground arith

  cleared-app : (s : State Event Authority App) → (clear_deadline (cancel_attempt s)).app ≡ s.app
  unfolding clear_deadline cancel_attempt
  cleared-app s = ground arith

  deadline-app : (s : State Event Authority App) → (clear_deadline s).app ≡ s.app
  unfolding clear_deadline
  deadline-app s = ground arith

  cancelled-app : (s : State Event Authority App) → (cancel_attempt s).app ≡ s.app
  unfolding cancel_attempt
  cancelled-app s = ground arith

  fail-Owned :
      (r : Reason) (s : State Event Authority App) → Busy s.app → Owned o Busy Idle (fail o r s)
  unfolding fail
  fail-Owned r s h =
      c.failing r (clear_deadline (cancel_attempt s)).app (subst Busy (sym (cleared-app s)) h)

  begin_attempt-Owned :
      (now : ℕ) (s : State Event Authority App)
      → Owned o Busy Idle s
      → Owned o Busy Idle (begin_attempt o now s)
  unfolding begin_attempt send_request
  begin_attempt-Owned now s h =
      let t = cancel_attempt s in
      if-split (Owned o Busy Idle)
        {x = if has_budget o now 0 t then send_request o t else fail o request_failed t} {y = s}
        s.active
        (λ on.
          let b : Busy t.app = subst Busy (sym (cancelled-app s)) (busy s on h) in
          if-split (Owned o Busy Idle) {x = send_request o t} {y = fail o request_failed t}
            (has_budget o now 0 t) (λ e. at_work (send_request o t) (cancelled-active s ∙ on) b)
            (λ e. fail-Owned request_failed t b))
        (λ off. h)

  retry-Owned :
      (now : ℕ) (r : Reason) (s : State Event Authority App)
      → s.active ≡ true
      → Busy s.app
      → Owned o Busy Idle (retry o now r s)
  unfolding retry
  retry-Owned now r s on h =
      if-split (Owned o Busy Idle) s.active
        (λ e.
          if-split (Owned o Busy Idle) (has_budget o now (retry_delay o s.attempt) s)
            (λ e. at_work (schedule_retry o s) on h) (λ e. fail-Owned r s h))
        (λ e. at_work s on h)

  event-Busy :
      (r : Applying) (a : App) (later : Applying × App)
      → Busy a
      → Busy later.1
      → Busy (after_event r a later).1
  event-Busy applies a later h k = k
  event-Busy refuses a later h k = h
  event-Busy raises a later h k = h

  replay-Busy : (es : List Event) (a : App) → Busy a → Busy (replay o es a).1
  unfolding replay
  replay-Busy [] a h = h
  replay-Busy (e ∷ es) a h =
      let next = (o.apply_buffered e a).1 in
      let h' = c.applying e a h in
      event-Busy (o.apply_buffered e a).0 next (replay o es next) h' (replay-Busy es next h')

  finish-Owned :
      (now : ℕ) (r : Applying) (s : State Event Authority App)
      → s.active ≡ true
      → Busy s.app
      → Owned o Busy Idle (finish o now r s)
  unfolding finish
  finish-Owned now applies s on h =
      let t = clear_deadline (record s { active = false }) in
      at_rest (finish o now applies s) (deadline-active (record s { active = false }))
        (c.succeeding t.app (subst Busy (sym (deadline-app (record s { active = false }))) h))
  finish-Owned now refuses s on h = retry-Owned now reconciliation_failed s on h
  finish-Owned now raises s on h = at_work s on h

  settle-Owned :
      (now : ℕ) (r : Reconciled) (s : State Event Authority App)
      → s.active ≡ true
      → Busy s.app
      → Owned o Busy Idle (settle o now r s)
  unfolding settle
  settle-Owned now terminal s on h = fail-Owned reconciliation_failed s h
  settle-Owned now rejected s on h = retry-Owned now reconciliation_failed s on h
  settle-Owned now raised s on h = at_work s on h
  settle-Owned now reconciled s on h =
      finish-Owned now (replay o s.buffer s.app).0
        (record s { buffer = []; app = (replay o s.buffer s.app).1 }) on
        (replay-Busy s.buffer s.app h)

  current-active :
      (r : Request Authority) (s : State Event Authority App)
      → is_current r s ≡ true
      → s.active ≡ true
  unfolding is_current
  current-active r s e = ground arith

  resolve-Owned :
      (now : ℕ) (r : Request Authority) (d : Snapshot) (s : State Event Authority App)
      → Owned o Busy Idle s
      → Owned o Busy Idle (resolve o now r d s)
  unfolding resolve
  resolve-Owned now r d s h =
      let answer = o.reconcile d r.authority s.app in
      if-split (Owned o Busy Idle) (is_current r s)
        (λ e.
          settle-Owned now answer.0 (record s { request_controller = none; app = answer.1 })
            (current-active r s e)
            (c.reconciling d r.authority s.app (busy s (current-active r s e) h)))
        (λ e. h)

  reject-Owned :
      (now : ℕ) (r : Request Authority) (abort : Bool) (s : State Event Authority App)
      → Owned o Busy Idle s
      → Owned o Busy Idle (reject o now r abort s)
  unfolding reject
  reject-Owned now r abort s h =
      let t : State Event Authority App = record s { request_controller = none } in
      if-split (Owned o Busy Idle) {x = if abort then t else retry o now request_failed t} {y = s}
        (is_current r s)
        (λ e.
          if-split (Owned o Busy Idle) {x = t} {y = retry o now request_failed t} abort (λ a. h)
            (λ a.
              retry-Owned now request_failed t (current-active r s e)
                (busy s (current-active r s e) h)))
        (λ e. h)

  pub start-Owned :
      (now later : ℕ) (s : State Event Authority App)
      → Owned o Busy Idle s
      → Owned o Busy Idle (start o now later s)
  unfolding start open_session
  start-Owned now later s h =
      begin_attempt-Owned later (if s.active then s else open_session o now s) (
        if-split (Owned o Busy Idle) {x = s} {y = open_session o now s} s.active (λ e. h)
          (λ e. c.started s.app (subst (λ (b : Bool). Phase Busy Idle b s.app) e h)))

  pub buffer_event-Owned :
      (now : ℕ) (event : Event) (s : State Event Authority App)
      → Owned o Busy Idle s
      → Owned o Busy Idle (buffer_event o now event s).1
  unfolding buffer_event
  buffer_event-Owned now event s h =
      let P = λ (p : Bool × State Event Authority App). Owned o Busy Idle p.1 in
      let kept : State Event Authority App = record s { buffer = s.buffer ++ event ∷ [] } in
      if-split P
        {x = if ltb (length s.buffer) o.buffer_limit
          then (true, kept)
          else (true, begin_attempt o now s)}
        {y = (false, s)} s.active
        (λ e.
          if-split P {x = (true, kept)} {y = (true, begin_attempt o now s)}
            (ltb (length s.buffer) o.buffer_limit) (λ e. h) (λ e. begin_attempt-Owned now s h))
        (λ e. h)

  stop-Owned : (s : State Event Authority App) → Owned o Busy Idle s → Owned o Busy Idle (stop s)
  unfolding stop
  stop-Owned s h =
      subst Idle (sym (cleared-app (record s { generation = s.generation + 1 }))) (idle s h)

  fire_retry-Owned :
      (now id : ℕ) (s : State Event Authority App)
      → Owned o Busy Idle s
      → Owned o Busy Idle (fire_retry o now id s)
  unfolding fire_retry
  fire_retry-Owned now id s h =
      let t : State Event Authority App = record s {
        retry_timer = none;
        retry_pending = without id s.retry_pending;
      } in
      if-split (Owned o Busy Idle) {x = begin_attempt o now t} {y = s} (has id s.retry_pending)
        (λ e. begin_attempt-Owned now t h) (λ e. h)

  fire_deadline-Owned :
      (id : ℕ) (s : State Event Authority App)
      → Owned o Busy Idle s
      → Owned o Busy Idle (fire_deadline o id s)
  unfolding fire_deadline
  fire_deadline-Owned id s h =
      let t : State Event Authority App = record s {
        deadline_timer = none;
        deadline_pending = without id s.deadline_pending;
      } in
      if-split (Owned o Busy Idle) {x = if t.active then fail o request_failed t else t} {y = s}
        (has id s.deadline_pending)
        (λ e.
          if-split (Owned o Busy Idle) {x = fail o request_failed t} {y = t} t.active
            (λ on. fail-Owned request_failed t (busy t on h)) (λ off. h))
        (λ e. h)

  -- Every input of the controller keeps the owner's property.
  pub step-Owned :
      (i : Input Snapshot Event Authority) (s : State Event Authority App)
      → Owned o Busy Idle s
      → Owned o Busy Idle (step o s i)
  unfolding step
  step-Owned (start_called now later) s h = start-Owned now later s h
  step-Owned (event_received now event) s h = buffer_event-Owned now event s h
  step-Owned stop_called s h = stop-Owned s h
  step-Owned (request_resolved now r d) s h = resolve-Owned now r d s h
  step-Owned (request_rejected now r abort) s h = reject-Owned now r abort s h
  step-Owned (retry_fired now id) s h = fire_retry-Owned now id s h
  step-Owned (deadline_fired id) s h = fire_deadline-Owned id s h

  -- If the owner's callbacks take the property of a session to the one of an idle controller and back, as the record
  -- says, then every sequence of inputs leaves the owner with the property of the controller's phase.
  pub run-Owned :
      (is : List (Input Snapshot Event Authority)) (s : State Event Authority App)
      → Owned o Busy Idle s
      → Owned o Busy Idle (run o s is)
  unfolding run
  run-Owned [] s h = h
  run-Owned (i ∷ is) s h = run-Owned is (step o s i) (step-Owned i s h)
