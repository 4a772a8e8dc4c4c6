-- ===== src/Resync/Replay.antt =====
-- Which answers count, and what is replayed over a snapshot.
use xbin.Common.{
  ℕ, ◌+◌, ◌≤◌, ◌<◌, ◌≡◌, refl, sym, ◌∙◌, ap, subst, Bool, true, false, ◌&&◌, none, some, List, [],
  ◌∷◌, ◌++◌, arith, length, Bool-cases, inl, inr, ◌⊎◌, length-append,
}
use mathlib.Core.List.{append_assoc, append-nil}
use xbin.Resync.{
  Options, Applying, applies, Request, reconciled, Reason, request_failed, State, Input, is_current,
  stop, fail, has_budget, send_request, begin_attempt, open_session, start, buffer_event, retry,
  replay, settle, resolve, reject, fire_retry, fire_deadline, step, run, start_called,
  event_received, stop_called, request_resolved, request_rejected, retry_fired, deadline_fired,
  succeeded, failed, without,
}

abbrev pub is_applied : Applying → Bool
is_applied applies = true
is_applied _ = false

module _ {Snapshot Event Authority App : Type 0} (o : Options Snapshot Event Authority App) where
  begin_attempt-generation :
      (now : ℕ) (s : State Event Authority App) → s.generation ≤ (begin_attempt o now s).generation
  unfolding begin_attempt send_request fail
  begin_attempt-generation now s = ground arith

  start-generation :
      (now later : ℕ) (s : State Event Authority App)
      → s.generation ≤ (start o now later s).generation
  unfolding start open_session
  start-generation now later s = elim (Bool-cases s.active) [
    | inl e ↦ simp e (begin_attempt-generation later s)
    | inr e ↦ simp e (begin_attempt-generation later (open_session o now s))
  ]

  retry-generation :
      (now : ℕ) (r : Reason) (s : State Event Authority App)
      → (retry o now r s).generation ≡ s.generation
  unfolding retry fail
  retry-generation now r s = ground arith

  step-generation :
      (s : State Event Authority App) (i : Input Snapshot Event Authority)
      → s.generation ≤ (step o s i).generation
  unfolding step buffer_event resolve reject fire_retry fire_deadline stop
  step-generation s (start_called now later) = start-generation now later s
  step-generation s (event_received now e) = ground (arith, begin_attempt-generation now s)
  step-generation s stop_called = ground arith
  step-generation s (request_resolved now r snapshot) = ground arith
  step-generation s (request_rejected now r abort) = ground arith
  step-generation s (retry_fired now id) =
      let fired = record s { retry_timer = none; retry_pending = without id s.retry_pending } in
      ground (arith, begin_attempt-generation now fired)
  step-generation s (deadline_fired id) = ground arith

  run-generation :
      (s : State Event Authority App) (is : List (Input Snapshot Event Authority))
      → s.generation ≤ (run o s is).generation
  unfolding run
  run-generation s [] = omega arith
  run-generation s (i ∷ is) = omega (arith, step-generation s i, run-generation (step o s i) is)

  abbrev IsIgnored : State Event Authority App → Request Authority → Type 0
  IsIgnored s r =
      (now : ℕ) (snapshot : Snapshot) (abort : Bool)
      → (resolve o now r snapshot s ≡ s) × (reject o now r abort s ≡ s)

  stale-IsIgnored :
      (s : State Event Authority App) (r : Request Authority)
      → r.generation < s.generation
      → IsIgnored s r
  unfolding resolve reject is_current
  stale-IsIgnored s r h now snapshot abort = (ground arith, ground arith)

  stop-generation : (s : State Event Authority App) → (stop s).generation ≡ s.generation + 1
  unfolding stop
  stop-generation s = ground arith

  -- Once the controller is stopped, or has made a new request, no answer to a request of the
  -- generation before it has any effect, whatever happens in between.
  pub superseded_ignored :
      (s : State Event Authority App) (r : Request Authority)
      (is : List (Input Snapshot Event Authority)) (now : ℕ) (snapshot : Snapshot) (abort : Bool)
      → r.generation ≤ s.generation
      → ((resolve o now r snapshot (run o (stop s) is) ≡ run o (stop s) is)
          × (reject o now r abort (run o (stop s) is) ≡ run o (stop s) is))
        × ((resolve o now r snapshot (run o (send_request o s) is) ≡ run o (send_request o s) is)
            × (reject o now r abort (run o (send_request o s) is) ≡ run o (send_request o s) is))
  unfolding send_request
  superseded_ignored s r is now snapshot abort h = (
    stale-IsIgnored _ r (omega (arith, stop-generation s, run-generation (stop s) is)) now snapshot
        abort,
    stale-IsIgnored _ r (omega (arith, run-generation (send_request o s) is)) now snapshot abort,
  )

  -- The inputs of events that arrive one by one.
  abbrev pub receive : List (ℕ × Event) → List (Input Snapshot Event Authority)
  receive [] = []
  receive ((now, e) ∷ es) = event_received now e ∷ receive es

  abbrev pub events : List (ℕ × Event) → List Event
  events [] = []
  events ((now, e) ∷ es) = e ∷ events es

  -- The events of a list, applied in its order.
  abbrev pub apply_all : List Event → App → App
  apply_all [] app = app
  apply_all (e ∷ es) app = apply_all es (o.apply_buffered e app).1

  abbrev pub all_apply : List Event → App → Bool
  all_apply [] app = true
  all_apply (e ∷ es) app =
      is_applied (o.apply_buffered e app).0 && all_apply es (o.apply_buffered e app).1

  replay_lem :
      (es : List Event) (app : App)
      → all_apply es app ≡ true
      → replay o es app ≡ (applies, apply_all es app)
  unfolding replay
  replay_lem [] app h = refl
  replay_lem (e ∷ es) app h = ground (arith, replay_lem es (o.apply_buffered e app).1)

  step-event_received :
      (now : ℕ) (e : Event) (s : State Event Authority App)
      → s.active ≡ true
      → length s.buffer < o.buffer_limit
      → step o s (event_received now e) ≡ record s { buffer = s.buffer ++ e ∷ [] }
  unfolding step buffer_event
  step-event_received now e s on h = ground arith

  run-receive :
      (es : List (ℕ × Event)) (s : State Event Authority App)
      → s.active ≡ true
      → length s.buffer + length es ≤ o.buffer_limit
      → run o s (receive es) ≡ record s { buffer = s.buffer ++ events es }
  unfolding run
  run-receive [] s on h = rw append-nil
  run-receive ((now, e) ∷ es) s on h =
      ap (λ t. run o t (receive es)) (step-event_received now e s on (omega arith))
      ∙ run-receive es (record s { buffer = s.buffer ++ e ∷ [] }) on
          (omega (arith, length-append s.buffer (e ∷ [])))
      ∙ ap (λ b. record s { buffer = b }) (append_assoc s.buffer (e ∷ []) (events es))

  -- The controller is done: the room's state is `app`, and nothing is pending.
  abbrev pub Succeeds : State Event Authority App → App → State Event Authority App → Type 0
  Succeeds s app t =
      (t.app ≡ o.on_succeeded app)
      × (t.active ≡ false)
      × (t.request_controller ≡ none)
      × (t.deadline_timer ≡ none)
      × (t.notices ≡ succeeded ∷ s.notices)

  resolve-Succeeds :
      (s : State Event Authority App) (r : Request Authority) (es : List Event) (now : ℕ)
      (snapshot : Snapshot)
      → is_current r s ≡ true
      → (o.reconcile snapshot r.authority s.app).0 ≡ reconciled
      → all_apply es (o.reconcile snapshot r.authority s.app).1 ≡ true
      → Succeeds s
          (apply_all es (o.reconcile snapshot r.authority s.app).1)
          (resolve o now r snapshot (record s { buffer = es }))
  unfolding resolve is_current settle
  resolve-Succeeds s r es now snapshot cur good all_good =
      let replayed = replay_lem es (o.reconcile snapshot r.authority s.app).1 all_good in
      (ground arith, ground arith, ground arith, ground arith, ground arith)

  -- After request `r` goes out, events arrive, no more than the buffer holds, and then the snapshot:
  -- if it reconciles and all events apply, the room's state is the snapshot's with each event
  -- applied once, in wire order; the controller is idle, holds no timer and reports success.
  pub replay_in_order :
      (s : State Event Authority App) (r : Request Authority) (es : List (ℕ × Event)) (now : ℕ)
      (snapshot : Snapshot)
      → is_current r s ≡ true
      → s.buffer ≡ []
      → length es ≤ o.buffer_limit
      → (o.reconcile snapshot r.authority s.app).0 ≡ reconciled
      → all_apply (events es) (o.reconcile snapshot r.authority s.app).1 ≡ true
      → Succeeds s
          (apply_all (events es) (o.reconcile snapshot r.authority s.app).1)
          (step o (run o s (receive es)) (request_resolved now r snapshot))
  unfolding step
  replay_in_order s r es now snapshot cur empty fits good all_good =
      let on : s.active ≡ true = unfold is_current in ground arith in
      let received : run o s (receive es) ≡ record s { buffer = events es } =
        run-receive es s on (omega (arith, ap length empty))
        ∙ ap (λ b. record s { buffer = b ++ events es }) empty in
      subst
        (λ t.
          Succeeds s (apply_all (events es) (o.reconcile snapshot r.authority s.app).1)
            (resolve o now r snapshot t))
        (sym received) (resolve-Succeeds s r (events es) now snapshot cur good all_good)

  -- An event that reaches an active controller is taken: it is buffered behind those before it, or a
  -- new request is sent that covers it, or the session fails for want of budget. It is never dropped
  -- while the controller goes on with the old request.
  pub buffer_event_covers :
      (now : ℕ) (e : Event) (s : State Event Authority App)
      → s.active ≡ true
      → ((buffer_event o now e s).0 ≡ true)
        × (((buffer_event o now e s).1 ≡ record s { buffer = s.buffer ++ e ∷ [] })
            ⊎ (((buffer_event o now e s).1.request_controller ≡ some (s.generation + 1))
                × ((buffer_event o now e s).1.buffer ≡ [])
                × (length (buffer_event o now e s).1.requests ≡ length s.requests + 1))
            ⊎ (((buffer_event o now e s).1.active ≡ false)
                × ((buffer_event o now e s).1.notices ≡ failed request_failed ∷ s.notices)))
  unfolding buffer_event begin_attempt has_budget send_request fail
  buffer_event_covers now e s on = ground arith
