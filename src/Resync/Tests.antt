-- ===== src/Resync/Tests.antt =====
-- The controller run on small rooms: a room's state is a list of numbers, and so is a snapshot.
use xbin.Common.{
  ℕ, ◌≤◌, ◌≡◌, ◌*◌, refl, true, false, none, some, List, [], ◌∷◌, ◌++◌, arith, length, ltb,
  if◌then◌else◌, ◌⊎◌,
}
use xbin.Resync.{
  Options, applies, refuses, Request, Reconciled, reconciled, rejected, request_failed, State,
  Input, new, is_current, stop, send_request, start, buffer_event, resolve, reject, fire_deadline,
  step, run, start_called, request_resolved, request_rejected, retry_fired, started, failed,
  has_budget, fire_retry, retry_delay, begin_attempt, cancel_attempt, settle, open_session,
}
use xbin.Resync.Safety.{IsSafe, new-IsSafe, run-IsSafe}
use xbin.Resync.Budget.{starts, alternates, requests_bounded, deadline_ends}
use xbin.Resync.Replay.{Succeeds, receive, superseded_ignored, replay_in_order, buffer_event_covers}

-- A snapshot that holds nothing is stale, and an event that is 0 does not apply.
abbrev reconcile_list : List ℕ → ℕ → List ℕ → Reconciled × List ℕ
reconcile_list [] authority app = (rejected, app)
reconcile_list (x ∷ xs) authority app = (reconciled, x ∷ xs)

abbrev options : Options (List ℕ) ℕ ℕ (List ℕ)
options = record {
  capture_authority = length;
  reconcile = reconcile_list;
  apply_buffered = λ e app. (if ltb 0 e then applies else refuses, app ++ e ∷ []);
  on_started = λ app. app;
  on_succeeded = λ app. app;
  on_failed = λ r app. app;
  buffer_limit = 2;
  max_attempts = 2;
  max_elapsed_ms = 1000;
  retry_base_ms = 100;
  retry_max_ms = 400;
}

abbrev first : Request ℕ
first = record { generation = 1; attempt = 1; controller = 1; authority = 0 }

abbrev waiting : State ℕ ℕ (List ℕ)
waiting = record {
  active = true;
  attempt = 1;
  started_at = 10;
  generation = 1;
  buffer = [];
  request_controller = some 1;
  retry_timer = none;
  deadline_timer = some 1;
  retry_pending = [];
  deadline_pending = 1 ∷ [];
  next_timer = 2;
  aborted = [];
  requests = first ∷ [];
  notices = started ∷ [];
  app = [];
}

start_waits : run options (new []) (start_called 10 10 ∷ []) ≡ waiting
unfolding run step start begin_attempt has_budget send_request cancel_attempt open_session
start_waits = refl

-- A stale snapshot is retried, and the second attempt is the last.
abbrev two_failures : List (Input (List ℕ) ℕ ℕ)
two_failures =
    start_called 10 10
    ∷ request_resolved 20 first []
    ∷ retry_fired 130 2
    ∷ request_rejected 140 (record { generation = 2; attempt = 2; controller = 2; authority = 0 })
        false
    ∷ []

two_failures_notices :
    (run options (new []) two_failures).notices ≡ failed request_failed ∷ started ∷ []
unfolding run step start resolve reject fire_retry is_current settle has_budget send_request
    open_session retry_delay
two_failures_notices = refl

waiting-IsSafe : IsSafe options waiting
waiting-IsSafe = ground arith

run-IsSafe_example : IsSafe options (run options (new []) two_failures)
run-IsSafe_example = run-IsSafe options two_failures (new-IsSafe options [])

requests_bounded_example :
    (length (run options (new []) two_failures).requests
      ≤ 2 * starts (run options (new []) two_failures).notices)
    × (alternates (run options (new []) two_failures).notices ≡ true)
requests_bounded_example = requests_bounded options [] two_failures

deadline_ends_example :
    (id : ℕ) × (waiting.deadline_timer ≡ some id)
    × ((fire_deadline options id waiting).active ≡ false)
    × ((fire_deadline options id waiting).notices ≡ failed request_failed ∷ started ∷ [])
    × ((fire_deadline options id waiting).retry_pending ≡ [])
    × ((fire_deadline options id waiting).deadline_pending ≡ [])
deadline_ends_example = deadline_ends options waiting waiting-IsSafe refl

superseded_ignored_example :
    ((resolve options 9 first (5 ∷ []) (run options (stop waiting) [])
        ≡ run options (stop waiting) [])
      × (reject options 9 first false (run options (stop waiting) [])
          ≡ run options (stop waiting) []))
    × ((resolve options 9 first (5 ∷ []) (run options (send_request options waiting) [])
          ≡ run options (send_request options waiting) [])
        × (reject options 9 first false (run options (send_request options waiting) [])
            ≡ run options (send_request options waiting) []))
superseded_ignored_example =
    superseded_ignored options waiting first [] 9 (5 ∷ []) false (omega arith)

waiting_current : is_current first waiting ≡ true
unfolding is_current
waiting_current = refl

replay_in_order_example : Succeeds options waiting (5 ∷ 7 ∷ 8 ∷ []) (
    step options
      (run options waiting (receive options ((11, 7) ∷ (12, 8) ∷ [])))
      (request_resolved 30 first (5 ∷ [])))
replay_in_order_example =
    replay_in_order options waiting first ((11, 7) ∷ (12, 8) ∷ []) 30 (5 ∷ []) waiting_current refl
      (omega arith) refl refl

buffer_event_covers_example :
    ((buffer_event options 11 7 waiting).0 ≡ true)
    × (((buffer_event options 11 7 waiting).1 ≡ record waiting { buffer = 7 ∷ [] })
        ⊎ (((buffer_event options 11 7 waiting).1.request_controller ≡ some 2)
            × ((buffer_event options 11 7 waiting).1.buffer ≡ [])
            × (length (buffer_event options 11 7 waiting).1.requests ≡ 2))
        ⊎ (((buffer_event options 11 7 waiting).1.active ≡ false)
            × ((buffer_event options 11 7 waiting).1.notices
                ≡ failed request_failed ∷ started ∷ [])))
buffer_event_covers_example = buffer_event_covers options 11 7 waiting refl
