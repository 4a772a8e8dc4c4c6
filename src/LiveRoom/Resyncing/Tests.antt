-- ===== src/LiveRoom/Resyncing/Tests.antt =====
-- A room whose controller was started, and in which a participant types on.
use xbin.Common.{ℕ, ◌≡◌, refl, String, true, false, some, List, [], ◌∷◌, arith, str_append, decimal}
use xbin.Layout.{columns}
use xbin.Wire.Types
use xbin.Resync
use xbin.Resync.Budget.{step-new_active}
use xbin.LiveRoom.Modes.{is_held}
use xbin.LiveRoom.Outbound.{flush_changes}
use xbin.LiveRoom.Events.{Session}
use xbin.LiveRoom.Resyncing.{room_options, controller, edited, Moment, happen, live}
use xbin.LiveRoom.Resyncing.Quiet.{live-quiet}
use xbin.LiveRoom.Resyncing.Failing.{IsRecovered, live-recovers}
use xbin.LiveRoom.Samples.{Plain, plain, typing}

abbrev at_work : Session Plain
at_work = record {
  client = typing;
  participants = [];
  local_participant_id = "";
  local_access_class = Types.viewer;
  creator = false;
  creator_preset = columns;
  watch_only = false;
  room_full = false;
  fatal = false;
  effects = [];
}

abbrev typed : Plain
typed = record { content = "more"; version = 0; pending = [] }

abbrev moments : List (Moment Plain)
moments =
    record {
      happening = controller (Resync.start_called 10 10);
      drawn = "resync-recovery-1";
      online = true;
      ready = true;
    }
    ∷ record { happening = edited "a" typed; drawn = ""; online = true; ready = true }
    ∷ []

abbrev names : ℕ → String
names n = str_append "op-" (decimal 8 n)

is_held-at_work : is_held at_work.client.room ≡ true
unfolding is_held
is_held-at_work = refl

is_active : (live plain "client" "too many tabs" moments (Resync.new at_work)).active ≡ true
unfolding live happen room_options
is_active =
    step-new_active (room_options plain "client" "too many tabs" "resync-recovery-1" true true)
      at_work 10 (omega arith)

live-quiet_example :
    (flush_changes plain "client" names true
        (live plain "client" "too many tabs" moments (Resync.new at_work)).app.client
      ≡ (live plain "client" "too many tabs" moments (Resync.new at_work)).app.client)
    × (is_held (live plain "client" "too many tabs" moments (Resync.new at_work)).app.client.room
        ≡ true)
live-quiet_example =
    live-quiet plain "client" "too many tabs" moments at_work names true is_held-at_work is_active

live-recovers_example :
    (id : ℕ) × ((live plain "client" "too many tabs" moments (Resync.new at_work)).deadline_timer
      ≡ some id)
    × ((Resync.fire_deadline
          (room_options plain "client" "too many tabs" "draw" true true)
          id
          (live plain "client" "too many tabs" moments (Resync.new at_work))).active
        ≡ false)
    × IsRecovered plain
        (live plain "client" "too many tabs" moments (Resync.new at_work)).app.client.room
        (Resync.fire_deadline
          (room_options plain "client" "too many tabs" "draw" true true)
          id
          (live plain "client" "too many tabs" moments (Resync.new at_work))).app.client.room
live-recovers_example =
    live-recovers plain "client" "too many tabs" moments at_work "draw" true true is_active
