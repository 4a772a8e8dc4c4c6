-- ===== src/LiveRoom/Events/Tests.antt =====
-- A room that was left in recovery, whose socket joins again.
use xbin.Common.{◌≡◌, refl, true, false, none, [], ◌∷◌}
use xbin.Layout.{columns}
use xbin.Wire.Types.{AccessClass, Participant, Joined, joined, error}
use xbin.Wire.Types
use xbin.Connection.{recovery}
use xbin.LiveRoom.Modes.{is_held}
use xbin.LiveRoom.Events.{Session, handle_event}
use xbin.LiveRoom.Events.Recovering.{handle_event-held}
use xbin.LiveRoom.Samples.{Plain, plain, typing}

abbrev ada : Participant
ada = record {
  id = "p1";
  nickname = "ada";
  access_class = Types.creator;
  can_edit = true;
  connection_count = 1;
  color = "red";
  current_tab = "a";
  joined_at = "";
  last_seen_at = "";
  cursor = none;
  cursors = [];
  status = Types.connected;
}

abbrev left_in_recovery : Session Plain
left_in_recovery = record {
  client = record typing { room = record typing.room { recovering = true; connection = recovery } };
  participants = [];
  local_participant_id = "";
  local_access_class = Types.viewer;
  creator = false;
  creator_preset = columns;
  watch_only = false;
  room_full = false;
  fatal = false;
  effects = [];
}

abbrev joining : Joined
joining = record {
  expires_at = "";
  metadata_revision = 4;
  document_revisions = [];
  participants = ada ∷ [];
  participant = ada;
  reconnected = true;
  creator = true;
  watch_only = false;
  layout_preset = columns;
}

is_held-left : is_held left_in_recovery.client.room ≡ true
unfolding is_held
is_held-left = refl

handle_event-held_example :
    is_held
      (handle_event plain "client" "too many tabs" true false false
        (joined joining)
        left_in_recovery).1.client.room
    ≡ true
handle_event-held_example =
    handle_event-held plain "client" "too many tabs" true false false (joined joining)
      left_in_recovery is_held-left
