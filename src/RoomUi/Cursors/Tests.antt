-- ===== src/RoomUi/Cursors/Tests.antt =====
-- The cursor of one participant, seen at 1000.
use xbin.Common.{
  ℕ, ◌≡◌, refl, true, Option, none, some, [], ◌∷◌, String, str_eq, if◌then◌else◌, arith,
}
use xbin.Wire.Types.{Participant, collaborator, connected}
use xbin.RoomUi.Cursors.{
  live_remote_cursors, next_label_expiry, loop, earlier, advance, is_skipped, has_from,
}
use xbin.RoomUi.Cursors.Labels.{labels_steady}

abbrev guest : Participant
guest = record {
  id = "guest";
  nickname = "otter";
  access_class = collaborator;
  can_edit = true;
  connection_count = 1;
  color = "red";
  current_tab = "one";
  joined_at = "t";
  last_seen_at = "t";
  cursor = some (record { document_id = "one"; revision = 2; anchor = 3; head = 4 });
  cursors = [];
  status = connected;
}

abbrev clock : String → Option ℕ
clock s = if str_eq s "t" then some 1000 else none

expiry_run : next_label_expiry clock (guest ∷ []) "me" "one" 2000 ≡ some 121000
unfolding next_label_expiry loop earlier advance is_skipped has_from
expiry_run = refl

labels_steady_example :
    live_remote_cursors clock (guest ∷ []) "me" "one" 120999
    ≡ live_remote_cursors clock (guest ∷ []) "me" "one" 2000
unfolding next_label_expiry loop earlier advance is_skipped has_from
labels_steady_example =
    labels_steady clock "me" "one" 2000 120999 (guest ∷ []) (omega arith) (omega arith)
