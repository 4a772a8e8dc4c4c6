-- ===== src/LiveRoom/Samples.antt =====
-- A room for the tests, with an editor whose change sets replace the text.
use xbin.Common.{ℕ, suc, String, true, Option, none, some, List, [], ◌∷◌, false}
use xbin.Json.{Value, string}
use xbin.Wire.Types.{RoomDocument}
use xbin.Connection
use xbin.Connection.{connected}
use xbin.LiveRoom.{Update, Editing, Room}
use xbin.LiveRoom.Outbound.{Client}

pub record Plain : Type 0 where
  pub content : String
  pub version : ℕ
  pub pending : List (Update String × ℕ)

abbrev pub text_of : Value → Option String
text_of (string s) = some s
text_of _ = none

abbrev pub plain : Editing Plain String
plain = record {
  create =
      λ content revision client. record { content = content; version = revision; pending = [] };
  text = λ e. e.content;
  synced_version = λ e. e.version;
  sendable = λ e. e.pending;
  receive = λ u e. some (record e { content = u.changes; version = suc e.version });
  from_json = text_of;
  to_json = λ c. string c;
  apply = λ c t. some c;
  update = λ c e. some (record e { content = c });
  change_set = λ c. "changed";
  new_length = λ c. 7;
  rebase = λ us vs. some us;
  stringify = λ v. "{}";
}

abbrev pub notes : RoomDocument
notes = record {
  id = "a";
  name = "notes";
  language = "plaintext";
  content = "";
  revision = 0;
  position = 0;
}

abbrev pub code_tab : RoomDocument
code_tab = record notes { id = "b"; name = "code"; position = 1 }

abbrev pub room : Room Plain
room = record {
  documents = notes ∷ code_tab ∷ [];
  metadata_revision = 4;
  active = "a";
  pane_ids = "a" ∷ "b" ∷ "" ∷ "" ∷ [];
  new_document_pane = none;
  pending_order = none;
  editors = ("a", record { content = ""; version = 0; pending = [] }) ∷ [];
  synced = ("a", "") ∷ [];
  tracker = [];
  generation = 1;
  metadata_operation = "";
  metadata_busy = false;
  recovering = false;
  recovery_shown = none;
  connection = connected;
  resyncing = false;
  can_edit = true;
  queue_full = false;
  flush_scheduled = false;
}

-- Two editors with an update each, a socket that is open, and a participant that joined.
abbrev pub waiting : Update String
waiting = record { changes = "draft"; client_id = "client" }

abbrev pub typing : Client Plain
typing = record {
  room = record room {
    editors =
        ("a", record { content = "draft"; version = 0; pending = (waiting, 7) ∷ [] })
        ∷ ("b", record { content = "draft"; version = 3; pending = (waiting, 8) ∷ [] })
        ∷ [];
  };
  socket = record Connection.new { socket = some 1; joined = true };
  sent = [];
}
