-- ===== src/RoomUi/Cursors.antt =====
-- web/src/live-room-ui.ts: the cursors of the other participants, and when their labels end.
--
-- `parse` is `Date.parse`, `none` for NaN; times are milliseconds since 1970, and none before it occurs.
pub mod Labels
mod Tests
use Prim.Native.String.{◌++◌ as concat}
use xbin.Common.{
  ℕ, ◌+◌, String, Bool, true, false, not, ◌&&◌, ◌||◌, Option, none, some, List, [], ◌∷◌, ◌++◌, map,
  leb, ltb, if◌then◌else◌, str_eq, any, keep,
}
use xbin.Wire.Types.{
  Cursor, ConnectionCursor, ParticipantStatus, connected, connection_lost, offline, Participant,
}

-- LiveRemoteCursor
pub record RemoteCursor : Type 0 where
  pub id : String
  pub nickname : String
  pub color : String
  pub revision : ℕ
  pub anchor : ℕ
  pub head : ℕ
  pub active : Bool

-- liveRemoteCursorLabelDurationMs
abbrev pub label_duration_ms : ℕ
label_duration_ms = 120000

abbrev pub is_connected : ParticipantStatus → Bool
is_connected connected = true
is_connected connection_lost = false
is_connected offline = false

-- A participant whose cursors are shown.
abbrev pub is_shown : String → Participant → Bool
is_shown local p = not (str_eq p.id local) && is_connected p.status

-- `cursors` in liveRemoteCursors: the older single cursor stands in where there are none.
pub cursors_from :
    (document id current_tab : String)
    → List ConnectionCursor
    → Option Cursor
    → List ConnectionCursor
cursors_from document id current_tab (c ∷ cs) o = c ∷ cs
cursors_from document id current_tab [] none = []
cursors_from document id current_tab [] (some c) =
    if str_eq current_tab document then record { connection_id = id; cursor = c } ∷ [] else []

abbrev pub is_in : String → ConnectionCursor → Bool
is_in document c = str_eq c.cursor.document_id document

-- `hasCursor` in nextLiveRemoteCursorLabelExpiry
pub has_from : (document current_tab : String) → List ConnectionCursor → Option Cursor → Bool
has_from document current_tab (c ∷ cs) o = any (is_in document) (c ∷ cs)
has_from document current_tab [] none = false
has_from document current_tab [] (some c) =
    str_eq current_tab document && str_eq c.document_id document

-- `now - Date.parse(participant.lastSeenAt) < liveRemoteCursorLabelDurationMs`
abbrev pub active_at : ℕ → Option ℕ → Bool
active_at now none = false
active_at now (some seen) = ltb now (seen + label_duration_ms)

pub remote_cursor : Bool → Participant → ConnectionCursor → RemoteCursor
remote_cursor active p c = record {
  id = concat (concat p.id ":") c.connection_id;
  nickname = p.nickname;
  color = p.color;
  revision = c.cursor.revision;
  anchor = c.cursor.anchor;
  head = c.cursor.head;
  active = active;
}

pub cursors_shown : String → Bool → Participant → List RemoteCursor
unfolding cursors_from remote_cursor
cursors_shown document active p =
    map (remote_cursor active p)
      (keep (is_in document) (cursors_from document p.id p.current_tab p.cursors p.cursor))

-- The participants that the loop of nextLiveRemoteCursorLabelExpiry goes past.
pub is_skipped : String → String → Participant → Bool
unfolding has_from
is_skipped local document p =
    not (is_shown local p) || not (has_from document p.current_tab p.cursors p.cursor)

abbrev pub is_later : ℕ → Option ℕ → Bool
is_later expires none = false
is_later expires (some next) = leb next expires

-- The end of a round of the loop: `seen` is `Date.parse(participant.lastSeenAt)`.
pub advance : ℕ → Option ℕ → Option ℕ → Option ℕ
advance now next none = next
advance now next (some seen) =
    let expires = seen + label_duration_ms in
    if leb expires now || is_later expires next then next else some expires

module _ (parse : String → Option ℕ) where
  -- liveRemoteCursors
  pub live_remote_cursors : List Participant → String → String → ℕ → List RemoteCursor
  unfolding cursors_shown
  live_remote_cursors [] local document now = []
  live_remote_cursors (p ∷ ps) local document now =
      let rest = live_remote_cursors ps local document now in
      let active = active_at now (parse p.last_seen_at) in
      if is_shown local p then cursors_shown document active p ++ rest else rest

  -- One round of the loop of nextLiveRemoteCursorLabelExpiry.
  pub earlier : String → String → ℕ → Option ℕ → Participant → Option ℕ
  unfolding is_skipped advance
  earlier local document now next p =
      if is_skipped local document p then next else advance now next (parse p.last_seen_at)

  pub loop : String → String → ℕ → Option ℕ → List Participant → Option ℕ
  unfolding earlier
  loop local document now next [] = next
  loop local document now next (p ∷ ps) =
      loop local document now (earlier local document now next p) ps

  -- nextLiveRemoteCursorLabelExpiry
  pub next_label_expiry : List Participant → String → String → ℕ → Option ℕ
  unfolding loop
  next_label_expiry ps local document now = loop local document now none ps
