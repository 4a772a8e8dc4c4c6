-- ===== src/Wire/Valid.antt =====
-- What the decoder guarantees of an event.
use xbin.Common.{
  ◌≤◌, ◌≡◌, ◌≢◌, String, Bool, true, not, ◌&&◌, Option, none, some, List, [], ◌∷◌, All, includes,
}
use xbin.Json.{max_safe}
use xbin.Wire.Types.{
  Cursor, ConnectionCursor, Participant, DocumentRevision, RoomDocument, Event, Joined, joined,
  changes, document_created, document_updated, document_deleted, document_reordered,
  presence_joined, presence_updated, participant_renamed, presence_left, room_mode_changed,
  room_layout_changed, participant_removed, status, error,
}
use xbin.Wire.Parts.{count_fits}

abbrev pub Holds {ℓ κ} : {A : Type ℓ} → (A → Type κ) → Option A → Type κ
Holds P none = Unit
Holds P (some a) = P a

pub record IsCursor (c : Cursor) : Type 0 where
  pub revision : c.revision ≤ max_safe
  pub anchor : c.anchor ≤ max_safe
  pub head : c.head ≤ max_safe

pub record IsDocument (d : RoomDocument) : Type 0 where
  pub revision : d.revision ≤ max_safe
  pub position : d.position ≤ max_safe

-- No id is in `seen`, and none stands twice.
abbrev pub new_ids : List String → List DocumentRevision → Bool
new_ids seen [] = true
new_ids seen (d ∷ ds) = not (includes d.document_id seen) && new_ids (d.document_id ∷ seen) ds

module _ (to_iso : String → Option String) where
  -- A timestamp in the form that `toISOString` gives.
  pub record IsIso (t : String) : Type 0 where
    pub fixed : to_iso t ≡ some t
    pub some_text : t ≢ ""

  pub record IsParticipant (p : Participant) : Type 0 where
    pub count : p.connection_count ≤ max_safe
    pub fits : count_fits p.status p.connection_count ≡ true
    pub joined_at : IsIso p.joined_at
    pub last_seen_at : IsIso p.last_seen_at
    pub cursor : Holds IsCursor p.cursor
    pub cursors : All (λ (c : ConnectionCursor). IsCursor c.cursor) p.cursors

  pub record IsJoined (j : Joined) : Type 0 where
    pub expires_at : IsIso j.expires_at
    pub metadata_revision : j.metadata_revision ≤ max_safe
    pub revisions : All (λ (d : DocumentRevision). d.revision ≤ max_safe) j.document_revisions
    pub ids : new_ids [] j.document_revisions ≡ true
    pub participants : All IsParticipant j.participants
    pub participant : IsParticipant j.participant

  abbrev pub IsEvent : Event → Type 0
  IsEvent (joined j) = IsJoined j
  IsEvent (changes op client document base revision change) =
      (base ≤ max_safe) × (revision ≤ max_safe)
  IsEvent (document_created op client revision document) =
      (revision ≤ max_safe) × IsDocument document
  IsEvent (document_updated op client document revision name language) = revision ≤ max_safe
  IsEvent (document_deleted op client document revision) = revision ≤ max_safe
  IsEvent (document_reordered op client revision order) = revision ≤ max_safe
  IsEvent (presence_joined p) = IsParticipant p
  IsEvent (presence_updated p) = IsParticipant p
  IsEvent (participant_renamed p) = IsParticipant p
  IsEvent (presence_left id p) = Holds IsParticipant p
  IsEvent (room_mode_changed watch_only ps) = All IsParticipant ps
  IsEvent (room_layout_changed preset) = Unit
  IsEvent (participant_removed id) = Unit
  IsEvent (status kind) = Unit
  IsEvent (error code message op s) = Unit
