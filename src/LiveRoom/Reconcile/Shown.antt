-- ===== src/LiveRoom/Reconcile/Shown.antt =====
-- An editor with no unsent updates shows the snapshot's text after it received it, in reconcileSnapshot of
-- web/src/live-room.tsx.
use xbin.Common.{◌≡◌, String, some, []}
use xbin.Collab
use xbin.LiveRoom.{Editing, Update, Room, lookup}

module _ {Editor Changes : Type 0} (o : Editing Editor Changes) (client_id : String) where
  -- The law of `receiveUpdates`: an editor with nothing to send applies the update to its text.
  abbrev pub IsReceiving : Type 0
  IsReceiving =
      (u : Update Changes) (e e' : Editor)
      → o.sendable e ≡ []
      → o.receive u e ≡ some e'
      → (o.apply u.changes (o.text e) ≡ some (o.text e')) × (o.sendable e' ≡ [])

  -- An editor of the document `id` that shows a text and has nothing to send.
  pub record Shows (id text : String) (r : Room Editor) : Type 0 where
    pub editor : Editor
    pub has_editor : lookup id r.editors ≡ some editor
    pub shown : o.text editor ≡ text
    pub all_sent : o.sendable editor ≡ []
    pub has_text : lookup id r.synced ≡ some text
