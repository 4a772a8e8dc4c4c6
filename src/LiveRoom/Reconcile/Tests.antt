-- ===== src/LiveRoom/Reconcile/Tests.antt =====
-- A snapshot that is reconciled with a room.
use xbin.Common.{◌≡◌, refl, ap, sym, true, some, List, [], ◌∷◌}
use xbin.Wire.Types.{RoomDocument}
use mathlib.Core.Option.{some-injective}
use xbin.LiveRoom.{applied, Room, lookup, normalize_live_documents}
use xbin.Reconciliation
use xbin.Reconciliation.{Authority}
use xbin.LiveRoom.Reconcile.{latest_document, reconcile_snapshot}
use xbin.LiveRoom.Reconcile.Adopted.{Adopted}
use xbin.LiveRoom.Reconcile.Turning.{IsVersioned}
use xbin.LiveRoom.Reconcile.CaughtUp.{CaughtUp, reconcile_snapshot-CaughtUp}
use xbin.LiveRoom.Reconcile.{receive_all, live_snapshot_updates}
use xbin.LiveRoom.Samples.{Plain, plain, notes, code_tab, typing, waiting, room}

abbrev fetched_notes : RoomDocument
fetched_notes = record notes { content = "one"; revision = 1 }

-- A snapshot that has a new text of "a" and has "b" no more, while "b" has an update that waits.
abbrev fetched : List RoomDocument
fetched = fetched_notes ∷ []

abbrev asked : Authority
asked = record {
  metadata_revision = 4;
  documents = record { id = "a"; revision = 0 } ∷ record { id = "b"; revision = 3 } ∷ [];
}

abbrev before : Room Plain
before = record typing.room { documents = notes ∷ record code_tab { revision = 3 } ∷ [] }

reconciled : (reconcile_snapshot plain "client" fetched 5 asked [] before).0 ≡ applied
unfolding reconcile_snapshot Reconciliation.snapshot_can_reconcile Reconciliation.capture_authority
    Reconciliation.documents_ok Reconciliation.document_ok Reconciliation.revision_of receive_all
    live_snapshot_updates
reconciled = refl

plain-IsVersioned : IsVersioned plain "client"
plain-IsVersioned = record {
  created = λ content n. refl;
  updated = λ c e e' h. ap (λ (x : Plain). x.version) (sym (some-injective _ _ h));
  received = λ u e e' h. ap (λ (x : Plain). x.version) (sym (some-injective _ _ h));
}

abbrev was : Plain
was = record { content = "draft"; version = 0; pending = (waiting, 7) ∷ [] }

found : latest_document "a" (normalize_live_documents fetched) ≡ some fetched_notes
unfolding latest_document normalize_live_documents
found = refl

had : lookup "a" before.editors ≡ some was
unfolding lookup
had = refl

reconcile_snapshot-CaughtUp_example :
    Adopted plain "client" fetched 5 asked [] before
      (reconcile_snapshot plain "client" fetched 5 asked [] before).1
    × CaughtUp plain "client" fetched_notes "a" true
        (reconcile_snapshot plain "client" fetched 5 asked [] before).1
reconcile_snapshot-CaughtUp_example =
    reconcile_snapshot-CaughtUp plain "client" plain-IsVersioned fetched 5 asked [] before "a"
      fetched_notes was found had reconciled

-- An editor with nothing to send, whose change sets all give the text "changed".
abbrev settled_was : Plain
settled_was = record { content = ""; version = 0; pending = [] }

abbrev changed_notes : RoomDocument
changed_notes = record notes { content = "changed"; revision = 2 }
