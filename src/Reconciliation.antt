-- ===== src/Reconciliation.antt =====
-- web/src/live-reconciliation.ts: whether an HTTP snapshot may replace the browser's authority.
pub mod Order
mod Tests
use xbin.Common.{
  ℕ, String, Bool, true, false, ◌||◌, Option, none, some, List, [], ◌∷◌, ltb, leb, if◌then◌else◌,
  str_eq,
}

-- LiveRevision
pub record Revision : Type 0 where
  pub id : String
  pub revision : ℕ

-- LiveRevisionAuthority
pub record Authority : Type 0 where
  pub metadata_revision : ℕ
  pub documents : List Revision

-- captureLiveRevisionAuthority
unfoldable pub capture_authority : ℕ → List Revision → Authority
capture_authority metadata_revision documents = record {
  metadata_revision = metadata_revision;
  documents = documents;
}

-- `new Map(documents.map(…)).get(id)`: of two entries with one key the later counts.
unfoldable pub revision_of : String → List Revision → Option ℕ
revision_of id [] = none
revision_of id (d ∷ ds) = elim (revision_of id ds) [
  | some r ↦ some r
  | none ↦ if str_eq d.id id then some d.revision else none
]

-- The test of the loop on one known document: `false` returns, `true` goes on.
unfoldable pub document_ok : Authority → Authority → Revision → Bool
document_ok current snapshot d = elim (revision_of d.id snapshot.documents) [
  | none ↦ if leb snapshot.metadata_revision current.metadata_revision then false else true
  | some r ↦ if ltb r d.revision then false else true
]

unfoldable pub documents_ok : Authority → Authority → List Revision → Bool
documents_ok current snapshot [] = true
documents_ok current snapshot (d ∷ ds) =
    if document_ok current snapshot d then documents_ok current snapshot ds else false

-- snapshotCanReconcile
unfoldable pub snapshot_can_reconcile : Authority → Authority → Bool
snapshot_can_reconcile current snapshot =
    if ltb snapshot.metadata_revision current.metadata_revision
    then false
    else documents_ok current snapshot current.documents

-- isAuthorityEvent
unfoldable pub is_authority_event : String → Bool
is_authority_event type =
    str_eq type "changes"
    || str_eq type "document_created"
    || str_eq type "document_updated"
    || str_eq type "document_deleted"
    || str_eq type "document_reordered"
