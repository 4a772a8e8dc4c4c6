-- ===== src/Reconciliation/Tests.antt =====
-- The reconciliation test on small rooms.
use xbin.Common.{ℕ, ◌≡◌, ◌↔◌, refl, String, true, false, none, [], ◌∷◌, arith}
use xbin.Reconciliation.{
  Revision, Authority, revision_of, document_ok, documents_ok, snapshot_can_reconcile,
}
use xbin.Reconciliation.Order.{
  Advances, snapshot_can_reconcile_iff, snapshot_can_reconcile_trans,
  snapshot_can_reconcile_antisym,
}

abbrev revision_at : String → ℕ → Revision
revision_at id r = record { id = id; revision = r }

abbrev two_tabs : Authority
two_tabs = record { metadata_revision = 3; documents = revision_at "a" 5 ∷ revision_at "b" 2 ∷ [] }

abbrev edited : Authority
edited = record { metadata_revision = 3; documents = revision_at "a" 6 ∷ revision_at "b" 2 ∷ [] }

abbrev deleted : Authority
deleted = record { metadata_revision = 4; documents = revision_at "a" 7 ∷ [] }

accepts_edit : snapshot_can_reconcile two_tabs edited ≡ true
unfolding snapshot_can_reconcile documents_ok document_ok revision_of
accepts_edit = refl

accepts_deletion : snapshot_can_reconcile edited deleted ≡ true
unfolding snapshot_can_reconcile documents_ok document_ok revision_of
accepts_deletion = refl

-- A document that is missing under the old metadata revision is refused.
refuses_loss :
    snapshot_can_reconcile two_tabs
      (record { metadata_revision = 3; documents = revision_at "a" 9 ∷ [] })
    ≡ false
unfolding snapshot_can_reconcile documents_ok document_ok revision_of
refuses_loss = refl

b_is_gone :
    (id : String) → revision_of id edited.documents ≡ none → revision_of id deleted.documents ≡ none
unfolding revision_of
b_is_gone id h = ground arith

snapshot_can_reconcile_iff_example :
    (snapshot_can_reconcile two_tabs edited ≡ true) ↔ Advances two_tabs edited
snapshot_can_reconcile_iff_example = snapshot_can_reconcile_iff two_tabs edited

accepted_over_two : snapshot_can_reconcile two_tabs deleted ≡ true
accepted_over_two =
    snapshot_can_reconcile_trans two_tabs edited deleted accepts_edit accepts_deletion b_is_gone

self_accepts : snapshot_can_reconcile edited edited ≡ true
unfolding snapshot_can_reconcile documents_ok document_ok revision_of
self_accepts = refl

equal_snapshots_agree :
    (3 ≡ edited.metadata_revision)
    × ((id : String) → revision_of id edited.documents ≡ revision_of id edited.documents)
equal_snapshots_agree = snapshot_can_reconcile_antisym edited edited self_accepts self_accepts
