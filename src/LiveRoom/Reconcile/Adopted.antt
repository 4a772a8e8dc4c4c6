-- ===== src/LiveRoom/Reconcile/Adopted.antt =====
-- What a room has adopted after reconcileSnapshot of web/src/live-room.tsx.
use xbin.Common.{
  ℕ, ◌≡◌, refl, sym, ap, subst, ◌∙◌, String, Bool, Bool-cases, true, false, ◌&&◌, none, some, List,
  [], ◌∷◌, ltb, if◌then◌else◌, if-both, eq_refl, arith, inl, inr, ◌⊎◌, All,
}
use xbin.Wire.Types.{RoomDocument}
use xbin.Operations.{Operation}
use xbin.Reconciliation.{Authority, capture_authority, snapshot_can_reconcile}
use xbin.LiveRoom.{
  Editing, Room, Applied, applied, gap, lookup, has_document, settle_operation,
  normalize_live_documents,
}
use xbin.LiveRoom.Metadata.{end_metadata_operation, keep_active, first_id}
use xbin.LiveRoom.Metadata.Abstract.{tabs}
use xbin.LiveRoom.Reconcile.{
  snapshot_revisions, settle_accepted, current_revision_authority, reconcile_editors,
  merge_documents, adopt_snapshot, reconcile_snapshot,
}
use xbin.LiveRoom.Reconcile.Keeps.{
  Applied-cases, Keeps-twice, settle_accepted-Keeps, reconcile_editors-Keeps,
}
use xbin.LiveRoom.Reconcile.Unsent.{IsIn, IsUnsent, turns-unsent}
use xbin.LiveRoom.Reconcile.Merged.{HasEditor, merge_documents-IsMerged}

module _ {Editor Changes : Type 0} (o : Editing Editor Changes) (client_id : String) where
  pub settle_accepted-editors :
      (accepted : List String) (ops : List Operation) (r : Room Editor)
      → (settle_accepted accepted ops r).editors ≡ r.editors
  unfolding settle_accepted end_metadata_operation settle_operation
  settle_accepted-editors accepted [] r = refl
  settle_accepted-editors accepted (op ∷ ops) r =
      settle_accepted-editors accepted ops _
      ∙ if-both (λ (s : Room Editor). s.editors ≡ r.editors)
          {x = end_metadata_operation op.id (settle_operation op.id r)} {y = r} (ground arith) refl
          _

  module _ (documents : List RoomDocument) (metadata_revision : ℕ) (requested : Authority)
      (accepted : List String) (r : Room Editor) where
    abbrev pub next : List RoomDocument
    next = normalize_live_documents documents

    -- What the room is after the snapshot `next` of a metadata revision.
    pub record Adopted (s : Room Editor) : Type 0 where
      pub has_tabs : tabs s.documents ≡ tabs (normalize_live_documents documents)
      pub has_editors : All (HasEditor o client_id s) s.documents
      pub at_revision : s.metadata_revision ≡ metadata_revision
      pub has_active : (has_document s.active s.documents ≡ true) ⊎ (s.documents ≡ [])
      pub is_safe :
          (entry : String × Editor)
          → IsUnsent o client_id accepted (normalize_live_documents documents) entry
          → IsIn entry r.editors
          → s.recovering ≡ true

    keep_active-fields :
        (s : Room Editor)
        → ((keep_active s).documents ≡ s.documents)
          × ((keep_active s).editors ≡ s.editors)
          × ((keep_active s).metadata_revision ≡ s.metadata_revision)
          × ((keep_active s).recovering ≡ s.recovering)
    unfolding keep_active
    keep_active-fields s = (ground arith, ground arith, ground arith, ground arith)

    keep_active-active :
        (ds : List RoomDocument) (s : Room Editor)
        → s.documents ≡ ds
        → (has_document (keep_active s).active ds ≡ true) ⊎ (ds ≡ [])
    unfolding keep_active first_id has_document
    keep_active-active [] s e = inr refl
    keep_active-active (d ∷ ds) s e = inl (ground (arith, e, eq_refl d.id))

    abbrev merged : Room Editor → Room Editor
    merged s =
        let (ds, t) = merge_documents o client_id next s in
        record t {
          documents = ds;
          pending_order = none;
          metadata_revision =
              if ltb t.metadata_revision metadata_revision
              then metadata_revision
              else t.metadata_revision;
        }

    adopt_snapshot-merged :
        (s : Room Editor)
        → adopt_snapshot o client_id next metadata_revision s ≡ keep_active (merged s)
    unfolding adopt_snapshot
    adopt_snapshot-merged s = refl

    adopt_snapshot-Adopted :
        (s : Room Editor)
        → ltb metadata_revision s.metadata_revision ≡ false
        → ((entry : String × Editor)
            → IsUnsent o client_id accepted next entry
            → IsIn entry r.editors
            → s.recovering ≡ true)
        → Adopted (adopt_snapshot o client_id next metadata_revision s)
    adopt_snapshot-Adopted s low safe =
        let m = merge_documents-IsMerged o client_id next s in
        let (a, b, c, d) = keep_active-fields (merged s) in
        let ds = (merge_documents o client_id next s).0 in
        let editors : All (HasEditor o client_id (keep_active (merged s))) ds =
          subst
            (λ es.
              All
                (λ (x : RoomDocument).
                  (e : Editor) × (lookup x.id es ≡ some e)
                  × (x.content ≡ o.text e)
                  × (x.revision ≡ o.synced_version e))
                ds)
            (sym b) m.have_editors in
        subst Adopted (sym (adopt_snapshot-merged s)) (record {
          has_tabs = ap tabs a ∙ m.merged_tabs;
          has_editors =
              subst (All (HasEditor o client_id (keep_active (merged s)))) (sym a) editors;
          at_revision = c ∙ ground (arith, m.kept.same_revision);
          has_active = elim (keep_active-active ds (merged s) refl) [
            | inl h ↦ inl (ap (has_document (keep_active (merged s)).active) a ∙ h)
            | inr h ↦ inr (a ∙ h)
          ];
          is_safe = λ entry u i. d ∙ m.kept.stays_recovering (safe entry u i);
        })

    not_behind :
        (known snapshot : Authority)
        → snapshot_can_reconcile known snapshot ≡ true
        → ltb snapshot.metadata_revision known.metadata_revision ≡ false
    unfolding snapshot_can_reconcile
    not_behind known snapshot h = ground arith

    abbrev pub snapshot : Authority
    snapshot = capture_authority metadata_revision (snapshot_revisions next)

    abbrev pub may_reconcile : Bool
    may_reconcile =
        snapshot_can_reconcile requested snapshot
        && snapshot_can_reconcile (current_revision_authority o client_id r) snapshot

    abbrev pub settled : Room Editor
    settled = settle_accepted accepted r.tracker r

    abbrev pub looped : Applied × Room Editor
    looped = reconcile_editors o client_id accepted next settled.editors settled

    pub reconcile_snapshot-refused :
        may_reconcile ≡ false
        → reconcile_snapshot o client_id documents metadata_revision requested accepted r ≡ (gap, r)
    unfolding reconcile_snapshot
    reconcile_snapshot-refused h = ground arith

    pub reconcile_snapshot-adopted :
        may_reconcile ≡ true
        → looped.0 ≡ applied
        → reconcile_snapshot o client_id documents metadata_revision requested accepted r
          ≡ (applied, adopt_snapshot o client_id next metadata_revision looped.1)
    unfolding reconcile_snapshot
    reconcile_snapshot-adopted h a = ground arith

    pub reconcile_snapshot-stopped :
        may_reconcile ≡ true
        → (reconcile_snapshot o client_id documents metadata_revision requested accepted r).0
          ≡ looped.0
    unfolding reconcile_snapshot
    reconcile_snapshot-stopped h = elim (Applied-cases looped.0) [
      | inl a ↦ ground arith
      | inr (inl a) ↦ ground arith
      | inr (inr a) ↦ ground arith
    ]

    current_revision_authority-metadata :
        (current_revision_authority o client_id r).metadata_revision ≡ r.metadata_revision
    unfolding current_revision_authority capture_authority
    current_revision_authority-metadata = refl

    looped-Adopted :
        may_reconcile ≡ true
        → looped.0 ≡ applied
        → Adopted (adopt_snapshot o client_id next metadata_revision looped.1)
    unfolding capture_authority
    looped-Adopted may a =
        let known = current_revision_authority o client_id r in
        let first = settle_accepted-Keeps accepted r.tracker r in
        let kept =
          Keeps-twice first
            (reconcile_editors-Keeps o client_id accepted next settled.editors settled) in
        let low : ltb metadata_revision known.metadata_revision ≡ false =
          not_behind known snapshot (ground arith) in
        let same = current_revision_authority-metadata in
        adopt_snapshot-Adopted looped.1
          (ap (λ n. ltb metadata_revision n) (kept.same_revision ∙ sym same) ∙ low)
          (λ entry u i.
            turns-unsent o client_id accepted next settled.editors settled entry u
              (subst (IsIn entry) (sym (settle_accepted-editors accepted r.tracker r)) i) a)

    -- A snapshot that was reconciled is adopted, as `Adopted` says. Where the editors stand is in CaughtUp.
    pub reconcile_snapshot-Adopted :
        (reconcile_snapshot o client_id documents metadata_revision requested accepted r).0
          ≡ applied
        → Adopted
            (reconcile_snapshot o client_id documents metadata_revision requested accepted r).1
    reconcile_snapshot-Adopted h = elim (Bool-cases may_reconcile) [
      | inr e ↦
          let refused = ap (λ (p : Applied × Room Editor). p.0) (reconcile_snapshot-refused e) in
          absurd (cc (sym refused ∙ h))
      | inl e ↦
          let a = sym (reconcile_snapshot-stopped e) ∙ h in
          subst (λ (p : Applied × Room Editor). Adopted p.1) (sym (reconcile_snapshot-adopted e a))
            (looped-Adopted e a)
    ]
