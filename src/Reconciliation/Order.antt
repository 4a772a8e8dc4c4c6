-- ===== src/Reconciliation/Order.antt =====
-- What the reconciliation test decides, and how it orders the authorities.
use xbin.Common.{
  ℕ, ◌≤◌, ◌<◌, ◌≡◌, refl, ap, subst, ◌↔◌, inl, inr, String, true, Option, none, some, List, [], ◌∷◌,
  arith, All, Bool-cases, Option-cases, str_eq, eq_iff,
}
use mathlib.Core.Path.{subst₂}
use xbin.Reconciliation.{
  Revision, Authority, revision_of, document_ok, documents_ok, snapshot_can_reconcile,
}

-- The snapshot has the document at its revision or later, or its metadata moved on without it.
abbrev pub Covered : ℕ → ℕ → ℕ → Option ℕ → Type 0
Covered before after known none = before < after
Covered before after known (some r) = known ≤ r

module _ (current snapshot : Authority) where
  abbrev pub IsCovered : Revision → Type 0
  IsCovered d =
      Covered current.metadata_revision snapshot.metadata_revision d.revision
        (revision_of d.id snapshot.documents)

  pub record Advances : Type 0 where
    pub metadata : current.metadata_revision ≤ snapshot.metadata_revision
    pub documents : All IsCovered current.documents

  document_ok_sound : (d : Revision) → document_ok current snapshot d ≡ true → IsCovered d
  unfolding document_ok
  document_ok_sound d h = elim (Option-cases (revision_of d.id snapshot.documents)) [
    | inl e ↦ rw e (ground arith)
    | inr (r, e) ↦ rw e (ground arith)
  ]

  document_ok_complete : (d : Revision) → IsCovered d → document_ok current snapshot d ≡ true
  unfolding document_ok
  document_ok_complete d h = elim (Option-cases (revision_of d.id snapshot.documents)) [
    | inl e ↦ let h' = rw e at h in ground arith
    | inr (r, e) ↦ let h' = rw e at h in ground arith
  ]

  documents_ok_sound :
      (ds : List Revision) → documents_ok current snapshot ds ≡ true → All IsCovered ds
  unfolding documents_ok
  documents_ok_sound [] h = tt
  documents_ok_sound (d ∷ ds) h =
      (document_ok_sound d (ground arith), documents_ok_sound ds (ground arith))

  documents_ok_complete :
      (ds : List Revision) → All IsCovered ds → documents_ok current snapshot ds ≡ true
  unfolding documents_ok
  documents_ok_complete [] h = refl
  documents_ok_complete (d ∷ ds) (h, hs) =
      rw (document_ok_complete d h) (documents_ok_complete ds hs)

  -- A snapshot is accepted exactly when its metadata revision is not behind, and each known document
  -- is in it at its revision or a later one, or is missing under a later metadata revision.
  pub snapshot_can_reconcile_iff : (snapshot_can_reconcile current snapshot ≡ true) ↔ Advances
  unfolding snapshot_can_reconcile
  snapshot_can_reconcile_iff = (
    λ h. record {
      metadata = ground arith;
      documents = documents_ok_sound current.documents (ground arith);
    },
    λ h. ground (arith, documents_ok_complete current.documents h.documents),
  )

-- What holds of every entry holds of the entry that counts for its id.
All-revision_of :
    (P : String → ℕ → Type 0) (ds : List Revision)
    → All (λ (d : Revision). P d.id d.revision) ds
    → (id : String) (r : ℕ) → revision_of id ds ≡ some r
    → P id r
unfolding revision_of
All-revision_of P [] h id r e = cc
All-revision_of P (d ∷ ds) (h, hs) id r e = elim (Option-cases (revision_of id ds)) [
  | inl missing ↦ elim (Bool-cases (str_eq d.id id)) [
    | inl same ↦ let e' : d.revision ≡ r = ground arith in subst₂ P ((eq_iff d.id id).0 same) e' h
    | inr differ ↦ absurd (ground arith)
  ]
  | inr (r', found) ↦
      let e' : r' ≡ r = ground arith in subst (P id) e' (All-revision_of P ds hs id r' found)
]

-- No id stands twice: every entry is the one that counts.
abbrev pub IsMap : Authority → Type 0
IsMap a = All (λ (d : Revision). revision_of d.id a.documents ≡ some d.revision) a.documents

-- An authority without a repeated id may replace itself.
snapshot_can_reconcile_refl : (a : Authority) → IsMap a → snapshot_can_reconcile a a ≡ true
snapshot_can_reconcile_refl a m =
    (snapshot_can_reconcile_iff a a).1
      (record { metadata = omega arith; documents = covered a.documents m })
  where
    covered :
        (ds : List Revision)
        → All (λ (d : Revision). revision_of d.id a.documents ≡ some d.revision) ds
        → All (IsCovered a a) ds
    covered [] h = tt
    covered (d ∷ ds) (h, hs) = (rw h (omega arith), covered ds hs)

Covered-trans :
    (na nb nc k : ℕ) (inb inc : Option ℕ)
    → na ≤ nb
    → nb ≤ nc
    → Covered na nb k inb
    → ((r : ℕ) → inb ≡ some r → Covered nb nc r inc)
    → (inb ≡ none → inc ≡ none)
    → Covered na nc k inc
Covered-trans na nb nc k none none p q h g stays = omega arith
Covered-trans na nb nc k none (some r) p q h g stays = absurd (cc (stays refl))
Covered-trans na nb nc k (some r) none p q h g stays = omega (arith, g r refl)
Covered-trans na nb nc k (some r) (some r') p q h g stays = omega (arith, g r refl)

module _ (a b c : Authority) where
  -- Snapshots that are accepted one after the other: the last could have replaced the first at once,
  -- unless a document comes back that the one between had not.
  pub snapshot_can_reconcile_trans :
      snapshot_can_reconcile a b ≡ true
      → snapshot_can_reconcile b c ≡ true
      → ((id : String) → revision_of id b.documents ≡ none → revision_of id c.documents ≡ none)
      → snapshot_can_reconcile a c ≡ true
  snapshot_can_reconcile_trans h k stays =
      let ab = (snapshot_can_reconcile_iff a b).0 h in
      let bc = (snapshot_can_reconcile_iff b c).0 k in
      (snapshot_can_reconcile_iff a c).1 (record {
        metadata = omega arith;
        documents = covered a.documents ab.documents ab.metadata bc;
      })
    where
      covered :
          (ds : List Revision)
          → All (IsCovered a b) ds
          → a.metadata_revision ≤ b.metadata_revision
          → Advances b c
          → All (IsCovered a c) ds
      covered [] h p bc = tt
      covered (d ∷ ds) (h, hs) p bc = (
        Covered-trans _ _ _ d.revision (revision_of d.id b.documents) (revision_of d.id c.documents)
            p bc.metadata h
            (All-revision_of
              (λ id r.
                Covered b.metadata_revision c.metadata_revision r (revision_of id c.documents))
              b.documents bc.documents d.id)
            (stays d.id),
        covered ds hs p bc,
      )

-- What `Advances` says of one id.
Covered-at :
    (a b : Authority)
    → Advances a b
    → (id : String) (r : ℕ) (inb : Option ℕ) → revision_of id a.documents ≡ some r
    → revision_of id b.documents ≡ inb
    → Covered a.metadata_revision b.metadata_revision r inb
Covered-at a b ab id r inb e f = subst (Covered a.metadata_revision b.metadata_revision r) f (
    All-revision_of
      (λ id r. Covered a.metadata_revision b.metadata_revision r (revision_of id b.documents))
      a.documents ab.documents id r e)

agree :
    (a b : Authority)
    → Advances a b
    → Advances b a
    → (id : String) (ra rb : Option ℕ) → revision_of id a.documents ≡ ra
    → revision_of id b.documents ≡ rb
    → ra ≡ rb
agree a b ab ba id none none e f = refl
agree a b ab ba id (some r) none e f =
    absurd (omega (arith, ba.metadata, Covered-at a b ab id r none e f))
agree a b ab ba id none (some r) e f =
    absurd (omega (arith, ab.metadata, Covered-at b a ba id r none f e))
agree a b ab ba id (some r) (some q) e f =
    let same : r ≡ q =
      omega (arith, Covered-at a b ab id r (some q) e f, Covered-at b a ba id q (some r) f e) in
    ap some same

-- Two snapshots that may each replace the other have one metadata revision, and for every id the
-- same revision or no document on both sides: neither can roll the other back.
pub snapshot_can_reconcile_antisym :
    (a b : Authority)
    → snapshot_can_reconcile a b ≡ true
    → snapshot_can_reconcile b a ≡ true
    → (a.metadata_revision ≡ b.metadata_revision)
      × ((id : String) → revision_of id a.documents ≡ revision_of id b.documents)
snapshot_can_reconcile_antisym a b h k =
    let ab = (snapshot_can_reconcile_iff a b).0 h in
    let ba = (snapshot_can_reconcile_iff b a).0 k in
    (omega (arith, ab.metadata, ba.metadata), λ id. agree a b ab ba id _ _ refl refl)
