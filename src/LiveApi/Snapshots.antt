-- ===== src/LiveApi/Snapshots.antt =====
-- What is known of a snapshot and of a configuration that were accepted.
use mathlib.Core.List.{Perm}
use mathlib.Core.Option.{some-injective}
use xbin.Common.{
  ℕ, suc, String, ◌≤◌, ◌<◌, ◌≡◌, refl, subst, ap, Bool, true, false, Option, some, List, [], ◌∷◌,
  All, leb, ◌>>=◌, ◌>>◌, require, arith, length, map_all, bind_some, require-true, utf16_length,
  if◌then◌else◌,
}
use xbin.Json.{Value, Fields, property, has_property, as_string, as_boolean, max_safe}
use xbin.Wire.Parts.{as_record, as_array, nonnegative_integer}
use xbin.Wire.Sound.{nonnegative_integer-le, map_all-All}
use xbin.LiveApi.{Document, ServiceConfig, RoomSnapshot}
use xbin.LiveApi.Decode.{
  positive_integer, limits_in, document_in, operation_id, operation_ids, by_position, room_snapshot,
}
use xbin.LiveApi.Sorted.{IsSorted, by_position-IsSorted, by_position-Perm}

pub record IsLimits (c : ServiceConfig) : Type 0 where
  pub bytes : 0 < c.max_bytes
  pub tabs : 0 < c.max_tabs
  pub writers : 0 < c.max_writers
  pub participants : 0 < c.max_participants
  pub lifetime : 0 < c.room_lifetime_seconds

pub record IsSafeDocument (d : Document) : Type 0 where
  pub safe_revision : d.revision ≤ max_safe
  pub safe_position : d.position ≤ max_safe
  pub safe_snapshot : d.snapshot_revision ≤ max_safe

pub record IsOperationId (id : String) : Type 0 where
  pub id_some : 1 ≤ utf16_length id
  pub id_short : utf16_length id ≤ 128

-- The limits are positive (that of viewers may be 0), the revisions safe integers, the documents those
-- of the response, in the order of their positions, and the accepted operations at most 64.
pub record IsSnapshot (v : Value) (s : RoomSnapshot) : Type 0 where
  pub snapshot_revision : s.metadata_revision ≤ max_safe
  pub snapshot_limits : IsLimits s.limits
  pub snapshot_documents :
      (fs : Fields) × (vs : List Value) × (ds : List Document) × (as_record v ≡ some fs)
      × (as_array (property "documents" fs) ≡ some vs)
      × (map_all document_in vs ≡ some ds)
      × Perm s.documents ds
      × All IsSafeDocument ds
  pub snapshot_sorted : IsSorted s.documents
  pub snapshot_ids : All IsOperationId s.accepted_operation_ids
  pub snapshot_few : length s.accepted_operation_ids ≤ 64

positive_integer-pos : (v : Value) (n : ℕ) → positive_integer v ≡ some n → 0 < n
unfolding positive_integer
positive_integer-pos v n h = ground arith

limits_in-IsLimits : (fs : Fields) (c : ServiceConfig) → limits_in fs ≡ some c → IsLimits c
unfolding limits_in
limits_in-IsLimits fs c h = record {
  bytes = ground (arith, positive_integer-pos (property "max_bytes" fs) c.max_bytes);
  tabs = ground (arith, positive_integer-pos (property "max_tabs" fs) c.max_tabs);
  writers = ground (arith, positive_integer-pos (property "max_writers" fs) c.max_writers);
  participants =
      ground (arith, positive_integer-pos (property "max_participants" fs) c.max_participants);
  lifetime =
      ground
        (arith, positive_integer-pos (property "room_lifetime_seconds" fs) c.room_lifetime_seconds);
}

document_in-IsSafe : (v : Value) (d : Document) → document_in v ≡ some d → IsSafeDocument d
unfolding document_in
document_in-IsSafe v d h = ground arith

operation_id-IsOperationId : (v : Value) (id : String) → operation_id v ≡ some id → IsOperationId id
unfolding operation_id
operation_id-IsOperationId v id h = ground arith

length-map_all :
    {A : Type 0} (f : Value → Option A) (vs : List Value) (xs : List A)
    → map_all f vs ≡ some xs
    → length xs ≡ length vs
length-map_all f [] [] h = refl
length-map_all f [] (x ∷ xs) h = absurd (cc h)
length-map_all f (v ∷ vs) [] h = absurd (ground arith)
length-map_all f (v ∷ vs) (x ∷ xs) h = ap suc (length-map_all f vs xs (ground arith))

few_ids :
    (b : Bool) (o : Option (List Value)) (ids : List String)
    → (if b then (do vs ← o; require (leb (length vs) 64); map_all operation_id vs) else some [])
      ≡ some ids
    → All IsOperationId ids × (length ids ≤ 64)
few_ids true o ids h =
    bind_some o _
      (λ vs e h.
        let (few, h') = require-true (leb (length vs) 64) _ h in
        let same = length-map_all operation_id vs ids h' in
        (map_all-All IsOperationId operation_id operation_id-IsOperationId vs ids h', ground arith))
      h
few_ids false o ids h =
    subst (λ l. All IsOperationId l × (length l ≤ 64)) (some-injective _ _ h) (tt, omega arith)

operation_ids-good :
    (fs : Fields) (ids : List String)
    → operation_ids fs ≡ some ids
    → All IsOperationId ids × (length ids ≤ 64)
unfolding operation_ids
operation_ids-good fs ids h =
    few_ids (has_property "accepted_operation_ids" fs)
      (as_array (property "accepted_operation_ids" fs)) ids h

-- The last steps of a snapshot, for a response whose first properties are there.
listed-IsSnapshot :
    (v : Value) (fs : Fields) (slug expires_at : String) (password_required : Bool) (revision : ℕ)
    (s : RoomSnapshot)
    → as_record v ≡ some fs
    → revision ≤ max_safe
    → (do
      limits ← limits_in fs
      values ← as_array (property "documents" fs)
      documents ← map_all document_in values
      accepted ← operation_ids fs
      some (record {
        slug = slug;
        expires_at = expires_at;
        password_required = password_required;
        metadata_revision = revision;
        limits = limits;
        documents = by_position documents;
        accepted_operation_ids = accepted;
      }))
      ≡ some s
    → IsSnapshot v s
listed-IsSnapshot v fs slug expires_at password_required revision s e low h =
    bind_some (limits_in fs) _
      (λ limits e1 h.
        bind_some (as_array (property "documents" fs)) _
          (λ vs e2 h.
            bind_some (map_all document_in vs) _
              (λ ds e3 h.
                bind_some (operation_ids fs) _
                  (λ ids e4 h.
                    let (good, few) = operation_ids-good fs ids e4 in
                    let safe = map_all-All IsSafeDocument document_in document_in-IsSafe vs ds e3 in
                    subst (IsSnapshot v) (some-injective _ _ h) (record {
                      snapshot_revision = low;
                      snapshot_limits = limits_in-IsLimits fs limits e1;
                      snapshot_documents = (fs, vs, ds, e, e2, e3, by_position-Perm ds, safe);
                      snapshot_sorted = by_position-IsSorted ds;
                      snapshot_ids = good;
                      snapshot_few = few;
                    }))
                  h)
              h)
          h)
      h

-- A snapshot that is made of a response: its revision and those of its documents are safe integers, its limits
-- are positive, its documents are those of the response in the order of their positions, and its accepted operations
-- are at most 64, with ids of 1 to 128 code units.
pub room_snapshot-IsSnapshot :
    (v : Value) (s : RoomSnapshot) → room_snapshot v ≡ some s → IsSnapshot v s
unfolding room_snapshot
room_snapshot-IsSnapshot v s h =
    bind_some (as_record v) _
      (λ fs e h.
        bind_some (as_string (property "slug" fs)) _
          (λ slug _ h.
            bind_some (as_string (property "expires_at" fs)) _
              (λ expires_at _ h.
                bind_some (as_boolean (property "password_required" fs)) _
                  (λ password_required _ h.
                    bind_some (nonnegative_integer (property "metadata_revision" fs)) _
                      (λ n low h.
                        bind_some (nonnegative_integer (property "metadata_snapshot_revision" fs)) _
                          (λ _ _ h.
                            listed-IsSnapshot v fs slug expires_at password_required n s e
                              (nonnegative_integer-le (property "metadata_revision" fs) n low) h)
                          h)
                      h)
                  h)
              h)
          h)
      h
