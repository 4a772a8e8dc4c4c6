-- ===== src/Wire/Sound.antt =====
-- Whatever the decoder accepts is a valid event.
use xbin.Common.{
  ◌>>=◌, ◌>>◌, require, Bool, ℕ, ◌≤◌, ◌≡◌, refl, String, true, Option, none, some, List, [], ◌∷◌,
  All, map_all, arith, eq_iff, bind_some, subst,
}
use mathlib.Core.Option.{some-injective}
use xbin.Json.{
  array, end, as_boolean, string, object, Value, max_safe, items, as_string, property, undefined,
  Fields,
}
use xbin.Wire.Types.{
  AccessClass, ParticipantStatus, Cursor, ConnectionCursor, Participant, DocumentRevision,
  RoomDocument,
}
use xbin.Wire.Parts.{
  participant_status, participant_access_class, count_fits, nonnegative_integer, optional, truthy,
  timestamp, decode_cursor, decode_connection_cursor, decode_document, decode_revisions,
  decode_participant, decode_cursors,
}
use xbin.Wire.Valid.{Holds, IsCursor, IsDocument, new_ids, IsIso, IsParticipant}

pub nonnegative_integer-le : (v : Value) (n : ℕ) → nonnegative_integer v ≡ some n → n ≤ max_safe
nonnegative_integer-le v n h = ground arith

decode_cursor-IsCursor : (v : Value) (c : Cursor) → decode_cursor v ≡ some c → IsCursor c
unfolding decode_cursor
decode_cursor-IsCursor v c h = ground arith

decode_connection_cursor-IsCursor :
    (v : Value) (c : ConnectionCursor) → decode_connection_cursor v ≡ some c → IsCursor c.cursor
unfolding decode_connection_cursor
decode_connection_cursor-IsCursor v c h = ground (arith, decode_cursor-IsCursor v c.cursor)

pub decode_document-IsDocument :
    (v : Value) (d : RoomDocument) → decode_document v ≡ some d → IsDocument d
unfolding decode_document
decode_document-IsDocument v d h = ground arith

pub map_all-All {ℓ κ} :
    {A : Type ℓ} (P : A → Type κ) (f : Value → Option A)
    → ((v : Value) (a : A) → f v ≡ some a → P a)
    → (vs : List Value) (xs : List A) → map_all f vs ≡ some xs
    → All P xs
map_all-All P f sound [] [] h = tt
map_all-All P f sound [] (x ∷ xs) h = absurd (cc h)
map_all-All P f sound (v ∷ vs) [] h = absurd (ground arith)
map_all-All P f sound (v ∷ vs) (x ∷ xs) h =
    (sound v x (ground arith), map_all-All P f sound vs xs (ground arith))

pub decode_revisions-safe :
    (seen : List String) (vs : List Value) (ds : List DocumentRevision)
    → decode_revisions seen vs ≡ some ds
    → All (λ (d : DocumentRevision). d.revision ≤ max_safe) ds
unfolding decode_revisions
decode_revisions-safe seen [] [] h = tt
decode_revisions-safe seen [] (d ∷ ds) h = absurd (cc h)
decode_revisions-safe seen (v ∷ vs) [] h = absurd (ground arith)
decode_revisions-safe seen (v ∷ vs) (d ∷ ds) h =
    (ground arith, decode_revisions-safe (d.document_id ∷ seen) vs ds (ground arith))

pub decode_revisions-new_ids :
    (seen : List String) (vs : List Value) (ds : List DocumentRevision)
    → decode_revisions seen vs ≡ some ds
    → new_ids seen ds ≡ true
unfolding decode_revisions
decode_revisions-new_ids seen [] [] h = refl
decode_revisions-new_ids seen [] (d ∷ ds) h = absurd (cc h)
decode_revisions-new_ids seen (v ∷ vs) [] h = absurd (ground arith)
decode_revisions-new_ids seen (v ∷ vs) (d ∷ ds) h =
    let rest : decode_revisions (d.document_id ∷ seen) vs ≡ some ds = ground arith in
    ground (arith, decode_revisions-new_ids (d.document_id ∷ seen) vs ds rest)

pub optional-Holds {ℓ κ} :
    {A : Type ℓ} (P : A → Type κ) (f : Value → Option A)
    → ((v : Value) (a : A) → f v ≡ some a → P a)
    → (v : Value) (o : Option A) → optional f v ≡ some o
    → Holds P o
optional-Holds P f sound v none h = tt
optional-Holds P f sound undefined (some a) h = absurd (ground arith)
optional-Holds P f sound v (some a) h = sound v a (ground arith)

module _ (to_iso : String → Option String)
    (idempotent : (s t : String) → to_iso s ≡ some t → to_iso t ≡ some t) where
  pub timestamp-IsIso :
      (v : Value) (t : String) → truthy (timestamp to_iso v) ≡ some t → IsIso to_iso t
  timestamp-IsIso (string s) t h = record {
    fixed = idempotent s t (ground arith);
    some_text = ground (arith, eq_iff t "");
  }
  timestamp-IsIso _ t h = absurd (cc h)

  -- What the chain of decodeParticipant has found when it succeeds on the properties `fs`.
  abbrev Found : Fields → Participant → Type 0
  Found fs p =
      (truthy (timestamp to_iso (property "joined_at" fs)) ≡ some p.joined_at)
      × (truthy (timestamp to_iso (property "last_seen_at" fs)) ≡ some p.last_seen_at)
      × (optional decode_cursor (property "cursor" fs) ≡ some p.cursor)
      × (decode_cursors (property "cursors" fs) ≡ some p.cursors)
      × (nonnegative_integer (property "connection_count" fs) ≡ some p.connection_count)
      × (count_fits p.status p.connection_count ≡ true)

  -- Its last steps, after those whose results nothing more is known of.
  last_parts :
      (fs : Fields) (id nickname color tab : String) (status : ParticipantStatus)
      (class : AccessClass) (can_edit : Bool) (p : Participant)
      → (do
        joined ← truthy (timestamp to_iso (property "joined_at" fs))
        seen ← truthy (timestamp to_iso (property "last_seen_at" fs))
        cursor ← optional decode_cursor (property "cursor" fs)
        cursors ← decode_cursors (property "cursors" fs)
        count ← nonnegative_integer (property "connection_count" fs)
        require (count_fits status count)
        some (record {
          id = id;
          nickname = nickname;
          access_class = class;
          can_edit = can_edit;
          connection_count = count;
          color = color;
          current_tab = tab;
          joined_at = joined;
          last_seen_at = seen;
          cursor = cursor;
          cursors = cursors;
          status = status;
        }))
        ≡ some p
      → Found fs p
  last_parts fs id nickname color tab status class can_edit p h = ground arith

  participant_parts :
      (fs : Fields) (p : Participant) → decode_participant to_iso (object fs) ≡ some p → Found fs p
  unfolding decode_participant
  participant_parts fs p h =
      bind_some (as_string (property "id" fs)) _
        (λ id e h.
          bind_some (as_string (property "nickname" fs)) _
            (λ nickname e h.
              bind_some (as_string (property "color" fs)) _
                (λ color e h.
                  bind_some (as_string (property "current_tab" fs)) _
                    (λ tab e h.
                      bind_some (participant_status (property "status" fs)) _
                        (λ status e h.
                          bind_some (participant_access_class (property "access_class" fs)) _
                            (λ class e h.
                              bind_some (as_boolean (property "can_edit" fs)) _
                                (λ can_edit e h.
                                  last_parts fs id nickname color tab status class can_edit p h)
                                h)
                            h)
                        h)
                    h)
                h)
            h)
        h

  decode_cursors-All :
      (v : Value) (cs : List ConnectionCursor)
      → decode_cursors v ≡ some cs
      → All (λ (c : ConnectionCursor). IsCursor c.cursor) cs
  unfolding decode_cursors
  decode_cursors-All undefined cs h = subst (All _) (some-injective _ _ h) tt
  decode_cursors-All (array vs) cs h =
      map_all-All (λ (c : ConnectionCursor). IsCursor c.cursor) decode_connection_cursor
        decode_connection_cursor-IsCursor (items vs) cs h
  decode_cursors-All _ cs h = absurd (cc h)

  fields-IsParticipant :
      (fs : Fields) (p : Participant)
      → decode_participant to_iso (object fs) ≡ some p
      → IsParticipant to_iso p
  fields-IsParticipant fs p h =
      let (joined_at, last_seen_at, cursor, cursors, count, fits) = participant_parts fs p h in
      record {
        count = nonnegative_integer-le (property "connection_count" fs) p.connection_count count;
        fits = fits;
        joined_at = timestamp-IsIso (property "joined_at" fs) p.joined_at joined_at;
        last_seen_at = timestamp-IsIso (property "last_seen_at" fs) p.last_seen_at last_seen_at;
        cursor =
            optional-Holds IsCursor decode_cursor decode_cursor-IsCursor (property "cursor" fs)
              p.cursor cursor;
        cursors = decode_cursors-All (property "cursors" fs) p.cursors cursors;
      }

  pub decode_participant-IsParticipant :
      (v : Value) (p : Participant) → decode_participant to_iso v ≡ some p → IsParticipant to_iso p
  decode_participant-IsParticipant (object fs) p h = fields-IsParticipant fs p h
  decode_participant-IsParticipant (array vs) p h =
      fields-IsParticipant end p (unfold decode_participant in h)
  decode_participant-IsParticipant _ p h = absurd (unfold decode_participant in cc h)
