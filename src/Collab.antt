-- ===== src/Collab.antt =====
-- web/src/live-collab.ts: the diff that turns one text of a document into another, and the updates that
-- stand for a snapshot. Texts are lists of UTF-16 units.
pub mod Units
pub mod Diff
mod Tests
use xbin.Common.{
  ℕ, zero, suc, ◌+◌, ◌-◌, min, Bool, true, false, Option, none, some, List, [], ◌∷◌, ◌==◌, leb,
  if◌then◌else◌, length, take, drop,
}

-- What ChangeSet.empty and ChangeSet.of are called with; the last number is the length of the text.
pub data Change : Type 0 where
  empty : ℕ → Change
  range : (from to : ℕ) → (insert : List ℕ) → ℕ → Change

-- `text.charCodeAt(index)`, `none` for NaN
pub unit_at : List ℕ → ℕ → Option ℕ
unit_at [] i = none
unit_at (u ∷ us) zero = some u
unit_at (u ∷ us) (suc i) = unit_at us i

-- `===` on units; NaN is not equal to itself.
abbrev pub same_unit : Option ℕ → Option ℕ → Bool
same_unit (some u) (some v) = u == v
same_unit _ _ = false

-- `===` on texts
pub same_text : List ℕ → List ℕ → Bool
same_text [] [] = true
same_text (u ∷ us) (v ∷ vs) = let rest = same_text us vs in if u == v then rest else false
same_text _ _ = false

module _ (from_text to_text : List ℕ) where
  -- The first loop: `left` is the limit less the prefix.
  pub prefix_loop : (left prefix : ℕ) → ℕ
  unfolding unit_at
  prefix_loop zero prefix = prefix
  prefix_loop (suc left) prefix =
      let rest = prefix_loop left (suc prefix) in
      if same_unit (unit_at from_text prefix) (unit_at to_text prefix) then rest else prefix

  -- The second loop: `left` is what the two bounds leave to the suffix.
  pub suffix_loop : (left suffix : ℕ) → ℕ
  unfolding unit_at
  suffix_loop zero suffix = suffix
  suffix_loop (suc left) suffix =
      let rest = suffix_loop left (suc suffix) in
      if same_unit (unit_at from_text (length from_text - suffix - 1))
        (unit_at to_text (length to_text - suffix - 1))
      then rest
      else suffix

  pub common_prefix : ℕ
  unfolding prefix_loop
  common_prefix = prefix_loop (min (length from_text) (length to_text)) 0

  pub common_suffix : ℕ → ℕ
  unfolding suffix_loop
  common_suffix prefix = suffix_loop (min (length from_text - prefix) (length to_text - prefix)) 0

  -- diffLiveDocuments
  pub diff_live_documents : Change
  unfolding same_text common_prefix common_suffix
  diff_live_documents =
      if same_text from_text to_text
      then empty (length from_text)
      else (let prefix = common_prefix in
          let suffix = common_suffix prefix in
          range prefix (length from_text - suffix)
            (take (length to_text - suffix - prefix) (drop prefix to_text)) (length from_text))
