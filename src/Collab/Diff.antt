-- ===== src/Collab/Diff.antt =====
-- The diff of two texts: its range is in the first, and applying it gives the second.
use xbin.Common.{
  ℕ, zero, suc, ◌+◌, ◌-◌, ◌≤◌, ◌≡◌, refl, ap, sym, ◌∙◌, min, true, not, List, ◌++◌, ◌==◌, arith,
  length, take, drop, all, take-append-drop, if-split,
}
use xbin.Collab.{
  Change, empty, range, unit_at, same_unit, same_text, prefix_loop, suffix_loop, common_prefix,
  common_suffix, diff_live_documents,
}
use xbin.Collab.Units.{take_more, drop_more, drop_all, drop-drop, all-take, all-drop, same_text-eq}

module _ (from_text to_text : List ℕ) where
  -- The prefix is one of both texts.
  pub record IsPrefix (k : ℕ) : Type 0 where
    pub prefix_from : k ≤ length from_text
    pub prefix_to : k ≤ length to_text
    pub prefix_same : take k from_text ≡ take k to_text

  -- The suffix is one of both texts and does not meet the prefix `p`.
  pub record IsSuffix (p k : ℕ) : Type 0 where
    pub suffix_from : p + k ≤ length from_text
    pub suffix_to : p + k ≤ length to_text
    pub suffix_same : drop (length from_text - k) from_text ≡ drop (length to_text - k) to_text

  prefix_loop-IsPrefix :
      (left k : ℕ)
      → k + left ≤ length from_text
      → k + left ≤ length to_text
      → IsPrefix k
      → IsPrefix (prefix_loop from_text to_text left k)
  unfolding prefix_loop
  prefix_loop-IsPrefix zero k a b h = h
  prefix_loop-IsPrefix (suc left) k a b h =
      if-split IsPrefix {x = prefix_loop from_text to_text left (suc k)} {y = k}
        (same_unit (unit_at from_text k) (unit_at to_text k))
        (λ e.
          let next : IsPrefix (suc k) = record {
            prefix_from = omega arith;
            prefix_to = omega arith;
            prefix_same = take_more k from_text to_text h.prefix_same e;
          } in
          prefix_loop-IsPrefix left (suc k) (omega arith) (omega arith) next)
        (λ e. h)

  suffix_loop-IsSuffix :
      (p left k : ℕ)
      → p + k + left ≤ length from_text
      → p + k + left ≤ length to_text
      → IsSuffix p k
      → IsSuffix p (suffix_loop from_text to_text left k)
  unfolding suffix_loop
  suffix_loop-IsSuffix p zero k a b h = h
  suffix_loop-IsSuffix p (suc left) k a b h =
      if-split (IsSuffix p) {x = suffix_loop from_text to_text left (suc k)} {y = k}
        (same_unit (unit_at from_text (length from_text - k - 1))
          (unit_at to_text (length to_text - k - 1)))
        (λ e.
          let i = length from_text - k - 1 in
          let j = length to_text - k - 1 in
          let ei : suc i ≡ length from_text - k = omega arith in
          let ej : suc j ≡ length to_text - k = omega arith in
          let ni : length from_text - suc k ≡ i = omega arith in
          let nj : length to_text - suc k ≡ j = omega arith in
          let after =
            ap (λ n. drop n from_text) ei ∙ h.suffix_same ∙ sym (ap (λ n. drop n to_text) ej) in
          let here = drop_more i j from_text to_text (omega arith) (omega arith) after e in
          let next : IsSuffix p (suc k) = record {
            suffix_from = omega arith;
            suffix_to = omega arith;
            suffix_same = ap (λ n. drop n from_text) ni ∙ here ∙ sym (ap (λ n. drop n to_text) nj);
          } in
          suffix_loop-IsSuffix p left (suc k) (omega arith) (omega arith) next)
        (λ e. h)

  common_prefix-IsPrefix : IsPrefix (common_prefix from_text to_text)
  unfolding common_prefix
  common_prefix-IsPrefix =
      prefix_loop-IsPrefix (min (length from_text) (length to_text)) 0 (omega arith) (omega arith)
        (record { prefix_from = omega arith; prefix_to = omega arith; prefix_same = refl })

  common_suffix-IsSuffix : (p : ℕ) → IsPrefix p → IsSuffix p (common_suffix from_text to_text p)
  unfolding common_suffix
  common_suffix-IsSuffix p h =
      suffix_loop-IsSuffix p (min (length from_text - p) (length to_text - p)) 0 (ground arith)
        (ground arith)
        (record {
          suffix_from = ground arith;
          suffix_to = ground arith;
          suffix_same =
              ap (λ n. drop n from_text) (omega arith)
              ∙ drop_all from_text
              ∙ sym (ap (λ n. drop n to_text) (omega arith) ∙ drop_all to_text);
        })

  -- The middle between a common prefix and a common suffix, put between them, gives the second text.
  joined :
      (p k : ℕ)
      → IsPrefix p
      → IsSuffix p k
      → take p from_text
          ++ (take (length to_text - k - p) (drop p to_text)
              ++ drop (length from_text - k) from_text)
        ≡ to_text
  joined p k h h' =
      let n = length to_text - k - p in
      let end : length to_text - k ≡ p + n = ground arith in
      let tail : drop (length from_text - k) from_text ≡ drop n (drop p to_text) =
        h'.suffix_same ∙ ap (λ m. drop m to_text) end ∙ sym (drop-drop n p to_text) in
      ap (λ t. take p from_text ++ (take n (drop p to_text) ++ t)) tail
      ∙ ap (λ l. take p from_text ++ l) (take-append-drop n (drop p to_text))
      ∙ ap (λ l. l ++ drop p to_text) h.prefix_same
      ∙ take-append-drop p to_text

-- `apply` is `ChangeSet.apply` on the lines of a text, joined again. The library splits what it inserts at
-- carriage returns (13) too, so the hypothesis on a change is for an insert without any.
module _ (apply : Change → List ℕ → List ℕ)
    (apply_empty : (text : List ℕ) → apply (empty (length text)) text ≡ text)
    (apply_range : (from to : ℕ) (insert text : List ℕ)
      → from ≤ to
      → to ≤ length text
      → all (λ u. not (u == 13)) insert ≡ true
      → apply (range from to insert (length text)) text
        ≡ take from text ++ (insert ++ drop to text)) where
  -- The diff of two texts, applied to the first, gives the second, if the second has no carriage return and
  -- the library applies changes as it says.
  pub apply-diff_live_documents :
      (from_text to_text : List ℕ)
      → all (λ u. not (u == 13)) to_text ≡ true
      → apply (diff_live_documents from_text to_text) from_text ≡ to_text
  unfolding diff_live_documents
  apply-diff_live_documents from_text to_text h =
      let p = common_prefix from_text to_text in
      let k = common_suffix from_text to_text p in
      let first = common_prefix-IsPrefix from_text to_text in
      let last = common_suffix-IsSuffix from_text to_text p first in
      let n = length to_text - k - p in
      if-split (λ c. apply c from_text ≡ to_text) {x = empty (length from_text)}
        {y = range p (length from_text - k) (take n (drop p to_text)) (length from_text)}
        (same_text from_text to_text)
        (λ e. apply_empty from_text ∙ same_text-eq from_text to_text e)
        (λ e.
          apply_range p (length from_text - k) (take n (drop p to_text)) from_text (ground arith)
            (omega arith)
            (all-take (λ u. not (u == 13)) n (drop p to_text)
              (all-drop (λ u. not (u == 13)) p to_text h))
          ∙ joined from_text to_text p k first last)
