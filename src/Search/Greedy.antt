-- ===== src/Search/Greedy.antt =====
-- The loop ends, and finds the matches from left to right without overlaps.
use xbin.Common.{
  ℕ, zero, suc, ◌+◌, ◌-◌, ◌≤◌, ◌<◌, min, ◌≡◌, refl, sym, ap, subst, ◌∙◌, Bool, Bool-cases, true,
  false, none, some, List, [], ◌∷◌, length, drop, arith, inl, inr, ◌⊎◌,
}
use xbin.Collab.Units.{drop-drop}
use xbin.Search.{SearchMatch, has_prefix, index_at, index_of, collect, find_search_matches}

module _ (needle : List ℕ) where
  -- The needle has_prefix at an index of the text.
  abbrev pub occurs : List ℕ → ℕ → Bool
  occurs text n = has_prefix needle (drop n text)

  record IsFirst (text : List ℕ) (i : ℕ) : Type 0 where
    pub inside : i < length text
    pub occurs_here : occurs text i ≡ true
    pub not_before : (j : ℕ) → j < i → occurs text j ≡ false

  -- From `start` on, the matches are the occurrences found from left to right, each search starting where the
  -- last match ended; after them there is none.
  unfoldable pub AreGreedy : ℕ → List ℕ → ℕ → List SearchMatch → Type 0
  AreGreedy size text start [] = (j : ℕ) → start ≤ j → occurs text j ≡ false
  AreGreedy size text start (m ∷ ms) =
      (start ≤ m.from_index)
      × (occurs text m.from_index ≡ true)
      × ((j : ℕ) → start ≤ j → j < m.from_index → occurs text j ≡ false)
      × (m.to_index ≡ m.from_index + size)
      × AreGreedy size text m.to_index ms

drop_outside : (n : ℕ) (xs : List ℕ) → length xs ≤ n → drop n xs ≡ []
drop_outside zero [] h = refl
drop_outside (suc n) [] h = refl
drop_outside zero (x ∷ xs) h = absurd (omega (arith, h))
drop_outside (suc n) (x ∷ xs) h = drop_outside n xs (omega (arith, h))

has_prefix_nothing : (u : ℕ) (us : List ℕ) (n : ℕ) → has_prefix (u ∷ us) (drop n []) ≡ false
unfolding has_prefix
has_prefix_nothing u us zero = refl
has_prefix_nothing u us (suc n) = refl

-- The indices of a text and of the text after its first unit.
absent_cons :
    (needle : List ℕ) (v : ℕ) (vs : List ℕ)
    → has_prefix needle (v ∷ vs) ≡ false
    → ((j : ℕ) → occurs needle vs j ≡ false)
    → (j : ℕ) → occurs needle (v ∷ vs) j ≡ false
absent_cons needle v vs h k zero = h
absent_cons needle v vs h k (suc j) = k j

before_cons :
    (needle : List ℕ) (v : ℕ) (vs : List ℕ) (i : ℕ)
    → has_prefix needle (v ∷ vs) ≡ false
    → ((j : ℕ) → j < i → occurs needle vs j ≡ false)
    → (j : ℕ) → j < suc i
    → occurs needle (v ∷ vs) j ≡ false
before_cons needle v vs i h k zero l = h
before_cons needle v vs i h k (suc j) l = k j (omega (arith, l))

index_at-cases :
    (u : ℕ) (us text : List ℕ) (n : ℕ)
    → ((index_at n (u ∷ us) text ≡ none) × ((j : ℕ) → occurs (u ∷ us) text j ≡ false))
      ⊎ ((i : ℕ) × (index_at n (u ∷ us) text ≡ some (n + i)) × IsFirst (u ∷ us) text i)
unfolding index_at
index_at-cases u us [] n = inl (refl, has_prefix_nothing u us)
index_at-cases u us (v ∷ vs) n = elim (Bool-cases (has_prefix (u ∷ us) (v ∷ vs))) [
  | inl e ↦ inr (
    0,
    ground (arith, e),
    record { inside = omega arith; occurs_here = e; not_before = λ j l. absurd (omega (arith, l)) },
  )
  | inr e ↦ elim (index_at-cases u us vs (suc n)) [
    | inl (a, h) ↦ inl (ground (arith, e, a), absent_cons (u ∷ us) v vs e h)
    | inr (i, a, h) ↦ inr (
      suc i,
      ground (arith, e, a),
      record {
        inside = omega (arith, h.inside);
        occurs_here = h.occurs_here;
        not_before = before_cons (u ∷ us) v vs i e h.not_before;
      },
    )
  ]
]

-- The next occurrence in the whole text, from `start` on.
record IsNext (needle text : List ℕ) (start p : ℕ) : Type 0 where
  pub within : p < length text
  pub not_less : start ≤ p
  pub occurs_there : occurs needle text p ≡ true
  pub none_between : (j : ℕ) → start ≤ j → j < p → occurs needle text j ≡ false

begin_with : (xs : List ℕ) → 0 < length xs → (v : ℕ) × (vs : List ℕ) × (xs ≡ v ∷ vs)
begin_with [] h = absurd (omega (arith, h))
begin_with (x ∷ xs) h = (x, xs, refl)

module _ (u : ℕ) (us text : List ℕ) where
  abbrev needle : List ℕ
  needle = u ∷ us

  length-drop : (n : ℕ) (xs : List ℕ) → length (drop n xs) ≡ length xs - n
  length-drop zero xs = omega arith
  length-drop (suc n) [] = omega arith
  length-drop (suc n) (x ∷ xs) = omega (arith, length-drop n xs)

  -- An index of the rest of the text is one of the text.
  from_rest :
      (first j : ℕ) → first ≤ j → occurs needle text j ≡ occurs needle (drop first text) (j - first)
  from_rest first j b =
      let e : j ≡ first + (j - first) = omega (arith, b) in
      ap (λ n. has_prefix needle (drop n text)) e
      ∙ sym (ap (has_prefix needle) (drop-drop (j - first) first text))

  index_of-cases :
      (start : ℕ)
      → ((index_of text needle start ≡ none) × ((j : ℕ) → start ≤ j → occurs needle text j ≡ false))
        ⊎ ((p : ℕ) × (index_of text needle start ≡ some p) × IsNext needle text start p)
  unfolding index_of
  index_of-cases start =
      let first = min start (length text) in
      let size = length-drop first text in
      elim (index_at-cases u us (drop first text) first) [
        | inl (a, h) ↦ inl (a, λ j l. from_rest first j (omega (arith, l)) ∙ h (j - first))
        | inr (i, a, h) ↦ inr (
          first + i,
          a,
          record {
            within = omega (arith, h.inside, size);
            not_less = omega (arith, h.inside, size);
            occurs_there = ap (has_prefix needle) (sym (drop-drop i first text)) ∙ h.occurs_here;
            none_between = λ j l m.
                from_rest first j (omega (arith, l))
                ∙ h.not_before (j - first) (omega (arith, l, m));
          },
        )
      ]

  -- Each round leaves less of the text.
  collect-ends :
      (size fuel start : ℕ)
      → 0 < size
      → length text < fuel + start
      → (ms : List SearchMatch) × (collect fuel text needle size (index_of text needle start)
          ≡ some ms)
        × AreGreedy needle size text start ms
  unfolding collect AreGreedy
  collect-ends size zero start pos enough = elim (index_of-cases start) [
    | inl (a, h) ↦ ([], ground (arith, a), h)
    | inr (p, a, h) ↦ absurd (omega (arith, enough, h.within, h.not_less))
  ]
  collect-ends size (suc fuel) start pos enough = elim (index_of-cases start) [
    | inl (a, h) ↦ ([], ground (arith, a), h)
    | inr (p, a, h) ↦
        let (ms, e, g) =
          collect-ends size fuel (p + size) pos (omega (arith, enough, h.not_less)) in
        (
          record { from_index = p; to_index = p + size } ∷ ms,
          ground (arith, a, e),
          (h.not_less, h.occurs_there, h.none_between, refl, g),
        )
  ]

-- A search for a text that is not empty, nor is in lower case, ends, and its matches are the occurrences
-- from left to right in lower case, each search starting as many units after a match as the query has.
pub find_search_matches-ends :
    (lower : List ℕ → List ℕ) (content query : List ℕ)
    → 0 < length query
    → 0 < length (lower query)
    → (ms : List SearchMatch) × (find_search_matches lower content query ≡ some ms)
      × AreGreedy (lower query) (length query) (lower content) 0 ms
unfolding find_search_matches
find_search_matches-ends lower content [] h k = absurd (omega (arith, h))
find_search_matches-ends lower content (u ∷ us) h k =
    let (v, vs, e) = begin_with (lower (u ∷ us)) k in
    let found =
      collect-ends v vs (lower content) (length (u ∷ us)) (suc (length (lower content))) 0 h
        (omega arith) in
    subst
      (λ needle.
        (ms : List SearchMatch) × (collect (suc (length (lower content))) (lower content) needle
            (length (u ∷ us)) (index_of (lower content) needle 0)
          ≡ some ms)
        × AreGreedy needle (length (u ∷ us)) (lower content) 0 ms)
      (sym e) found
