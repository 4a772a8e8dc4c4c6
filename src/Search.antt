-- ===== src/Search.antt =====
-- web/src/search.ts: the matches of a search in a text. Texts are lists of UTF-16 units, and `lower` is
-- the platform's toLocaleLowerCase.
pub mod Greedy
mod Tests
use xbin.Common.{
  ℕ, zero, suc, ◌+◌, min, Bool, true, false, ◌&&◌, Option, none, some, List, [], ◌∷◌, ◌==◌,
  if◌then◌else◌, length, drop, ◌>>=◌,
}

-- SearchMatch
pub record SearchMatch : Type 0 where
  pub from_index : ℕ
  pub to_index : ℕ

-- `text.startsWith(needle)`
pub has_prefix : List ℕ → List ℕ → Bool
has_prefix [] text = true
has_prefix (u ∷ us) [] = false
has_prefix (u ∷ us) (v ∷ vs) = (u == v) && has_prefix us vs

-- The first index at which the needle has_prefix, where `n` is the index of the text's first unit.
pub index_at : ℕ → List ℕ → List ℕ → Option ℕ
unfolding has_prefix
index_at n needle [] = if has_prefix needle [] then some n else none
index_at n needle (v ∷ vs) =
    let rest = index_at (suc n) needle vs in if has_prefix needle (v ∷ vs) then some n else rest

-- `text.indexOf(needle, from)`: a start beyond the text is its end.
pub index_of : List ℕ → List ℕ → ℕ → Option ℕ
unfolding index_at
index_of text needle start =
    let first = min start (length text) in index_at first needle (drop first text)

-- The loop of findSearchMatches, on fuel: `none` if it runs out. `size` is `query.length`.
pub collect : ℕ → List ℕ → List ℕ → ℕ → Option ℕ → Option (List SearchMatch)
unfolding index_of
collect fuel text needle size none = some []
collect zero text needle size (some n) = none
collect (suc fuel) text needle size (some n) =
    let rest = collect fuel text needle size (index_of text needle (n + size)) in
    do later ← rest; some (record { from_index = n; to_index = n + size } ∷ later)

module _ (lower : List ℕ → List ℕ) where
  -- findSearchMatches, with the number of rounds that is enough
  pub find_search_matches : List ℕ → List ℕ → Option (List SearchMatch)
  unfolding index_of collect
  find_search_matches content [] = some []
  find_search_matches content (u ∷ us) =
      let text = lower content in
      let needle = lower (u ∷ us) in
      collect (suc (length text)) text needle (length (u ∷ us)) (index_of text needle 0)
