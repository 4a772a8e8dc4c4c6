-- ===== src/Search/Tests.antt =====
-- Searches in short texts.
use xbin.Common.{
  ℕ, ◌≡◌, refl, some, List, [], ◌∷◌, arith, length, if◌then◌else◌, map, leb, ◌&&◌, ◌+◌,
}
use xbin.Search.{SearchMatch, find_search_matches}
use xbin.Search.Greedy.{AreGreedy, find_search_matches-ends}

-- The lower case of the ASCII letters.
abbrev ascii_lower : List ℕ → List ℕ
ascii_lower us = map (λ u. if leb 65 u && leb u 90 then u + 32 else u) us

-- "Aa aA" and "a"
abbrev text : List ℕ
text = 65 ∷ 97 ∷ 32 ∷ 97 ∷ 65 ∷ []

abbrev query : List ℕ
query = 97 ∷ 97 ∷ []

find_search_matches-ends_example :
    (ms : List SearchMatch) × (find_search_matches ascii_lower text query ≡ some ms)
    × AreGreedy (ascii_lower query) (length query) (ascii_lower text) 0 ms
find_search_matches-ends_example =
    find_search_matches-ends ascii_lower text query (omega arith) (omega arith)

two_found :
    find_search_matches ascii_lower text query
    ≡ some (record { from_index = 0; to_index = 2 } ∷ record { from_index = 3; to_index = 5 } ∷ [])
unfolding find_search_matches
two_found = refl
