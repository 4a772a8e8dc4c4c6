-- ===== src/Connection/Text.antt =====
-- The regular expressions that live-connection.ts applies to a close reason, without regard to the case
-- of ASCII letters (outside ASCII the flag `i` folds no letter onto the letters of these patterns).
use xbin.Common.{
  ℕ, ◌+◌, String, Bool, true, false, ◌&&◌, ◌||◌, List, [], ◌∷◌, leb, ◌==◌, if◌then◌else◌, codes,
}

fold_case : ℕ → ℕ
fold_case c = if leb 65 c && leb c 90 then c + 32 else c

-- The pattern is in lower case.
begins : List ℕ → List ℕ → Bool
unfolding fold_case
begins [] text = true
begins (p ∷ ps) [] = false
begins (p ∷ ps) (c ∷ cs) = fold_case c == p && begins ps cs

mentions : List ℕ → List ℕ → Bool
unfolding begins
mentions pattern [] = begins pattern []
mentions pattern (c ∷ cs) = begins pattern (c ∷ cs) || mentions pattern cs

-- /password|auth/i
unfoldable pub mentions_auth : String → Bool
unfolding mentions codes
mentions_auth reason =
    mentions (codes "password") (codes reason) || mentions (codes "auth") (codes reason)

-- /room (limit|full)/i
unfoldable pub mentions_full : String → Bool
unfolding mentions codes
mentions_full reason =
    mentions (codes "room limit") (codes reason) || mentions (codes "room full") (codes reason)

-- /expired/i
unfoldable pub mentions_expired : String → Bool
unfolding mentions codes
mentions_expired reason = mentions (codes "expired") (codes reason)
