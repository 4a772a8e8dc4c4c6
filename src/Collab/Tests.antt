-- ===== src/Collab/Tests.antt =====
-- The diff of two short texts, with changes applied as the editor library documents it.
use xbin.Common.{ℕ, ◌≡◌, refl, List, [], ◌∷◌, ◌++◌, take, drop}
use xbin.Collab.{
  Change, empty, range, unit_at, same_text, prefix_loop, suffix_loop, common_prefix, common_suffix,
  diff_live_documents,
}
use xbin.Collab.Diff.{apply-diff_live_documents}

abbrev apply : Change → List ℕ → List ℕ
apply (empty n) text = text
apply (range from to insert n) text = take from text ++ (insert ++ drop to text)

-- From "abcd" to "axd".
abbrev abcd : List ℕ
abcd = 97 ∷ 98 ∷ 99 ∷ 100 ∷ []

abbrev axd : List ℕ
axd = 97 ∷ 120 ∷ 100 ∷ []

diff_run : diff_live_documents abcd axd ≡ range 1 3 (120 ∷ []) 4
unfolding diff_live_documents same_text common_prefix common_suffix prefix_loop suffix_loop unit_at
diff_run = refl

-- The two ends do not meet in a repeated unit.
repeated_run : diff_live_documents (97 ∷ 97 ∷ []) (97 ∷ 97 ∷ 97 ∷ []) ≡ range 2 2 (97 ∷ []) 2
unfolding diff_live_documents same_text common_prefix common_suffix prefix_loop suffix_loop unit_at
repeated_run = refl

apply-diff_live_documents_example : apply (diff_live_documents abcd axd) abcd ≡ axd
apply-diff_live_documents_example =
    apply-diff_live_documents apply (λ text. refl) (λ from to insert text h h' e. refl) abcd axd
      refl
