-- ===== src/LiveRoom/Metadata/Sorting.antt =====
-- The sorting of documents by their positions in an order.
use xbin.Common.{
  ℕ, zero, suc, ◌+◌, ◌≤◌, ◌<◌, ◌≡◌, ◌≢◌, refl, sym, ap, subst, ◌∙◌, String, false, some, List, [],
  ◌∷◌, leb, eq_iff, length, All, arith, if-split,
}
use mathlib.Core.Option.{some-injective}
use xbin.Wire.Types.{RoomDocument}
use xbin.LiveRoom.{has_document, insert_document, sort_documents}
use xbin.LiveRoom.Metadata.Placing.{IsPlaced, entry_at}
use xbin.LiveRoom.Metadata.Abstract.{IsNumbered, IsDistinct}

-- Positions that ascend from `low` and stay below `high`.
pub IsAscending : ℕ → ℕ → List RoomDocument → Type 0
IsAscending low high [] = low ≤ high
IsAscending low high (d ∷ ds) = (low ≤ d.position) × IsAscending (suc d.position) high ds

ascending_room :
    (low high : ℕ) (ds : List RoomDocument) → IsAscending low high ds → low + length ds ≤ high
unfolding IsAscending
ascending_room low high [] h = omega (arith, h)
ascending_room low high (d ∷ ds) (p, h) = omega (arith, ascending_room (suc d.position) high ds h)

-- With no room to spare, the positions are all there are.
pub ascending-IsNumbered :
    (low high : ℕ) (ds : List RoomDocument)
    → low + length ds ≡ high
    → IsAscending low high ds
    → IsNumbered low ds
unfolding IsAscending IsNumbered
ascending-IsNumbered low high [] e h = tt
ascending-IsNumbered low high (d ∷ ds) e (p, h) =
    let here : d.position ≡ low = omega (arith, ascending_room (suc d.position) high ds h) in
    (
      here,
      ascending-IsNumbered (suc low) high ds (omega (arith, e))
          (subst (λ n. IsAscending (suc n) high ds) here h),
    )

insert_document-All :
    (P : RoomDocument → Type 0) (d : RoomDocument) (ds : List RoomDocument)
    → P d
    → All P ds
    → All P (insert_document d ds)
unfolding insert_document
insert_document-All P d [] p h = (p, tt)
insert_document-All P d (x ∷ xs) p (q, h) =
    if-split (All P) {x = d ∷ x ∷ xs} {y = x ∷ insert_document d xs} (leb d.position x.position)
      (λ e. (p, (q, h))) (λ e. (q, insert_document-All P d xs p h))

pub sort_documents-All :
    (P : RoomDocument → Type 0) (ds : List RoomDocument) → All P ds → All P (sort_documents ds)
unfolding sort_documents
sort_documents-All P [] h = tt
sort_documents-All P (d ∷ ds) (p, h) =
    insert_document-All P d (sort_documents ds) p (sort_documents-All P ds h)

length-insert_document :
    (d : RoomDocument) (ds : List RoomDocument) → length (insert_document d ds) ≡ suc (length ds)
unfolding insert_document
length-insert_document d [] = refl
length-insert_document d (x ∷ xs) = ground (arith, length-insert_document d xs)

pub length-sort_documents : (ds : List RoomDocument) → length (sort_documents ds) ≡ length ds
unfolding sort_documents
length-sort_documents [] = refl
length-sort_documents (d ∷ ds) =
    length-insert_document d (sort_documents ds) ∙ ap suc (length-sort_documents ds)

insert_document-IsAscending :
    (low high : ℕ) (d : RoomDocument) (ds : List RoomDocument)
    → low ≤ d.position
    → d.position < high
    → All (λ (x : RoomDocument). x.position ≢ d.position) ds
    → IsAscending low high ds
    → IsAscending low high (insert_document d ds)
unfolding insert_document IsAscending
insert_document-IsAscending low high d [] a b n h = (a, omega (arith, b))
insert_document-IsAscending low high d (x ∷ xs) a b (m, n) (p, h) =
    if-split (IsAscending low high) {x = d ∷ x ∷ xs} {y = x ∷ insert_document d xs}
      (leb d.position x.position) (λ e. (a, (ground arith, h)))
      (λ e. (p, insert_document-IsAscending (suc x.position) high d xs (ground arith) b n h))

module _ (order : List String) where
  -- Two documents at one position have one id.
  apart :
      (d : RoomDocument) (ds : List RoomDocument)
      → IsPlaced order d
      → has_document d.id ds ≡ false
      → All (IsPlaced order) ds
      → All (λ (x : RoomDocument). x.position ≢ d.position) ds
  unfolding has_document
  apart d [] p n h = tt
  apart d (x ∷ xs) p n (q, h) = (
    λ same.
        let ids : x.id ≡ d.id = some-injective _ _ (sym q ∙ ap (λ i. entry_at i order) same ∙ p) in
        ground (arith, eq_iff x.id d.id),
    apart d xs p (ground arith) h,
  )

  entry_at-bound : (n : ℕ) (xs : List String) (x : String) → entry_at n xs ≡ some x → n < length xs
  unfolding entry_at
  entry_at-bound n [] x h = absurd (cc h)
  entry_at-bound zero (y ∷ ys) x h = omega arith
  entry_at-bound (suc n) (y ∷ ys) x h = omega (arith, entry_at-bound n ys x h)

  pub sort_documents-IsAscending :
      (ds : List RoomDocument)
      → IsDistinct ds
      → All (IsPlaced order) ds
      → IsAscending 0 (length order) (sort_documents ds)
  unfolding sort_documents IsDistinct IsAscending
  sort_documents-IsAscending [] n h = omega arith
  sort_documents-IsAscending (d ∷ ds) (n, m) (p, h) =
      insert_document-IsAscending 0 (length order) d (sort_documents ds) (omega arith)
        (entry_at-bound d.position order d.id p)
        (sort_documents-All (λ (x : RoomDocument). x.position ≢ d.position) ds (apart d ds p n h))
        (sort_documents-IsAscending ds m h)
