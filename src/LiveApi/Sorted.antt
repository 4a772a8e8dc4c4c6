-- ===== src/LiveApi/Sorted.antt =====
-- The order of a snapshot's documents.
use mathlib.Core.List.{Perm}
use mathlib.Core.List.Perm
use xbin.Common.{ℕ, ◌≤◌, All, leb→le, if-both, if-split, List, [], ◌∷◌, leb, arith}
use xbin.LiveApi.{Document}
use xbin.LiveApi.Decode.{place, by_position}

-- No document stands before one of a lower position.
abbrev pub IsSorted : List Document → Type 0
IsSorted [] = Unit
IsSorted (d ∷ ds) = All (λ (e : Document). d.position ≤ e.position) ds × IsSorted ds

place-Perm : (d : Document) (ds : List Document) → Perm (place d ds) (d ∷ ds)
unfolding place
place-Perm d [] = Perm.refl (d ∷ [])
place-Perm d (e ∷ es) =
    if-both (λ l. Perm l (d ∷ e ∷ es)) (Perm.refl (d ∷ e ∷ es))
      (Perm.trans (Perm.cons e (place-Perm d es)) (Perm.swap d e es)) _

pub by_position-Perm : (ds : List Document) → Perm (by_position ds) ds
unfolding by_position
by_position-Perm [] = Perm.refl []
by_position-Perm (d ∷ ds) =
    Perm.trans (place-Perm d (by_position ds)) (Perm.cons d (by_position-Perm ds))

place-All :
    (P : Document → Type 0) (d : Document) (ds : List Document)
    → P d
    → All P ds
    → All P (place d ds)
unfolding place
place-All P d [] p h = (p, tt)
place-All P d (e ∷ es) p (q, h) =
    if-both (All P) {x = d ∷ e ∷ es} {y = e ∷ place d es} (p, (q, h)) (q, place-All P d es p h) _

below :
    (m n : ℕ) (ds : List Document)
    → m ≤ n
    → All (λ (e : Document). n ≤ e.position) ds
    → All (λ (e : Document). m ≤ e.position) ds
below m n [] h t = tt
below m n (d ∷ ds) h (a, t) = (omega arith, below m n ds h t)

place-IsSorted : (d : Document) (ds : List Document) → IsSorted ds → IsSorted (place d ds)
unfolding place
place-IsSorted d [] h = (tt, tt)
place-IsSorted d (e ∷ es) (low, h) =
    if-split IsSorted (leb d.position e.position)
      (λ t.
        let first = leb→le d.position e.position t in
        ((first, below d.position e.position es first low), (low, h)))
      (λ t. (
        place-All (λ (f : Document). e.position ≤ f.position) d es (ground arith) low,
        place-IsSorted d es h,
      ))

pub by_position-IsSorted : (ds : List Document) → IsSorted (by_position ds)
unfolding by_position
by_position-IsSorted [] = tt
by_position-IsSorted (d ∷ ds) = place-IsSorted d (by_position ds) (by_position-IsSorted ds)
