-- ===== src/Operations/Lookup.antt =====
-- The laws of the map of operations.
use xbin.Common.{
  ◌≡◌, refl, String, Bool, true, false, none, some, List, [], ◌∷◌, arith, if◌then◌else◌, str_eq,
  eq_iff,
}
use xbin.Operations.{Operation, find, put, remove}

pub find-put :
    (id : String) (op : Operation) (ops : List Operation)
    → find id (put op ops) ≡ (if str_eq op.id id then some op else find id ops)
unfolding find put
find-put id op [] = refl
find-put id op (x ∷ xs) =
    ground (arith, eq_iff op.id id, eq_iff x.id op.id, eq_iff x.id id, find-put id op xs)

pub find-id :
    (id : String) (ops : List Operation) {op : Operation} → find id ops ≡ some op → op.id ≡ id
unfolding find
find-id id [] h = cc
find-id id (x ∷ xs) {op} h = ground (arith, eq_iff x.id id, find-id id xs {op = op})

-- One entry for each id.
abbrev pub distinct : List Operation → Bool
distinct [] = true
distinct (op ∷ ops) = elim (find op.id ops) [ none ↦ distinct ops | some _ ↦ false ]

pub find-remove :
    (id j : String) (ops : List Operation)
    → distinct ops ≡ true
    → find j (remove id ops) ≡ (if str_eq id j then none else find j ops)
unfolding find remove
find-remove id j [] h = ground arith
find-remove id j (x ∷ xs) h =
    ground (arith, eq_iff id j, eq_iff x.id id, eq_iff x.id j, find-remove id j xs)

pub distinct-put :
    (op : Operation) (ops : List Operation) → distinct ops ≡ true → distinct (put op ops) ≡ true
unfolding put find
distinct-put op [] h = refl
distinct-put op (x ∷ xs) h =
    ground (arith, eq_iff x.id op.id, eq_iff op.id x.id, find-put x.id op xs, distinct-put op xs)

pub distinct-remove :
    (id : String) (ops : List Operation) → distinct ops ≡ true → distinct (remove id ops) ≡ true
unfolding remove
distinct-remove id [] h = refl
distinct-remove id (x ∷ xs) h =
    ground (arith, eq_iff x.id id, eq_iff id x.id, distinct-remove id xs, find-remove id x.id xs)
