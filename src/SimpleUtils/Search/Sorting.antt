-- ===== src/SimpleUtils/Search/Sorting.antt =====
-- The sort gives an ascending list of the same numbers.
use goxdcr.Prelude.{ℕ, ◌≤◌, ◌≡◌, ◌⊎◌, inl, inr, List, [], ◌∷◌, arith, In, IsSorted, Ascends}
use goxdcr.SimpleUtils.Search.{insert_sorted, sort_uint64_list}

insert_sorted-Ascends :
    (b a : ℕ) (xs : List ℕ) → b ≤ a → Ascends b xs → Ascends b (insert_sorted a xs)
unfolding insert_sorted
insert_sorted-Ascends b a [] h s = (h, tt)
insert_sorted-Ascends b a (x ∷ xs) h s = ground (arith, insert_sorted-Ascends x a xs)

pub sort-IsSorted : (xs : List ℕ) → IsSorted (sort_uint64_list xs)
unfolding sort_uint64_list
sort-IsSorted [] = tt
sort-IsSorted (x ∷ xs) =
    insert_sorted-Ascends 0 x (sort_uint64_list xs) (omega arith) (sort-IsSorted xs)

In-insert_sorted : (k a : ℕ) (xs : List ℕ) → In k (insert_sorted a xs) → (k ≡ a) ⊎ In k xs
unfolding insert_sorted
In-insert_sorted k a [] h = h
In-insert_sorted k a (x ∷ xs) h = ground (arith, In-insert_sorted k a xs)

insert_sorted-In : (k a : ℕ) (xs : List ℕ) → (k ≡ a) ⊎ In k xs → In k (insert_sorted a xs)
unfolding insert_sorted
insert_sorted-In k a [] h = h
insert_sorted-In k a (x ∷ xs) h = ground (arith, insert_sorted-In k a xs)

pub In-sort : (k : ℕ) (xs : List ℕ) → In k (sort_uint64_list xs) → In k xs
unfolding sort_uint64_list
In-sort k [] h = h
In-sort k (x ∷ xs) h = elim (In-insert_sorted k x (sort_uint64_list xs) h) [
  | inl e ↦ inl e
  | inr m ↦ inr (In-sort k xs m)
]

pub sort-In : (k : ℕ) (xs : List ℕ) → In k xs → In k (sort_uint64_list xs)
unfolding sort_uint64_list
sort-In k [] h = h
sort-In k (x ∷ xs) (inl e) = insert_sorted-In k x (sort_uint64_list xs) (inl e)
sort-In k (x ∷ xs) (inr h) = insert_sorted-In k x (sort_uint64_list xs) (inr (sort-In k xs h))
