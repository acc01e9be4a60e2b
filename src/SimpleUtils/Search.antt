-- ===== src/SimpleUtils/Search.antt =====
-- base/simple_utils.go, SortUint64List, SearchUint64List and DeepCopyUint64Array: sorting and binary
-- search, on Go's `sort.Search` and `sort.Sort`.
pub mod Bounds
pub mod Sorting
use goxdcr.Prelude.{
  ℕ, zero, suc, ◌+◌, ◌/◌, Bool, true, false, ◌&&◌, List, [], ◌∷◌, ltb, leb, ◌==◌, if◌then◌else◌,
  length, get_or,
}

-- `sort.Search` between i and j. Each round makes the range shorter, so j - i rounds are enough.
search_loop : ℕ → (ℕ → Bool) → ℕ → ℕ → ℕ
search_loop zero f i j = i
search_loop (suc rounds) f i j = elim (ltb i j) [
  | true ↦
      let h = (i + j) / 2 in
      elim (f h) [ true ↦ search_loop rounds f i h | false ↦ search_loop rounds f (h + 1) j ]
  | false ↦ i
]

unfoldable pub search : ℕ → (ℕ → Bool) → ℕ
unfolding search_loop
search n f = search_loop n f 0 n

-- The index, and whether the number stands there.
unfoldable pub search_uint64_list : List ℕ → ℕ → ℕ × Bool
unfolding search
search_uint64_list list seqno =
    let index = search (length list) (λ i. leb seqno (get_or list i 0)) in
    if ltb index (length list) && (get_or list index 0 == seqno)
    then (index, true)
    else (index, false)

insert_sorted : ℕ → List ℕ → List ℕ
insert_sorted a [] = a ∷ []
insert_sorted a (x ∷ xs) = if leb a x then a ∷ x ∷ xs else x ∷ insert_sorted a xs

-- `sort.Sort` on numbers: its result is the sorted list of the same numbers, by any algorithm.
unfoldable pub sort_uint64_list : List ℕ → List ℕ
unfolding insert_sorted
sort_uint64_list [] = []
sort_uint64_list (x ∷ xs) = insert_sorted x (sort_uint64_list xs)
