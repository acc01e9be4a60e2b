-- ===== src/SimpleUtils/Vbuckets.antt =====
-- base/simple_utils.go: lists of vbuckets, kept sorted by the callers, and the spread of work over
-- workers.
pub mod Delta
pub mod Added
pub mod Balance
use goxdcr.Prelude.{
  ℕ, zero, suc, ◌+◌, ◌-◌, ◌*◌, ◌/◌, ◌^◌, Bool, true, false, ◌&&◌, Option, none, some, List, [], ◌∷◌,
  ◌++◌, Outcome, done, panics, ltb, leb, ◌==◌, if◌then◌else◌, length, get_or, take, drop,
}
use goxdcr.SimpleUtils.Search.{search, sort_uint64_list}

-- SortUint16List is the same sort as for the longer numbers.
abbrev pub sort_uint16_list : List ℕ → List ℕ
sort_uint16_list = sort_uint64_list

same_from : List ℕ → List ℕ → Bool
same_from [] ys = true
same_from (x ∷ xs) [] = false
same_from (x ∷ xs) (y ∷ ys) = if x == y then same_from xs ys else false

unfoldable pub are_sorted_uint16_lists_the_same : List ℕ → List ℕ → Bool
unfolding same_from
are_sorted_uint16_lists_the_same list_1 list_2 =
    if length list_1 == length list_2
    then if length list_1 == 0 then true else same_from list_1 list_2
    else false

unfoldable pub is_vb_in_list : ℕ → List ℕ → Bool
is_vb_in_list vbno [] = false
is_vb_in_list vbno (vb ∷ vbs) = if vb == vbno then true else is_vb_in_list vbno vbs

unfoldable pub search_vb_in_sorted_list : ℕ → List ℕ → ℕ × Bool
search_vb_in_sorted_list vbno vb_list =
    let index = search (length vb_list) (λ i. leb vbno (get_or vb_list i 0)) in
    if ltb index (length vb_list) && (get_or vb_list index 0 == vbno)
    then (index, true)
    else (index, false)

unfoldable pub add_vb_to_sorted_list : ℕ → List ℕ → List ℕ
add_vb_to_sorted_list vbno vb_list =
    let (index, found) = search_vb_in_sorted_list vbno vb_list in
    if found then vb_list else take index vb_list ++ (vbno ∷ drop index vb_list)

-- The loop over two lists; its indices are the heads of what is left of each.
unfoldable pub delta_loop : List ℕ → List ℕ → List ℕ → List ℕ → List ℕ × List ℕ
delta_loop removed new [] list_2 = (removed, new ++ list_2)
delta_loop removed new (x ∷ list_1) [] = (removed ++ (x ∷ list_1), new)
delta_loop removed new (x ∷ list_1) (y ∷ list_2) = elim (x == y) [
  | true ↦ delta_loop removed new list_1 list_2
  | false ↦ elim (ltb y x) [
    | true ↦ delta_loop removed (new ++ y ∷ []) (x ∷ list_1) list_2
    | false ↦ delta_loop (removed ++ x ∷ []) new list_1 (y ∷ list_2)
  ]
]

-- The vbuckets that only the first list has, and those that only the second has.
unfoldable pub compute_delta_of_uint16_lists : List ℕ → List ℕ → Bool → List ℕ × List ℕ
compute_delta_of_uint16_lists list_1 list_2 sort =
    if sort
    then delta_loop [] [] (sort_uint16_list list_1) (sort_uint16_list list_2)
    else delta_loop [] [] list_1 list_2

-- Start, included, and end, excluded, of a worker's load.
pub record Load : Type 0 where
  pub first : ℕ
  pub past : ℕ

-- `rounds` workers are left, and i have their load.
unfoldable pub balance_loop : ℕ → ℕ → ℕ → ℕ → ℕ → List Load × ℕ
balance_loop zero i with_max max_load index = ([], index)
balance_loop (suc rounds) i with_max max_load index =
    let next = index + (if ltb i with_max then max_load else max_load - 1) in
    let (loads, last) = balance_loop rounds (i + 1) with_max max_load next in
    (record { first = index; past = next } ∷ loads, last)

-- The quotient rounded up, for a positive number of workers.
unfoldable pub quotient_up : ℕ → ℕ → ℕ
quotient_up num_of_worker num_of_load = (num_of_load + num_of_worker - 1) / num_of_worker

-- With no load the most is 0, and `(0 - 1) * num_of_worker` is taken off: all workers get the most.
unfoldable pub workers_with_max_load : ℕ → ℕ → ℕ → ℕ
workers_with_max_load num_of_worker num_of_load max_load =
    if max_load == 0
    then num_of_load + num_of_worker
    else num_of_load - (max_load - 1) * num_of_worker

module _ (beyond : ℕ → ℕ → ℕ) where
  -- The most that a worker gets: the float64 quotient, rounded up. Below 2^53 both numbers are exact, and
  -- the rounding of their quotient does not reach an integer that is not it: the error is at most 2^-53
  -- of it, so below 1 / num_of_worker. For larger numbers it is whatever `beyond` says.
  unfoldable pub max_load_per_worker : ℕ → ℕ → ℕ
  max_load_per_worker num_of_worker num_of_load =
      if ltb num_of_worker (2 ^ 53) && ltb num_of_load (2 ^ 53)
      then quotient_up num_of_worker num_of_load
      else beyond num_of_worker num_of_load

  unfoldable pub balance_load : ℕ → ℕ → Outcome (List Load)
  balance_load num_of_worker num_of_load =
      let max_load = max_load_per_worker num_of_worker num_of_load in
      let (loads, index) =
        balance_loop num_of_worker 0 (workers_with_max_load num_of_worker num_of_load max_load)
          max_load 0 in
      if index == num_of_load then done loads else panics

-- A version list with no entry counts as 0.
unfoldable pub encode_version_to_effective_version : List ℕ → ℕ
encode_version_to_effective_version [] = 0
encode_version_to_effective_version (major ∷ []) = major * 0x10000 + 0
encode_version_to_effective_version (major ∷ minor ∷ rest) = major * 0x10000 + minor

unfoldable pub is_cluster_compatible : ℕ → List ℕ → Bool
is_cluster_compatible cluster_compatibility version =
    leb (encode_version_to_effective_version version) cluster_compatibility
