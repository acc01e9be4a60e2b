-- ===== src/ThroughSeqno/Lists.antt =====
-- service_impl/through_seqno_tracker_service.go, SortedSeqnoListWithLock, DualSortedSeqnoListWithLock
-- and isSeqnoGapSeqno. A method under the list's lock is one function on the list.
use goxdcr.Prelude.{
  ℕ, ◌+◌, ◌-◌, Bool, true, false, List, [], ◌∷◌, ◌++◌, Outcome, done, panics, ◌>>=◌, or_panic, ltb,
  leb, ◌==◌, if◌then◌else◌, length, get_elem?, drop,
}
use goxdcr.SimpleUtils.Search.{search_uint64_list, sort_uint64_list}

-- The list that stays in the object; the caller gets a copy of it.
unfoldable pub get_sorted_seqno_list : Bool → List ℕ → List ℕ
get_sorted_seqno_list need_to_sort seqno_list =
    if need_to_sort then sort_uint64_list seqno_list else seqno_list

unfoldable pub append_seqno : ℕ → List ℕ → List ℕ
append_seqno seqno seqno_list = seqno_list ++ seqno ∷ []

unfoldable pub truncate_seqnos : ℕ → List ℕ → List ℕ
truncate_seqnos through_seqno seqno_list =
    let (index, found) = search_uint64_list seqno_list through_seqno in
    if found
    then drop (index + 1) seqno_list
    else if ltb 0 index
    then drop index seqno_list
    else seqno_list

-- The ith gap range is from the ith number of the first list to the ith of the second, both included.
pub record DualSeqnoList : Type 0 where
  pub seqno_list_1 : List ℕ
  pub seqno_list_2 : List ℕ

unfoldable pub get_sorted_seqno_lists : DualSeqnoList → Outcome DualSeqnoList
get_sorted_seqno_lists list_obj =
    if length list_obj.seqno_list_1 == length list_obj.seqno_list_2 then done list_obj else panics

unfoldable pub append_seqnos : ℕ → ℕ → DualSeqnoList → DualSeqnoList
append_seqnos seqno_1 seqno_2 list_obj = record {
  seqno_list_1 = list_obj.seqno_list_1 ++ seqno_1 ∷ [];
  seqno_list_2 = list_obj.seqno_list_2 ++ seqno_2 ∷ [];
}

unfoldable pub truncate_gap_seqno_list : ℕ → List ℕ → Outcome (List ℕ)
truncate_gap_seqno_list through_seqno seqno_list =
    let (index, found) = search_uint64_list seqno_list through_seqno in
    if found then panics else done (if ltb 0 index then drop index seqno_list else seqno_list)

unfoldable pub truncate_dual_seqnos : ℕ → DualSeqnoList → Outcome DualSeqnoList
truncate_dual_seqnos through_seqno list_obj = do
  list_1 ← truncate_gap_seqno_list through_seqno list_obj.seqno_list_1
  list_2 ← truncate_gap_seqno_list through_seqno list_obj.seqno_list_2
  done (record { seqno_list_1 = list_1; seqno_list_2 = list_2 })

-- Whether a number lies in a gap range, and the end of that range.
unfoldable pub is_seqno_gap_seqno : List ℕ → List ℕ → ℕ → Outcome (Bool × ℕ)
is_seqno_gap_seqno gap_seqno_list_1 gap_seqno_list_2 seqno =
    let (index, is_start_gap_seqno) = search_uint64_list gap_seqno_list_1 seqno in
    if length gap_seqno_list_1 == 0
    then done (false, 0)
    else if is_start_gap_seqno
    then (or_panic (get_elem? gap_seqno_list_2 index) >>= λ end_gap_seqno.
        done (true, end_gap_seqno))
    else if index == 0
    then done (false, 0)
    else (or_panic (get_elem? gap_seqno_list_2 (index - 1)) >>= λ end_gap_seqno.
        if leb seqno end_gap_seqno then done (true, end_gap_seqno) else done (false, 0))
