-- ===== src/ThroughSeqno/Compute.antt =====
-- service_impl/through_seqno_tracker_service.go, the loop of GetThroughSeqno and maxSeqno.
use goxdcr.Prelude.{
  ℕ, zero, suc, ◌+◌, ◌-◌, ◌%◌, ◌^◌, Bool, true, false, Option, none, some, List, [], ◌∷◌, Outcome,
  done, panics, out_of_fuel, ◌>>=◌, or_panic, leb, if◌then◌else◌, get_elem?,
}
use Prim.Native.Nat.{max}
use goxdcr.SimpleUtils.Search.{search_uint64_list}
use goxdcr.ThroughSeqno.Lists.{DualSeqnoList, is_seqno_gap_seqno}

unfoldable pub max_seqno : List ℕ → ℕ
max_seqno [] = 0
max_seqno (x ∷ []) = x
max_seqno (x ∷ y ∷ xs) = max_seqno (y ∷ xs)

pub data SeqnoType : Type 0 where
  seqno_type_sent seqno_type_filtered seqno_type_failed_cr : SeqnoType

-- The copies of the lists that the computation works on, all sorted.
pub record SeqnoLists : Type 0 where
  pub sent_seqno_list : List ℕ
  pub filtered_seqno_list : List ℕ
  pub failed_cr_seqno_list : List ℕ
  pub gaps : DualSeqnoList

-- The variables of the loop. An index or a type of -1 is `none`.
pub record Cursor : Type 0 where
  pub iter_seqno : ℕ
  pub last_sent_index : Option ℕ
  pub last_filtered_index : Option ℕ
  pub last_failed_cr_index : Option ℕ
  pub found_seqno_type : Option SeqnoType

-- One of the three lookups of a round.
unfoldable pub probe : List ℕ → ℕ → Option ℕ
probe seqno_list iter_seqno =
    let (index, found) = search_uint64_list seqno_list iter_seqno in
    if leb iter_seqno (max_seqno seqno_list) then if found then some index else none else none

-- The part of a round about the gap ranges; the result says whether the loop goes on.
unfoldable pub gap_round : DualSeqnoList → Cursor → Outcome (Bool × Cursor)
gap_round gaps c =
    if leb c.iter_seqno (max_seqno gaps.seqno_list_2)
    then (is_seqno_gap_seqno gaps.seqno_list_1 gaps.seqno_list_2 c.iter_seqno
        >>= λ (gap_found, end_gap_seqno).
            if gap_found
            then done (true, record c { iter_seqno = end_gap_seqno })
            else done (false, c))
    else done (false, c)

-- A round after `iter_seqno++`.
unfoldable pub round_at : SeqnoLists → Cursor → Outcome (Bool × Cursor)
round_at lists c = elim (probe lists.sent_seqno_list c.iter_seqno) [
  | some i ↦
      done (true, record c { last_sent_index = some i; found_seqno_type = some seqno_type_sent })
  | none ↦ elim (probe lists.filtered_seqno_list c.iter_seqno) [
    | some i ↦ done (
      true,
      record c { last_filtered_index = some i; found_seqno_type = some seqno_type_filtered },
    )
    | none ↦ elim (probe lists.failed_cr_seqno_list c.iter_seqno) [
      | some i ↦ done (
        true,
        record c { last_failed_cr_index = some i; found_seqno_type = some seqno_type_failed_cr },
      )
      | none ↦ gap_round lists.gaps c
    ]
  ]
]

unfoldable pub round : SeqnoLists → Cursor → Outcome (Bool × Cursor)
round lists c = round_at lists (record c { iter_seqno = (c.iter_seqno + 1) % 2 ^ 64 })

-- The `for` loop; `rounds` below gives fuel enough.
unfoldable pub loop : ℕ → SeqnoLists → Cursor → Outcome Cursor
loop zero lists c = out_of_fuel
loop (suc fuel) lists c =
    round lists c >>= λ (more, c'). elim more [ true ↦ loop fuel lists c' | false ↦ done c' ]

pick : List ℕ → Option ℕ → Outcome (Option ℕ)
pick seqno_list none = panics
pick seqno_list (some i) = or_panic (get_elem? seqno_list i) >>= λ seqno. done (some seqno)

pick_type : SeqnoLists → Cursor → Option SeqnoType → Outcome (Option ℕ)
unfolding pick
pick_type lists c none = panics
pick_type lists c (some seqno_type_sent) = pick lists.sent_seqno_list c.last_sent_index
pick_type lists c (some seqno_type_filtered) = pick lists.filtered_seqno_list c.last_filtered_index
pick_type lists c (some seqno_type_failed_cr) =
    pick lists.failed_cr_seqno_list c.last_failed_cr_index

-- What the loop found, if it found anything.
unfoldable pub found_seqno : SeqnoLists → Cursor → Outcome (Option ℕ)
unfolding pick_type
found_seqno lists c = elim c.last_sent_index [
  | some i ↦ pick_type lists c c.found_seqno_type
  | none ↦ elim c.last_filtered_index [
    | some i ↦ pick_type lists c c.found_seqno_type
    | none ↦ elim c.last_failed_cr_index [
      | some i ↦ pick_type lists c c.found_seqno_type
      | none ↦ done none
    ]
  ]
]

-- The largest number in any of the lists.
unfoldable pub bound : SeqnoLists → ℕ
bound lists =
    max (max (max_seqno lists.sent_seqno_list) (max_seqno lists.filtered_seqno_list))
      (max (max_seqno lists.failed_cr_seqno_list) (max_seqno lists.gaps.seqno_list_2))

-- `iter_seqno` grows with each round that goes on, and does not pass `bound`.
unfoldable pub rounds : SeqnoLists → ℕ → ℕ
rounds lists last_through_seqno = suc (suc (bound lists - last_through_seqno))

abbrev pub start_cursor : ℕ → Cursor
start_cursor last_through_seqno = record {
  iter_seqno = last_through_seqno;
  last_sent_index = none;
  last_filtered_index = none;
  last_failed_cr_index = none;
  found_seqno_type = none;
}

-- The through seqno that the lists give after the last one, if it is a new one.
unfoldable pub compute : SeqnoLists → ℕ → Outcome (Option ℕ)
compute lists last_through_seqno =
    loop (rounds lists last_through_seqno) lists (start_cursor last_through_seqno)
    >>= found_seqno lists
