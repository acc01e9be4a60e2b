-- ===== src/ThroughSeqno/Service.antt =====
-- service_impl/through_seqno_tracker_service.go, ThroughSeqnoTrackerSvc: the state of each vbucket, the
-- events of ProcessEvent, GetThroughSeqno and the truncation that it leaves running.
use goxdcr.Prelude.{
  ℕ, zero, suc, ◌+◌, ◌-◌, ◌%◌, ◌^◌, true, false, Option, none, some, List, [], ◌∷◌, ◌++◌, Outcome,
  done, ◌>>=◌, ltb, ◌==◌, if◌then◌else◌,
}
use goxdcr.ThroughSeqno.Lists.{
  DualSeqnoList, get_sorted_seqno_list, append_seqno, truncate_seqnos, get_sorted_seqno_lists,
  append_seqnos, truncate_dual_seqnos,
}
use goxdcr.ThroughSeqno.Compute.{SeqnoLists, compute}

-- Which list a running truncation comes to next.
pub data Stage : Type 0 where
  sent_next filtered_next failed_cr_next gap_next : Stage

pub record Truncation : Type 0 where
  pub stage : Stage
  pub through : ℕ

-- The entries of the service's maps for one vbucket, and the truncations still running on them.
pub record VbTracker : Type 0 where
  pub through_seqno : ℕ
  pub last_seen_seqno : ℕ
  pub sent : List ℕ
  pub filtered : List ℕ
  pub failed_cr : List ℕ
  pub gap : DualSeqnoList
  pub truncations : List Truncation

-- `initialize`, for one vbucket.
unfoldable pub initialize : VbTracker
initialize = record {
  through_seqno = 0;
  last_seen_seqno = 0;
  sent = [];
  filtered = [];
  failed_cr = [];
  gap = record { seqno_list_1 = []; seqno_list_2 = [] };
  truncations = [];
}

unfoldable pub set_start_seqno : ℕ → VbTracker → VbTracker
set_start_seqno seqno t = record t { through_seqno = seqno }

unfoldable pub add_sent_seqno : ℕ → VbTracker → VbTracker
add_sent_seqno seqno t = record t { sent = append_seqno seqno t.sent }

unfoldable pub add_filtered_seqno : ℕ → VbTracker → VbTracker
add_filtered_seqno seqno t = record t { filtered = append_seqno seqno t.filtered }

unfoldable pub add_failed_cr_seqno : ℕ → VbTracker → VbTracker
add_failed_cr_seqno seqno t = record t { failed_cr = append_seqno seqno t.failed_cr }

-- What the current number is compared with: after a restart, the through seqno.
unfoldable pub last_seen : VbTracker → ℕ
last_seen t = if t.last_seen_seqno == 0 then t.through_seqno else t.last_seen_seqno

-- `current_seqno-1` on a uint64.
unfoldable pub pred_uint64 : ℕ → ℕ
pred_uint64 n = (n + 2 ^ 64 - 1) % 2 ^ 64

unfoldable pub process_gap_seqnos : ℕ → VbTracker → VbTracker
process_gap_seqnos current_seqno t =
    if ltb (last_seen t) (pred_uint64 current_seqno)
    then record t {
      last_seen_seqno = current_seqno;
      gap = append_seqnos ((last_seen t + 1) % 2 ^ 64) (pred_uint64 current_seqno) t.gap;
    }
    else record t { last_seen_seqno = current_seqno }

-- The state after the list of sent numbers has been sorted in place, and the copies of the lists.
abbrev pub sorted_lists : VbTracker → DualSeqnoList → SeqnoLists
sorted_lists t gaps = record {
  sent_seqno_list = get_sorted_seqno_list true t.sent;
  filtered_seqno_list = get_sorted_seqno_list false t.filtered;
  failed_cr_seqno_list = get_sorted_seqno_list false t.failed_cr;
  gaps = gaps;
}

-- A through seqno that is new is stored, and a truncation of the lists is started.
unfoldable pub conclude : VbTracker → Option ℕ → VbTracker
conclude t none = record t { sent = get_sorted_seqno_list true t.sent }
conclude t (some through_seqno) = record t {
  sent = get_sorted_seqno_list true t.sent;
  through_seqno = through_seqno;
  truncations = t.truncations ++ record { stage = sent_next; through = through_seqno } ∷ [];
}

-- The new state; its `through_seqno` is what the caller gets.
unfoldable pub get_through_seqno : VbTracker → Outcome VbTracker
get_through_seqno t =
    get_sorted_seqno_lists t.gap
    >>= (λ gaps. compute (sorted_lists t gaps) t.through_seqno >>= λ found. done (conclude t found))

-- `truncateSeqnoLists`, one list at a time: each has a lock of its own.
unfoldable pub truncate_stage : Stage → ℕ → VbTracker → Outcome VbTracker
truncate_stage sent_next n t = done (record t { sent = truncate_seqnos n t.sent })
truncate_stage filtered_next n t = done (record t { filtered = truncate_seqnos n t.filtered })
truncate_stage failed_cr_next n t = done (record t { failed_cr = truncate_seqnos n t.failed_cr })
truncate_stage gap_next n t = truncate_dual_seqnos n t.gap >>= λ gap. done (record t { gap = gap })

unfoldable pub after_stage : Stage → ℕ → List Truncation
after_stage sent_next n = record { stage = filtered_next; through = n } ∷ []
after_stage filtered_next n = record { stage = failed_cr_next; through = n } ∷ []
after_stage failed_cr_next n = record { stage = gap_next; through = n } ∷ []
after_stage gap_next n = []

-- One step of the running truncation number i, if there is one.
unfoldable pub run_truncation :
    ℕ → List Truncation → List Truncation → VbTracker → Outcome VbTracker
unfolding after_stage
run_truncation i before [] t = done t
run_truncation zero before (r ∷ rest) t =
    truncate_stage r.stage r.through
      (record t { truncations = before ++ (after_stage r.stage r.through ++ rest) })
run_truncation (suc i) before (r ∷ rest) t = run_truncation i (before ++ r ∷ []) rest t

pub data VbEvent : Type 0 where
  sends filters fails_cr receives : ℕ → VbEvent
  gets_through : VbEvent
  truncates : ℕ → VbEvent

unfoldable pub vb_step : VbEvent → VbTracker → Outcome VbTracker
vb_step (sends n) t = done (add_sent_seqno n t)
vb_step (filters n) t = done (add_filtered_seqno n t)
vb_step (fails_cr n) t = done (add_failed_cr_seqno n t)
vb_step (receives n) t = done (process_gap_seqnos n t)
vb_step gets_through t = get_through_seqno t
vb_step (truncates i) t = run_truncation i [] t.truncations t

unfoldable pub vb_run : List VbEvent → VbTracker → Outcome VbTracker
vb_run [] t = done t
vb_run (e ∷ es) t = vb_step e t >>= vb_run es
