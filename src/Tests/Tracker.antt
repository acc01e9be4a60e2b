-- ===== src/Tests/Tracker.antt =====
-- service_impl/through_seqno_tracker_service.go: a replication from 10 on that misses number 11.
use goxdcr.Prelude.{ℕ, ◌≤◌, ◌≡◌, refl, ◌⊎◌, inl, inr, Option, [], ◌∷◌, done, arith, All, In}
use goxdcr.ThroughSeqno.Lists.{
  DualSeqnoList, append_seqno, append_seqnos, truncate_seqnos, truncate_dual_seqnos,
}
use goxdcr.ThroughSeqno.Compute.{SeqnoLists, max_seqno, bound, compute}
use goxdcr.ThroughSeqno.Service.{
  VbTracker, sends, receives, gets_through, initialize, set_start_seqno, add_sent_seqno, last_seen,
  pred_uint64, process_gap_seqnos, get_through_seqno, vb_step,
}
use goxdcr.ThroughSeqno.Rounds.{IsWell}
use goxdcr.ThroughSeqno.Largest.{after, IsThrough, IsNew, compute-IsThrough}
use goxdcr.ThroughSeqno.Truncate.{Truncated, truncate_seqnos-Truncated}
use goxdcr.ThroughSeqno.TruncateGaps.{kept_ranges, truncate_dual_seqnos-eq}
use goxdcr.ThroughSeqno.History.{History, Gapped}
use goxdcr.ThroughSeqno.Truncations.{Keeps}
use goxdcr.ThroughSeqno.Safety.{
  Reaches, fresh, stay, go, start-IsTracked, vb_step-IsTracked, checkpoint_safe,
  tracker_never_panics, checkpoint_complete,
}

abbrev started : VbTracker
unfolding set_start_seqno initialize
started = set_start_seqno 10 initialize

abbrev with_gap : VbTracker
with_gap = record {
  through_seqno = 10;
  last_seen_seqno = 12;
  sent = [];
  filtered = [];
  failed_cr = [];
  gap = record { seqno_list_1 = 11 ∷ []; seqno_list_2 = 11 ∷ [] };
  truncations = [];
}

abbrev with_sent : VbTracker
with_sent = record with_gap { sent = 12 ∷ [] }

abbrev received_12 : History
received_12 = record { start = 10; received = 12 ∷ []; reported = [] }

abbrev reported_12 : History
reported_12 = record { start = 10; received = 12 ∷ []; reported = 12 ∷ [] }

receive_12 : vb_step (receives 12) started ≡ done with_gap
unfolding vb_step process_gap_seqnos last_seen pred_uint64 append_seqnos set_start_seqno initialize
receive_12 = refl

send_12 : vb_step (sends 12) with_gap ≡ done with_sent
unfolding vb_step add_sent_seqno append_seqno
send_12 = refl

in_run : Reaches 10 with_sent reported_12
unfolding started set_start_seqno
in_run =
    go (receives 12) (omega arith, tt, omega arith) receive_12
      (go (sends 12) (inl refl, λ n. n) send_12 stay)

checkpoint_safe_example :
    ((k : ℕ) → k ≤ 10 → In k (12 ∷ []) → In k (12 ∷ []))
    × (◌≡◌ {A = ℕ} 10 10 ⊎ In 10 (12 ∷ []))
    × ¬ Gapped with_sent 10
checkpoint_safe_example = checkpoint_safe 10 (omega arith) in_run

checkpoint_complete_example :
    (u : VbTracker) × (get_through_seqno with_sent ≡ done u)
    × In u.through_seqno (12 ∷ [])
    × All (λ k. k ≤ u.through_seqno) (12 ∷ [])
checkpoint_complete_example =
    checkpoint_complete 10 {t = with_sent} {h = reported_12} (omega arith) in_run (omega arith)
      (λ k m. m)

tracker_never_panics_example : (t' : VbTracker) × (vb_step gets_through with_sent ≡ done t')
tracker_never_panics_example = tracker_never_panics 10 gets_through (omega arith) in_run tt

vb_step-IsTracked_example : Keeps received_12 (vb_step (receives 12) started)
unfolding started set_start_seqno
vb_step-IsTracked_example =
    vb_step-IsTracked {t = started} {h = fresh 10} (receives 12) (start-IsTracked 10 (omega arith))
      (omega arith, tt, omega arith)

-- 11 is skipped, 12 sent, 13 filtered, and 15 sent ahead of 14.
abbrev some_lists : SeqnoLists
some_lists = record {
  sent_seqno_list = 12 ∷ 15 ∷ [];
  filtered_seqno_list = 13 ∷ [];
  failed_cr_seqno_list = [];
  gaps = record { seqno_list_1 = 11 ∷ []; seqno_list_2 = 11 ∷ [] };
}

some_lists-IsWell : IsWell some_lists
unfolding bound max_seqno
some_lists-IsWell = record {
  sent = (omega arith, (omega arith, tt));
  filtered = (omega arith, tt);
  failed_cr = tt;
  ranges = (omega arith, omega arith, tt);
  apart = λ k s g. grind arith;
  small = omega arith;
}

compute-IsThrough_example :
    (found : Option ℕ) × (compute some_lists 10 ≡ done found)
    × IsThrough some_lists 10 (after 10 found)
    × IsNew some_lists 10 found
compute-IsThrough_example = compute-IsThrough some_lists-IsWell 10 (omega arith)

truncate_seqnos-Truncated_example :
    Truncated 13 (11 ∷ 13 ∷ 15 ∷ 14 ∷ []) (truncate_seqnos 13 (11 ∷ 13 ∷ 15 ∷ 14 ∷ []))
truncate_seqnos-Truncated_example =
    truncate_seqnos-Truncated 13 (11 ∷ 13 ∷ 15 ∷ 14 ∷ [])
      (inl (omega arith, inr (omega arith, (omega arith, (omega arith, tt)))))

abbrev two_gaps : DualSeqnoList
two_gaps = record { seqno_list_1 = 11 ∷ 20 ∷ []; seqno_list_2 = 13 ∷ 21 ∷ [] }

truncate_dual_seqnos-eq_example : truncate_dual_seqnos 15 two_gaps ≡ done (kept_ranges 15 two_gaps)
truncate_dual_seqnos-eq_example =
    truncate_dual_seqnos-eq 15 0 two_gaps (omega arith, omega arith, (omega arith, omega arith, tt))
      (λ g. grind arith)
