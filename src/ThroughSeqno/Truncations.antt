-- ===== src/ThroughSeqno/Truncations.antt =====
-- The running truncations keep what the tracker knows, in any order and between any other events.
use goxdcr.Prelude.{
  ℕ, zero, suc, ◌≤◌, ◌≡◌, refl, inl, inr, List, [], ◌∷◌, ◌++◌, Outcome, done, arith, All,
  All-append,
}
use goxdcr.SimpleUtils.Search.Bounds.{IsSplit, Ascends-IsSplit}
use goxdcr.ThroughSeqno.Truncate.{truncate_seqnos-Truncated}
use goxdcr.ThroughSeqno.TruncateGaps.{
  kept_ranges, truncate_dual_seqnos-eq, kept_ranges-GapsTruncated,
}
use goxdcr.ThroughSeqno.Lists.{truncate_seqnos}
use goxdcr.ThroughSeqno.Reports.{All-map}
use goxdcr.ThroughSeqno.Service.{
  Stage, sent_next, filtered_next, failed_cr_next, gap_next, Truncation, VbTracker, truncate_stage,
  after_stage, run_truncation,
}
use goxdcr.ThroughSeqno.History.{History, Gapped, IsRunning, IsTracked}

module _ {t : VbTracker} {h : History} (v : IsTracked t h) (p : ℕ) where
  module _ (le : p ≤ t.through_seqno) (rs : List Truncation) where
    truncated_sent :
        All (IsRunning t h) rs
        → IsSplit p t.sent
        → IsTracked (record t { sent = truncate_seqnos p t.sent; truncations = rs }) h
    truncated_sent running s =
        let c = truncate_seqnos-Truncated p t.sent s in
        record {
          started = v.started;
          small = v.small;
          idle = v.idle;
          top = v.top;
          top_received = v.top_received;
          above = v.above;
          reported_received = v.reported_received;
          listed_reported =
              λ k l. v.listed_reported k (elim l [ inl s ↦ inl (c.old k s) | inr s ↦ inr s ]);
          reported_listed = λ k l m. elim (v.reported_listed k l m) [
            | inl s ↦ inl (c.kept k (omega arith) s)
            | inr s ↦ inr s
          ];
          done_with = v.done_with;
          gaps_above = v.gaps_above;
          gaps_apart = v.gaps_apart;
          complete = v.complete;
          filtered_sorted = v.filtered_sorted;
          failed_cr_sorted = v.failed_cr_sorted;
          ranges = v.ranges;
          ends = v.ends;
          running = All-map rs (λ r q. (q.0, q.1, c.split r.through q.2)) running;
        }

    truncated_filtered :
        All (IsRunning t h) rs
        → IsTracked (record t { filtered = truncate_seqnos p t.filtered; truncations = rs }) h
    truncated_filtered running =
        let c = truncate_seqnos-Truncated p t.filtered (Ascends-IsSplit p 0 _ v.filtered_sorted) in
        record {
          started = v.started;
          small = v.small;
          idle = v.idle;
          top = v.top;
          top_received = v.top_received;
          above = v.above;
          reported_received = v.reported_received;
          listed_reported = λ k l. v.listed_reported k (elim l [
            | inl s ↦ inl s
            | inr s ↦ inr (elim s [ inl f ↦ inl (c.old k f) | inr f ↦ inr f ])
          ]);
          reported_listed = λ k l m. elim (v.reported_listed k l m) [
            | inl s ↦ inl s
            | inr s ↦ inr (elim s [ inl f ↦ inl (c.kept k (omega arith) f) | inr f ↦ inr f ])
          ];
          done_with = v.done_with;
          gaps_above = v.gaps_above;
          gaps_apart = v.gaps_apart;
          complete = v.complete;
          filtered_sorted = c.sorted v.filtered_sorted;
          failed_cr_sorted = v.failed_cr_sorted;
          ranges = v.ranges;
          ends = v.ends;
          running = running;
        }

    truncated_failed_cr :
        All (IsRunning t h) rs
        → IsTracked (record t { failed_cr = truncate_seqnos p t.failed_cr; truncations = rs }) h
    truncated_failed_cr running =
        let c =
          truncate_seqnos-Truncated p t.failed_cr (Ascends-IsSplit p 0 _ v.failed_cr_sorted) in
        record {
          started = v.started;
          small = v.small;
          idle = v.idle;
          top = v.top;
          top_received = v.top_received;
          above = v.above;
          reported_received = v.reported_received;
          listed_reported = λ k l. v.listed_reported k (elim l [
            | inl s ↦ inl s
            | inr s ↦ inr (elim s [ inl f ↦ inl f | inr f ↦ inr (c.old k f) ])
          ]);
          reported_listed = λ k l m. elim (v.reported_listed k l m) [
            | inl s ↦ inl s
            | inr s ↦ inr (elim s [ inl f ↦ inl f | inr f ↦ inr (c.kept k (omega arith) f) ])
          ];
          done_with = v.done_with;
          gaps_above = v.gaps_above;
          gaps_apart = v.gaps_apart;
          complete = v.complete;
          filtered_sorted = v.filtered_sorted;
          failed_cr_sorted = c.sorted v.failed_cr_sorted;
          ranges = v.ranges;
          ends = v.ends;
          running = running;
        }

    truncated_gap :
        All (IsRunning t h) rs
        → ¬ Gapped t p
        → IsTracked (record t { gap = kept_ranges p t.gap; truncations = rs }) h
    truncated_gap running out =
        let c = kept_ranges-GapsTruncated p t.gap v.ranges out in
        record {
          started = v.started;
          small = v.small;
          idle = v.idle;
          top = v.top;
          top_received = v.top_received;
          above = v.above;
          reported_received = v.reported_received;
          listed_reported = v.listed_reported;
          reported_listed = v.reported_listed;
          done_with = v.done_with;
          gaps_above = λ k g. v.gaps_above k (c.old k g);
          gaps_apart = λ k g. v.gaps_apart k (c.old k g);
          complete = λ k l m. elim (v.complete k l m) [
            | inl r ↦ inl r
            | inr g ↦ inr (c.kept k (omega arith) g)
          ];
          filtered_sorted = v.filtered_sorted;
          failed_cr_sorted = v.failed_cr_sorted;
          ranges = c.ranges;
          ends = v.ends;
          running = running;
        }

-- A step returns, and the tracker knows as much as before.
abbrev pub Keeps : History → Outcome VbTracker → Type 0
Keeps h o = (t' : VbTracker) × (o ≡ done t') × IsTracked t' h

module _ {t : VbTracker} {h : History} (v : IsTracked t h) where
  truncate_stage-Keeps :
      (s : Stage) (p : ℕ) (before rest : List Truncation)
      → All (IsRunning t h) before
      → All (IsRunning t h) rest
      → IsRunning t h (record { stage = s; through = p })
      → Keeps h
          (truncate_stage s p (record t { truncations = before ++ (after_stage s p ++ rest) }))
  unfolding truncate_stage after_stage
  truncate_stage-Keeps sent_next p before rest b r q =
      (_, refl, truncated_sent v p q.0 _ (All-append _ before _ b (q, r)) q.2)
  truncate_stage-Keeps filtered_next p before rest b r q =
      (_, refl, truncated_filtered v p q.0 _ (All-append _ before _ b (q, r)))
  truncate_stage-Keeps failed_cr_next p before rest b r q =
      (_, refl, truncated_failed_cr v p q.0 _ (All-append _ before _ b (q, r)))
  truncate_stage-Keeps gap_next p before rest b r q =
      let out = λ (g : Gapped t p). (v.gaps_apart p g).1 q.1 in
      (
        _,
        rw (truncate_dual_seqnos-eq p 0 t.gap v.ranges out),
        truncated_gap v p q.0 _ (All-append _ before _ b r) out,
      )

  pub run_truncation-Keeps :
      (i : ℕ) (before rest : List Truncation)
      → All (IsRunning t h) before
      → All (IsRunning t h) rest
      → Keeps h (run_truncation i before rest t)
  unfolding run_truncation
  run_truncation-Keeps i before [] b r = (t, refl, v)
  run_truncation-Keeps zero before (x ∷ rest) b r =
      truncate_stage-Keeps x.stage x.through before rest b r.1 r.0
  run_truncation-Keeps (suc i) before (x ∷ rest) b r =
      run_truncation-Keeps i (before ++ x ∷ []) rest (All-append _ before (x ∷ []) b (r.0, tt)) r.1
