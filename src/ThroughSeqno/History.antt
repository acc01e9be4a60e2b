-- ===== src/ThroughSeqno/History.antt =====
-- What a vbucket's tracker knows of the history of its mutations: the mutations arrive in the order of
-- their numbers, and each one is then reported once as sent, filtered or failed.
use goxdcr.Prelude.{ℕ, ◌+◌, ◌^◌, ◌≤◌, ◌<◌, ◌≡◌, ◌⊎◌, List, [], ◌∷◌, All, In, IsSorted}
use goxdcr.SimpleUtils.Search.Bounds.{IsSplit}
use goxdcr.ThroughSeqno.Gaps.{GapsAbove, InGap}
use goxdcr.ThroughSeqno.Service.{
  Truncation, VbTracker, VbEvent, sends, filters, fails_cr, receives, gets_through, truncates,
}

-- The numbers received from DCP and the numbers reported, newest first, after the number where the
-- replication started.
pub record History : Type 0 where
  pub start : ℕ
  pub received : List ℕ
  pub reported : List ℕ

abbrev pub records : VbEvent → History → History
records (sends n) h = record h { reported = n ∷ h.reported }
records (filters n) h = record h { reported = n ∷ h.reported }
records (fails_cr n) h = record h { reported = n ∷ h.reported }
records (receives n) h = record h { received = n ∷ h.received }
records gets_through h = h
records (truncates i) h = h

abbrev Reports : ℕ → History → Type 0
Reports n h = In n h.received × (¬ In n h.reported)

-- The events that are allowed: receives in the order of their numbers, and reports of mutations that
-- were received and not yet reported, where the filtered numbers, and those that failed conflict
-- resolution, are reported in order. A report that is handled before the receive of its mutation, which
-- the listeners of the service do not rule out, is not among them.
abbrev pub IsAllowed : VbEvent → VbTracker → History → Type 0
IsAllowed (sends n) t h = Reports n h
IsAllowed (filters n) t h = Reports n h × All (λ k. k ≤ n) t.filtered
IsAllowed (fails_cr n) t h = Reports n h × All (λ k. k ≤ n) t.failed_cr
IsAllowed (receives n) t h = (h.start < n) × All (λ k. k < n) h.received × (n + 1 < 2 ^ 64)
IsAllowed gets_through t h = Unit {0}
IsAllowed (truncates i) t h = Unit {0}

abbrev pub Listed : VbTracker → ℕ → Type 0
Listed t k = In k t.sent ⊎ (In k t.filtered ⊎ In k t.failed_cr)

abbrev pub Gapped : VbTracker → ℕ → Type 0
Gapped t k = InGap k t.gap.seqno_list_1 t.gap.seqno_list_2

-- A running truncation is at a number that was received and is done with.
abbrev pub IsRunning : VbTracker → History → Truncation → Type 0
IsRunning t h r = (r.through ≤ t.through_seqno) × In r.through h.received × IsSplit r.through t.sent

pub record IsTracked (t : VbTracker) (h : History) : Type 0 where
  pub started : h.start + 1 < 2 ^ 64
  pub small : t.last_seen_seqno + 1 < 2 ^ 64
  pub idle : t.last_seen_seqno ≡ 0 → (t.through_seqno ≡ h.start) × (h.received ≡ [])
  pub top : All (λ k. k ≤ t.last_seen_seqno) h.received
  pub top_received : (t.last_seen_seqno ≡ 0) ⊎ In t.last_seen_seqno h.received
  pub above : All (λ k. h.start < k) h.received
  pub reported_received : (k : ℕ) → In k h.reported → In k h.received
  pub listed_reported : (k : ℕ) → Listed t k → In k h.reported
  pub reported_listed : (k : ℕ) → t.through_seqno < k → In k h.reported → Listed t k
  pub done_with : (k : ℕ) → k ≤ t.through_seqno → In k h.received → In k h.reported
  pub gaps_above : (k : ℕ) → Gapped t k → h.start < k
  pub gaps_apart : (k : ℕ) → Gapped t k → (k < t.last_seen_seqno) × (¬ In k h.received)
  pub complete :
      (k : ℕ) → t.through_seqno < k → k ≤ t.last_seen_seqno → In k h.received ⊎ Gapped t k
  pub filtered_sorted : IsSorted t.filtered
  pub failed_cr_sorted : IsSorted t.failed_cr
  pub ranges : GapsAbove 0 t.gap.seqno_list_1 t.gap.seqno_list_2
  pub ends : (t.through_seqno ≡ h.start) ⊎ In t.through_seqno h.received
  pub running : All (IsRunning t h) t.truncations
