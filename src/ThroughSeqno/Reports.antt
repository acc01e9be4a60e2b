-- ===== src/ThroughSeqno/Reports.antt =====
-- The reports of sent, filtered and failed mutations, and the mutations received, keep what the tracker
-- knows.
use goxdcr.Prelude.{
  ℕ, ◌≤◌, ◌<◌, ◌≡◌, ◌⊎◌, inl, inr, List, [], ◌∷◌, ◌++◌, arith, leb, All, In, In-append,
  In-append_left, In-append_right, Ascends, Bool-cases,
}
use goxdcr.ThroughSeqno.Lists.{append_seqno}
use goxdcr.ThroughSeqno.Truncate.{IsSplit-append}
use goxdcr.ThroughSeqno.Service.{
  Truncation, VbTracker, add_sent_seqno, add_filtered_seqno, add_failed_cr_seqno, sends, filters,
  fails_cr,
}
use goxdcr.ThroughSeqno.History.{History, records, IsRunning, IsTracked}

-- What an entry at the end of one list changes.
In-snoc : (k n : ℕ) (xs : List ℕ) → In k (xs ++ n ∷ []) → In k xs ⊎ (k ≡ n)
In-snoc k n xs h = elim (In-append k xs (n ∷ []) h) [
  | inl l ↦ inl l
  | inr r ↦ elim r [ inl e ↦ inr e | inr b ↦ absurd b ]
]

snoc-In : (k n : ℕ) (xs : List ℕ) → In k xs ⊎ (k ≡ n) → In k (xs ++ n ∷ [])
snoc-In k n xs (inl h) = In-append_left k xs (n ∷ []) h
snoc-In k n xs (inr e) = In-append_right k xs (n ∷ []) (inl e)

Ascends-snoc :
    (b n : ℕ) (xs : List ℕ) → b ≤ n → All (λ k. k ≤ n) xs → Ascends b xs → Ascends b (xs ++ n ∷ [])
Ascends-snoc b n [] l a s = (l, tt)
Ascends-snoc b n (x ∷ xs) l a s = (s.0, Ascends-snoc x n xs a.0 a.1 s.1)

pub All-map {ℓ κ μ} :
    {A : Type ℓ} {P : A → Type κ} {Q : A → Type μ} (xs : List A)
    → ((a : A) → P a → Q a)
    → All P xs
    → All Q xs
All-map [] f h = tt
All-map (x ∷ xs) f h = (f x h.0, All-map xs f h.1)

module _ {t : VbTracker} {h : History} (v : IsTracked t h) where
  -- A mutation not yet reported is past the through seqno.
  past_through : (n : ℕ) → In n h.received → ¬ In n h.reported → t.through_seqno < n
  past_through n r u = elim (Bool-cases (leb n t.through_seqno)) [
    | inl le ↦ absurd (u (v.done_with n (ground arith) r))
    | inr gt ↦ ground arith
  ]

  module _ (n : ℕ) (r : In n h.received) (u : ¬ In n h.reported) where
    abbrev reported' : List ℕ
    reported' = n ∷ h.reported

    reported_received' : (k : ℕ) → In k reported' → In k h.received
    reported_received' k (inl e) = rw e r
    reported_received' k (inr m) = v.reported_received k m

    IsRunning-sent :
        (rs : List Truncation)
        → All (IsRunning t h) rs
        → All (IsRunning (add_sent_seqno n t) (record h { reported = reported' })) rs
    unfolding add_sent_seqno append_seqno
    IsRunning-sent rs = All-map rs (λ p s.
        (s.0, s.1, IsSplit-append p.through n t.sent (omega (arith, past_through n r u, s.0)) s.2))

    pub sends-IsTracked : IsTracked (add_sent_seqno n t) (records (sends n) h)
    unfolding add_sent_seqno append_seqno
    sends-IsTracked = record {
      started = v.started;
      small = v.small;
      idle = v.idle;
      top = v.top;
      top_received = v.top_received;
      above = v.above;
      reported_received = reported_received';
      listed_reported = λ k l. elim l [
        | inl s ↦ elim (In-snoc k n t.sent s) [
          | inl o ↦ inr (v.listed_reported k (inl o))
          | inr e ↦ inl e
        ]
        | inr o ↦ inr (v.listed_reported k (inr o))
      ];
      reported_listed = λ k l m. elim m [
        | inl e ↦ inl (snoc-In k n t.sent (inr e))
        | inr o ↦ elim (v.reported_listed k l o) [
          | inl s ↦ inl (snoc-In k n t.sent (inl s))
          | inr s ↦ inr s
        ]
      ];
      done_with = λ k l m. inr (v.done_with k l m);
      gaps_above = v.gaps_above;
      gaps_apart = v.gaps_apart;
      complete = v.complete;
      filtered_sorted = v.filtered_sorted;
      failed_cr_sorted = v.failed_cr_sorted;
      ranges = v.ranges;
      ends = v.ends;
      running = IsRunning-sent t.truncations v.running;
    }

    pub filters-IsTracked :
        All (λ k. k ≤ n) t.filtered → IsTracked (add_filtered_seqno n t) (records (filters n) h)
    unfolding add_filtered_seqno append_seqno
    filters-IsTracked a = record {
      started = v.started;
      small = v.small;
      idle = v.idle;
      top = v.top;
      top_received = v.top_received;
      above = v.above;
      reported_received = reported_received';
      listed_reported = λ k l. elim l [
        | inl s ↦ inr (v.listed_reported k (inl s))
        | inr o ↦ elim o [
          | inl s ↦ elim (In-snoc k n t.filtered s) [
            | inl o ↦ inr (v.listed_reported k (inr (inl o)))
            | inr e ↦ inl e
          ]
          | inr s ↦ inr (v.listed_reported k (inr (inr s)))
        ]
      ];
      reported_listed = λ k l m. elim m [
        | inl e ↦ inr (inl (snoc-In k n t.filtered (inr e)))
        | inr o ↦ elim (v.reported_listed k l o) [
          | inl s ↦ inl s
          | inr s ↦ elim s [
            | inl f ↦ inr (inl (snoc-In k n t.filtered (inl f)))
            | inr f ↦ inr (inr f)
          ]
        ]
      ];
      done_with = λ k l m. inr (v.done_with k l m);
      gaps_above = v.gaps_above;
      gaps_apart = v.gaps_apart;
      complete = v.complete;
      filtered_sorted = Ascends-snoc 0 n t.filtered (omega arith) a v.filtered_sorted;
      failed_cr_sorted = v.failed_cr_sorted;
      ranges = v.ranges;
      ends = v.ends;
      running = v.running;
    }

    pub fails_cr-IsTracked :
        All (λ k. k ≤ n) t.failed_cr → IsTracked (add_failed_cr_seqno n t) (records (fails_cr n) h)
    unfolding add_failed_cr_seqno append_seqno
    fails_cr-IsTracked a = record {
      started = v.started;
      small = v.small;
      idle = v.idle;
      top = v.top;
      top_received = v.top_received;
      above = v.above;
      reported_received = reported_received';
      listed_reported = λ k l. elim l [
        | inl s ↦ inr (v.listed_reported k (inl s))
        | inr o ↦ elim o [
          | inl s ↦ inr (v.listed_reported k (inr (inl s)))
          | inr s ↦ elim (In-snoc k n t.failed_cr s) [
            | inl o ↦ inr (v.listed_reported k (inr (inr o)))
            | inr e ↦ inl e
          ]
        ]
      ];
      reported_listed = λ k l m. elim m [
        | inl e ↦ inr (inr (snoc-In k n t.failed_cr (inr e)))
        | inr o ↦ elim (v.reported_listed k l o) [
          | inl s ↦ inl s
          | inr s ↦ elim s [
            | inl f ↦ inr (inl f)
            | inr f ↦ inr (inr (snoc-In k n t.failed_cr (inl f)))
          ]
        ]
      ];
      done_with = λ k l m. inr (v.done_with k l m);
      gaps_above = v.gaps_above;
      gaps_apart = v.gaps_apart;
      complete = v.complete;
      filtered_sorted = v.filtered_sorted;
      failed_cr_sorted = Ascends-snoc 0 n t.failed_cr (omega arith) a v.failed_cr_sorted;
      ranges = v.ranges;
      ends = v.ends;
      running = v.running;
    }
