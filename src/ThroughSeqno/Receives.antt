-- ===== src/ThroughSeqno/Receives.antt =====
-- A mutation from DCP, and the gap that it may leave behind.
use goxdcr.Prelude.{
  ℕ, ◌+◌, ◌-◌, ◌%◌, ◌^◌, ◌≤◌, ◌<◌, ◌≡◌, refl, ◌⊎◌, inl, inr, true, false, List, [], ◌∷◌, ◌++◌,
  arith, ltb, ◌==◌, All, In, Bool-cases,
}
use goxdcr.ThroughSeqno.Lists.{DualSeqnoList, append_seqnos}
use goxdcr.ThroughSeqno.Gaps.{GapsAbove, InGap}
use goxdcr.ThroughSeqno.Reports.{All-map}
use goxdcr.ThroughSeqno.Service.{VbTracker, last_seen, pred_uint64, process_gap_seqnos, receives}
use goxdcr.ThroughSeqno.History.{History, records, IsAllowed, Gapped, IsTracked}

GapsAbove-snoc :
    (b s e : ℕ) (ss es : List ℕ)
    → GapsAbove b ss es
    → b < s
    → ((k : ℕ) → InGap k ss es → k < s)
    → s ≤ e
    → GapsAbove b (ss ++ s ∷ []) (es ++ e ∷ [])
GapsAbove-snoc b s e [] [] g l f m = (l, m, tt)
GapsAbove-snoc b s e [] (y ∷ es) g l f m = elim g [ ]
GapsAbove-snoc b s e (x ∷ ss) [] g l f m = elim g [ ]
GapsAbove-snoc b s e (x ∷ ss) (y ∷ es) g l f m =
    (g.0, g.1, GapsAbove-snoc y s e ss es g.2 (f y (inl (g.1, omega arith))) (λ k h. f k (inr h)) m)

InGap-snoc :
    (b k s e : ℕ) (ss es : List ℕ)
    → GapsAbove b ss es
    → InGap k (ss ++ s ∷ []) (es ++ e ∷ [])
    → InGap k ss es ⊎ ((s ≤ k) × (k ≤ e))
InGap-snoc b k s e [] [] g (inl h) = inr h
InGap-snoc b k s e [] [] g (inr h) = elim h [ ]
InGap-snoc b k s e [] (y ∷ es) g h = elim g [ ]
InGap-snoc b k s e (x ∷ ss) [] g h = elim g [ ]
InGap-snoc b k s e (x ∷ ss) (y ∷ es) g (inl h) = inl (inl h)
InGap-snoc b k s e (x ∷ ss) (y ∷ es) g (inr h) = elim (InGap-snoc y k s e ss es g.2 h) [
  | inl o ↦ inl (inr o)
  | inr n ↦ inr n
]

snoc-InGap :
    (b k s e : ℕ) (ss es : List ℕ)
    → GapsAbove b ss es
    → InGap k ss es ⊎ ((s ≤ k) × (k ≤ e))
    → InGap k (ss ++ s ∷ []) (es ++ e ∷ [])
snoc-InGap b k s e [] [] g (inl h) = elim h [ ]
snoc-InGap b k s e [] [] g (inr h) = inl h
snoc-InGap b k s e [] (y ∷ es) g h = elim g [ ]
snoc-InGap b k s e (x ∷ ss) [] g h = elim g [ ]
snoc-InGap b k s e (x ∷ ss) (y ∷ es) g (inl (inl h)) = inl h
snoc-InGap b k s e (x ∷ ss) (y ∷ es) g (inl (inr h)) = inr (snoc-InGap y k s e ss es g.2 (inl h))
snoc-InGap b k s e (x ∷ ss) (y ∷ es) g (inr h) = inr (snoc-InGap y k s e ss es g.2 (inr h))

pub All-at : (P : ℕ → Type 0) (k : ℕ) (xs : List ℕ) → All P xs → In k xs → P k
All-at P k [] a h = elim h [ ]
All-at P k (x ∷ xs) a (inl e) = rw e a.0
All-at P k (x ∷ xs) a (inr h) = All-at P k xs a.1 h

module _ {t : VbTracker} {h : History} (v : IsTracked t h) (n : ℕ)
    (ok : IsAllowed (receives n) t h) where
  -- The number that the new one is compared with: all before it are known of.
  record Last : Type 0 where
    before : last_seen t < n
    since : h.start ≤ last_seen t
    known : t.last_seen_seqno ≤ last_seen t
    reached : t.through_seqno ≤ last_seen t
    nothing_between :
        (t.last_seen_seqno ≡ last_seen t)
        ⊎ ((t.through_seqno ≡ last_seen t) × (t.last_seen_seqno ≡ 0))

  last_when : In t.last_seen_seqno h.received → (t.last_seen_seqno == 0) ≡ false → Last
  unfolding last_seen
  last_when m p =
      let seen = All-at (λ k. k < n) t.last_seen_seqno h.received ok.1 m in
      let after_start = All-at (λ k. h.start < k) t.last_seen_seqno h.received v.above m in
      record {
        before = rw p seen;
        since = rw p (omega (arith, after_start));
        known = rw p (omega arith);
        reached = rw p (elim v.ends [
          | inl e ↦ omega (arith, after_start)
          | inr r ↦ All-at (λ k. k ≤ t.last_seen_seqno) t.through_seqno h.received v.top r
        ]);
        nothing_between = inl (rw p);
      }

  last_first : t.last_seen_seqno ≡ 0 → Last
  unfolding last_seen
  last_first z =
      let i = v.idle z in
      let p : (t.last_seen_seqno == 0) ≡ true = ground arith in
      record {
        before = rw p (omega (arith, ok.0, i.0));
        since = rw p (omega (arith, i.0));
        known = rw p (omega arith);
        reached = rw p (omega arith);
        nothing_between = inr (rw p, z);
      }

  last : Last
  last = elim (Bool-cases (t.last_seen_seqno == 0)) [
    | inl z ↦ last_first (ground arith)
    | inr p ↦ elim v.top_received [ inl z ↦ last_first z | inr m ↦ last_when m p ]
  ]

  prev : pred_uint64 n ≡ n - 1
  unfolding pred_uint64
  prev = omega (arith, ok.0, ok.2)

  wide : (last_seen t + 1) % 2 ^ 64 ≡ last_seen t + 1
  wide = omega (arith, last.before, ok.2)

  -- The gap ranges afterwards: those before, and the numbers passed over.
  abbrev received' : History
  received' = records (receives n) h

  record GapsAfter (t' : VbTracker) : Type 0 where
    ranges : GapsAbove 0 t'.gap.seqno_list_1 t'.gap.seqno_list_2
    old_or_new : (k : ℕ) → Gapped t' k → Gapped t k ⊎ ((last_seen t < k) × (k < n))
    kept : (k : ℕ) → Gapped t k → Gapped t' k
    passed : (k : ℕ) → last_seen t < k → k < n → Gapped t' k

  gap_before : (k : ℕ) → Gapped t k → k < last_seen t + 1
  gap_before k g = omega (arith, (v.gaps_apart k g).0, last.known)

  with_gap :
      (last_seen t < n - 1)
      → GapsAfter (record t {
        last_seen_seqno = n;
        gap = record {
          seqno_list_1 = t.gap.seqno_list_1 ++ (last_seen t + 1) ∷ [];
          seqno_list_2 = t.gap.seqno_list_2 ++ (n - 1) ∷ [];
        };
      })
  with_gap l = record {
    ranges =
        GapsAbove-snoc 0 (last_seen t + 1) (n - 1) _ _ v.ranges (omega arith) gap_before
          (omega arith);
    old_or_new = λ k g. elim (InGap-snoc 0 k (last_seen t + 1) (n - 1) _ _ v.ranges g) [
      | inl o ↦ inl o
      | inr r ↦ inr (omega arith, omega arith)
    ];
    kept = λ k g. snoc-InGap 0 k (last_seen t + 1) (n - 1) _ _ v.ranges (inl g);
    passed = λ k a b.
        snoc-InGap 0 k (last_seen t + 1) (n - 1) _ _ v.ranges (inr (omega arith, omega arith));
  }

  without_gap : ¬ (last_seen t < n - 1) → GapsAfter (record t { last_seen_seqno = n })
  without_gap l = record {
    ranges = v.ranges;
    old_or_new = λ k g. inl g;
    kept = λ k g. g;
    passed = λ k a b. absurd (l (omega arith));
  }

  tracked_after :
      (gap : DualSeqnoList)
      → GapsAfter (record t { last_seen_seqno = n; gap = gap })
      → IsTracked (record t { last_seen_seqno = n; gap = gap }) received'
  tracked_after gap g = record {
    started = v.started;
    small = ok.2;
    idle = λ z. absurd (omega (arith, last.before));
    top = (omega arith, All-map h.received (λ k l. omega arith) ok.1);
    top_received = inr (inl refl);
    above = (ok.0, v.above);
    reported_received = λ k m. inr (v.reported_received k m);
    listed_reported = v.listed_reported;
    reported_listed = v.reported_listed;
    done_with = λ k l m. elim m [
      | inl e ↦ absurd (omega (arith, last.before, last.reached))
      | inr m ↦ v.done_with k l m
    ];
    gaps_above = λ k m. elim (g.old_or_new k m) [
      | inl o ↦ v.gaps_above k o
      | inr w ↦ omega (arith, last.since, w.0)
    ];
    gaps_apart = λ k m. elim (g.old_or_new k m) [
      | inl o ↦ (
        omega (arith, gap_before k o, last.before),
        λ r. elim r [
          | inl e ↦ omega (arith, gap_before k o, last.before)
          | inr r ↦ (v.gaps_apart k o).1 r
        ],
      )
      | inr w ↦ (
        w.1,
        λ r. elim r [
          | inl e ↦ omega arith
          | inr r ↦
              omega (arith, All-at (λ i. i ≤ t.last_seen_seqno) k h.received v.top r, last.known)
        ],
      )
    ];
    complete = λ k l m. elim (Bool-cases (ltb k n)) [
      | inr e ↦ inl (inl (ground arith))
      | inl lt ↦ elim (Bool-cases (ltb (last_seen t) k)) [
        | inl past ↦ inr (g.passed k (ground arith) (ground arith))
        | inr old ↦ elim last.nothing_between [
          | inl e ↦ elim (v.complete k l (ground arith)) [
            | inl r ↦ inl (inr r)
            | inr o ↦ inr (g.kept k o)
          ]
          | inr e ↦ absurd (ground arith)
        ]
      ]
    ];
    filtered_sorted = v.filtered_sorted;
    failed_cr_sorted = v.failed_cr_sorted;
    ranges = g.ranges;
    ends = elim v.ends [ inl e ↦ inl e | inr m ↦ inr (inr m) ];
    running = All-map t.truncations (λ p s. (s.0, inr s.1, s.2)) v.running;
  }

  pub receives-IsTracked : IsTracked (process_gap_seqnos n t) received'
  unfolding process_gap_seqnos append_seqnos
  receives-IsTracked = elim (Bool-cases (ltb (last_seen t) (n - 1))) [
    | inl l ↦ rw (prev, wide, l) (tracked_after _ (with_gap (ground arith)))
    | inr l ↦ rw (prev, l) (tracked_after t.gap (without_gap (λ m. absurd (ground arith))))
  ]
