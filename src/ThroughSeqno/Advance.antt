-- ===== src/ThroughSeqno/Advance.antt =====
-- GetThroughSeqno and the truncations keep what the tracker knows.
use goxdcr.Prelude.{
  ℕ, ◌+◌, ◌^◌, ◌≤◌, ◌<◌, ◌≡◌, refl, ◌⊎◌, inl, inr, true, Option, none, some, List, [], ◌∷◌, done,
  arith, leb, ◌==◌, length, All, All-append, In, Bool-cases,
}
use goxdcr.SimpleUtils.Search.{sort_uint64_list}
use goxdcr.SimpleUtils.Search.Bounds.{Ascends-IsSplit}
use goxdcr.SimpleUtils.Search.Sorting.{sort-IsSorted, In-sort, sort-In}
use goxdcr.ThroughSeqno.Lists.{get_sorted_seqno_list, get_sorted_seqno_lists}
use goxdcr.ThroughSeqno.Gaps.{GapsAbove, InGap}
use goxdcr.ThroughSeqno.Compute.{SeqnoLists, max_seqno, bound}
use goxdcr.ThroughSeqno.Rounds.{Seen, IsWell}
use goxdcr.ThroughSeqno.Largest.{IsThrough, IsNew, after, compute-IsThrough}
use goxdcr.ThroughSeqno.Reports.{All-map}
use goxdcr.ThroughSeqno.Receives.{All-at}
use goxdcr.ThroughSeqno.Service.{Truncation, VbTracker, sorted_lists, conclude, get_through_seqno}
use goxdcr.ThroughSeqno.History.{History, Listed, IsRunning, IsTracked}

max_seqno-le : (b : ℕ) (xs : List ℕ) → ((k : ℕ) → In k xs → k ≤ b) → max_seqno xs ≤ b
unfolding max_seqno
max_seqno-le b [] f = omega arith
max_seqno-le b (x ∷ []) f = f x (inl refl)
max_seqno-le b (x ∷ y ∷ xs) f = max_seqno-le b (y ∷ xs) (λ k h. f k (inr h))

end-InGap : (b k : ℕ) (ss es : List ℕ) → GapsAbove b ss es → In k es → InGap k ss es
end-InGap b k [] [] g h = elim h [ ]
end-InGap b k [] (e ∷ es) g h = elim g [ ]
end-InGap b k (s ∷ ss) [] g h = elim h [ ]
end-InGap b k (s ∷ ss) (e ∷ es) g (inl h) = inl (omega arith, omega arith)
end-InGap b k (s ∷ ss) (e ∷ es) g (inr h) = inr (end-InGap e k ss es g.2 h)

same_lengths : (b : ℕ) (ss es : List ℕ) → GapsAbove b ss es → (length ss == length es) ≡ true
same_lengths b [] [] g = refl
same_lengths b [] (e ∷ es) g = elim g [ ]
same_lengths b (s ∷ ss) [] g = elim g [ ]
same_lengths b (s ∷ ss) (e ∷ es) g = ground (arith, same_lengths e ss es g.2)

module _ {t : VbTracker} {h : History} (v : IsTracked t h) where
  abbrev pub lists : SeqnoLists
  lists = sorted_lists t t.gap

  Seen-Listed : (k : ℕ) → Seen lists k → Listed t k
  unfolding get_sorted_seqno_list
  Seen-Listed k (inl s) = inl (In-sort k t.sent s)
  Seen-Listed k (inr s) = inr s

  pub Listed-Seen : (k : ℕ) → Listed t k → Seen lists k
  unfolding get_sorted_seqno_list
  Listed-Seen k (inl s) = inl (sort-In k t.sent s)
  Listed-Seen k (inr s) = inr s

  pub Seen-received : (k : ℕ) → Seen lists k → In k h.received
  Seen-received k s = v.reported_received k (v.listed_reported k (Seen-Listed k s))

  Seen-le : (k : ℕ) → Seen lists k → k ≤ t.last_seen_seqno
  Seen-le k s = All-at (λ i. i ≤ t.last_seen_seqno) k h.received v.top (Seen-received k s)

  bound-le : bound lists ≤ t.last_seen_seqno
  unfolding bound
  bound-le = omega (
    arith,
    max_seqno-le t.last_seen_seqno lists.sent_seqno_list (λ k m. Seen-le k (inl m)),
    max_seqno-le t.last_seen_seqno lists.filtered_seqno_list (λ k m. Seen-le k (inr (inl m))),
    max_seqno-le t.last_seen_seqno lists.failed_cr_seqno_list (λ k m. Seen-le k (inr (inr m))),
    max_seqno-le t.last_seen_seqno lists.gaps.seqno_list_2 (λ k m.
        let g = (v.gaps_apart k (end-InGap 0 k t.gap.seqno_list_1 _ v.ranges m)).0 in
        omega (arith, g)),
  )

  lists-IsWell : IsWell lists
  unfolding get_sorted_seqno_list
  lists-IsWell = record {
    sent = sort-IsSorted t.sent;
    filtered = v.filtered_sorted;
    failed_cr = v.failed_cr_sorted;
    ranges = v.ranges;
    apart = λ k s g. (v.gaps_apart k g).1 (Seen-received k s);
    small = omega (arith, bound-le, v.small);
  }

  room : t.through_seqno + 1 < 2 ^ 64
  room = elim v.ends [
    | inl e ↦ omega (arith, v.started)
    | inr m ↦
        omega
          (arith, All-at (λ i. i ≤ t.last_seen_seqno) t.through_seqno h.received v.top m, v.small)
  ]

  -- The call returns, and what it stores is the number that the lists give.
  pub get_through_seqno_returns :
      (found : Option ℕ) × (get_through_seqno t ≡ done (conclude t found))
      × IsThrough lists t.through_seqno (after t.through_seqno found)
      × IsNew lists t.through_seqno found
  unfolding get_through_seqno get_sorted_seqno_lists
  get_through_seqno_returns =
      let (found, e, p, q) = compute-IsThrough lists-IsWell t.through_seqno room in
      (found, rw (same_lengths 0 _ _ v.ranges, e), p, q)

  sorted-IsRunning :
      (r : Truncation) (s : ℕ)
      → t.through_seqno ≤ s
      → IsRunning t h r
      → IsRunning (record t { sent = get_sorted_seqno_list true t.sent; through_seqno = s }) h r
  unfolding get_sorted_seqno_list
  sorted-IsRunning r s l p = (
    omega (arith, p.0),
    p.1,
    Ascends-IsSplit r.through 0 (sort_uint64_list t.sent) (sort-IsSorted t.sent),
  )

  module _ (s : ℕ) (p : IsThrough lists t.through_seqno s) where
    done_up_to : (k : ℕ) → k ≤ s → In k h.received → In k h.reported
    done_up_to k l m = elim (Bool-cases (leb k t.through_seqno)) [
      | inl old ↦ v.done_with k (ground arith) m
      | inr new ↦ elim (p.filled k (ground arith) l) [
        | inl seen ↦ v.listed_reported k (Seen-Listed k seen)
        | inr gap ↦ absurd ((v.gaps_apart k gap).1 m)
      ]
    ]

    ends_at : (s ≡ h.start) ⊎ In s h.received
    ends_at = elim p.ends [ inl e ↦ rw e v.ends | inr m ↦ inr (Seen-received s m) ]

    advanced :
        (rs : List Truncation)
        → (t.last_seen_seqno ≡ 0 → s ≡ h.start)
        → All
            (IsRunning (record t { sent = get_sorted_seqno_list true t.sent; through_seqno = s }) h)
            rs
        → IsTracked
            (record t {
              sent = get_sorted_seqno_list true t.sent;
              through_seqno = s;
              truncations = rs;
            })
            h
    unfolding get_sorted_seqno_list
    advanced rs idle running = record {
      started = v.started;
      small = v.small;
      idle = λ z. (idle z, (v.idle z).1);
      top = v.top;
      top_received = v.top_received;
      above = v.above;
      reported_received = v.reported_received;
      listed_reported = λ k l. v.listed_reported k (Seen-Listed k l);
      reported_listed = λ k l m. Listed-Seen k (v.reported_listed k (omega (arith, p.from)) m);
      done_with = done_up_to;
      gaps_above = v.gaps_above;
      gaps_apart = v.gaps_apart;
      complete = λ k l m. v.complete k (omega (arith, p.from)) m;
      filtered_sorted = v.filtered_sorted;
      failed_cr_sorted = v.failed_cr_sorted;
      ranges = v.ranges;
      ends = ends_at;
      running = running;
    }

  idle_through : (s : ℕ) → IsThrough lists t.through_seqno s → t.last_seen_seqno ≡ 0 → s ≡ h.start
  idle_through s p z = elim p.ends [
    | inl e ↦ omega (arith, (v.idle z).0)
    | inr m ↦ absurd (none_received (h.received) (v.idle z).1 (Seen-received s m))
  ]
    where
      none_received : (xs : List ℕ) → xs ≡ [] → ¬ In s xs
      none_received [] e m = m
      none_received (x ∷ xs) e m = cc

  pub conclude-IsTracked :
      (found : Option ℕ)
      → IsThrough lists t.through_seqno (after t.through_seqno found)
      → IsNew lists t.through_seqno found
      → IsTracked (conclude t found) h
  unfolding conclude get_sorted_seqno_list
  conclude-IsTracked none p q =
      advanced t.through_seqno p t.truncations (λ z. (v.idle z).0)
        (All-map t.truncations (λ r. sorted-IsRunning r t.through_seqno (omega arith)) v.running)
  conclude-IsTracked (some s) p q = advanced s p _ (idle_through s p) (
      All-append _ t.truncations _
        (All-map t.truncations (λ r. sorted-IsRunning r s p.from) v.running)
        (
          (
            omega arith,
            Seen-received s q.0,
            Ascends-IsSplit s 0 (sort_uint64_list t.sent) (sort-IsSorted t.sent),
          ),
          tt,
        ))
