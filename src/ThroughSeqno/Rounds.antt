-- ===== src/ThroughSeqno/Rounds.antt =====
-- What a round of the loop of GetThroughSeqno does to the numbers accounted for.
use goxdcr.Prelude.{
  ℕ, ◌+◌, ◌%◌, ◌^◌, ◌≤◌, ◌<◌, ◌≡◌, refl, ◌⊎◌, inl, inr, true, false, Option, none, some, done,
  arith, leb, In, IsSorted, Bool-cases,
}
use goxdcr.ThroughSeqno.Compute.{
  SeqnoLists, Cursor, seqno_type_sent, seqno_type_filtered, seqno_type_failed_cr, max_seqno,
  gap_round, round_at, round, found_seqno, bound,
}
use goxdcr.ThroughSeqno.Gaps.{
  GapsAbove, InGap, InGap-le-max, In-le-max, probe_cases, is_seqno_gap_seqno_cases,
}

-- The number was sent, filtered, or failed conflict resolution.
abbrev pub Seen : SeqnoLists → ℕ → Type 0
Seen lists k =
    In k lists.sent_seqno_list ⊎ (In k lists.filtered_seqno_list ⊎ In k lists.failed_cr_seqno_list)

abbrev pub Skipped : SeqnoLists → ℕ → Type 0
Skipped lists k = InGap k lists.gaps.seqno_list_1 lists.gaps.seqno_list_2

abbrev pub Covered : SeqnoLists → ℕ → Type 0
Covered lists k = Seen lists k ⊎ Skipped lists k

-- Sorted lists, gap ranges in order, no number both seen and in a gap, and room for one more number
-- in a uint64.
pub record IsWell (lists : SeqnoLists) : Type 0 where
  pub sent : IsSorted lists.sent_seqno_list
  pub filtered : IsSorted lists.filtered_seqno_list
  pub failed_cr : IsSorted lists.failed_cr_seqno_list
  pub ranges : GapsAbove 0 lists.gaps.seqno_list_1 lists.gaps.seqno_list_2
  pub apart : (k : ℕ) → Seen lists k → ¬ Skipped lists k
  pub small : bound lists + 1 < 2 ^ 64

-- What a cursor has found so far: `none` and no number seen, or the largest number seen.
abbrev pub FoundSo : SeqnoLists → ℕ → Cursor → Option ℕ → Type 0
FoundSo lists last c none = (k : ℕ) → last < k → k ≤ c.iter_seqno → ¬ Seen lists k
FoundSo lists last c (some v) =
    Seen lists v
    × (last < v)
    × (v ≤ c.iter_seqno)
    × ((k : ℕ) → v < k → k ≤ c.iter_seqno → ¬ Seen lists k)

pub record CursorAt (lists : SeqnoLists) (last : ℕ) (c : Cursor) : Type 0 where
  pub room : c.iter_seqno + 1 < 2 ^ 64
  pub from : last ≤ c.iter_seqno
  pub filled : (k : ℕ) → last < k → k ≤ c.iter_seqno → Covered lists k
  pub found : Option ℕ
  pub finds : found_seqno lists c ≡ done found
  pub largest : FoundSo lists last c found

-- A round goes on to a larger number, or stops at a number that is not accounted for.
pub data RoundOf (lists : SeqnoLists) (last : ℕ) (c : Cursor) : Type 0 where
  goes_on :
      (c' : Cursor)
      → round lists c ≡ done (true, c')
      → CursorAt lists last c'
      → c.iter_seqno < c'.iter_seqno
      → c'.iter_seqno ≤ bound lists
      → RoundOf lists last c
  stops :
      (c' : Cursor)
      → round lists c ≡ done (false, c')
      → found_seqno lists c' ≡ found_seqno lists c
      → ¬ Covered lists (c.iter_seqno + 1)
      → RoundOf lists last c

FoundSo-extend :
    (lists : SeqnoLists) (last : ℕ) (c : Cursor) (e : ℕ) (found : Option ℕ)
    → FoundSo lists last c found
    → c.iter_seqno ≤ e
    → ((m : ℕ) → c.iter_seqno < m → m ≤ e → ¬ Seen lists m)
    → FoundSo lists last (record c { iter_seqno = e }) found
FoundSo-extend lists last c e none f le out = λ k lo hi. elim (Bool-cases (leb k c.iter_seqno)) [
  | inl old ↦ f k lo (ground arith)
  | inr new ↦ out k (ground arith) hi
]
FoundSo-extend lists last c e (some v) f le out = (
  f.0,
  f.1,
  omega arith,
  λ k lo hi. elim (Bool-cases (leb k c.iter_seqno)) [
    | inl old ↦ f.3 k lo (ground arith)
    | inr new ↦ out k (ground arith) hi
  ],
)

module _ {lists : SeqnoLists} (w : IsWell lists) where
  Seen-le-bound : (k : ℕ) → Seen lists k → k ≤ bound lists
  unfolding bound
  Seen-le-bound k (inl h) = omega (arith, In-le-max 0 k lists.sent_seqno_list w.sent h)
  Seen-le-bound k (inr (inl h)) =
      omega (arith, In-le-max 0 k lists.filtered_seqno_list w.filtered h)
  Seen-le-bound k (inr (inr h)) =
      omega (arith, In-le-max 0 k lists.failed_cr_seqno_list w.failed_cr h)

  Skipped-le-max : (k : ℕ) → Skipped lists k → k ≤ max_seqno lists.gaps.seqno_list_2
  Skipped-le-max k h = InGap-le-max 0 k lists.gaps.seqno_list_1 lists.gaps.seqno_list_2 w.ranges h

  Skipped-le-bound : (k : ℕ) → Skipped lists k → k ≤ bound lists
  unfolding bound
  Skipped-le-bound k h = omega (arith, Skipped-le-max k h)

  module _ {last : ℕ} {c : Cursor} (at : CursorAt lists last c) where
    abbrev next : ℕ
    next = c.iter_seqno + 1

    -- The cursor after a lookup that found the next number.
    Seen-next :
        (c' : Cursor)
        → c'.iter_seqno ≡ next
        → Seen lists next
        → found_seqno lists c' ≡ done (some next)
        → CursorAt lists last c'
    Seen-next c' e h f = record {
      room = omega (arith, e, Seen-le-bound next h, w.small);
      from = omega (arith, e, at.from);
      filled = λ k lo hi. elim (Bool-cases (leb k c.iter_seqno)) [
        | inl old ↦ at.filled k lo (ground arith)
        | inr new ↦ let p : k ≡ next = ground arith in rw p (inl h)
      ];
      found = some next;
      finds = f;
      largest = (h, omega (arith, at.from), omega arith, λ k lo hi. absurd (omega arith));
    }

    -- The cursor after a jump over a gap range.
    jump :
        (e : ℕ)
        → next ≤ e
        → ((m : ℕ) → next ≤ m → m ≤ e → Skipped lists m)
        → CursorAt lists last (record c { iter_seqno = e })
    unfolding found_seqno
    jump e le skipped = record {
      room = omega (arith, Skipped-le-bound e (skipped e le (omega arith)), w.small);
      from = omega (arith, at.from);
      filled = λ k lo hi. elim (Bool-cases (leb k c.iter_seqno)) [
        | inl old ↦ at.filled k lo (ground arith)
        | inr new ↦ inr (skipped k (ground arith) hi)
      ];
      found = at.found;
      finds = at.finds;
      largest =
          FoundSo-extend lists last c e at.found at.largest (omega arith)
            (λ m lo hi h. w.apart m h (skipped m (omega arith) hi));
    }

    abbrev advanced : Cursor
    advanced = record c { iter_seqno = next }

    round-at : round lists c ≡ round_at lists advanced
    unfolding round
    round-at = let e : next % 2 ^ 64 ≡ next = omega (arith, at.room) in rw e

    goes_on_Seen :
        (c' : Cursor)
        → c'.iter_seqno ≡ next
        → Seen lists next
        → round_at lists advanced ≡ done (true, c')
        → found_seqno lists c' ≡ done (some next)
        → RoundOf lists last c
    goes_on_Seen c' e h r f =
        goes_on c' (rw round-at r) (Seen-next c' e h f) (omega (arith, e))
          (omega (arith, e, Seen-le-bound next h))

    gap_round_cases :
        ((e : ℕ) × (gap_round lists.gaps advanced ≡ done (true, record c { iter_seqno = e }))
          × (next ≤ e)
          × ((m : ℕ) → next ≤ m → m ≤ e → Skipped lists m))
        ⊎ ((gap_round lists.gaps advanced ≡ done (false, advanced)) × (¬ Skipped lists next))
    unfolding gap_round
    gap_round_cases = elim (Bool-cases (leb next (max_seqno lists.gaps.seqno_list_2))) [
      | inr above ↦ inr (rw above, λ h. absurd (ground (arith, Skipped-le-max next h)))
      | inl below ↦ elim (is_seqno_gap_seqno_cases next 0 _ _ w.ranges) [
        | inl (e, found, le, all) ↦ inl (e, rw (below, found), le, all)
        | inr (missed, out) ↦ inr (rw (below, missed), out)
      ]
    ]

    -- Every round of the loop, at a cursor that has accounted for all numbers so far.
    pub round_cases : RoundOf lists last c
    unfolding round_at found_seqno
    round_cases = elim (probe_cases next lists.sent_seqno_list w.sent) [
      | inl (i, p, g, m) ↦
          goes_on_Seen
            (record advanced { last_sent_index = some i; found_seqno_type = some seqno_type_sent })
            refl (inl m) (rw (p, round_at)) (rw (g, found_seqno))
      | inr (p, not_sent) ↦ elim (probe_cases next lists.filtered_seqno_list w.filtered) [
        | inl (i, q, g, m) ↦
            goes_on_Seen
              (record advanced {
                last_filtered_index = some i;
                found_seqno_type = some seqno_type_filtered;
              })
              refl (inr (inl m)) (rw (p, q, round_at)) (ground arith)
        | inr (q, not_filtered) ↦ elim (probe_cases next lists.failed_cr_seqno_list w.failed_cr) [
          | inl (i, r, g, m) ↦
              goes_on_Seen
                (record advanced {
                  last_failed_cr_index = some i;
                  found_seqno_type = some seqno_type_failed_cr;
                })
                refl (inr (inr m)) (rw (p, q, r, round_at)) (ground arith)
          | inr (r, not_failed) ↦ elim gap_round_cases [
            | inl (e, found, le, all) ↦
                goes_on (record c { iter_seqno = e }) (rw (round-at, p, q, r, round_at) found)
                  (jump e le all) (omega arith) (Skipped-le-bound e (all e le (omega arith)))
            | inr (missed, out) ↦
                stops advanced (rw (round-at, p, q, r, round_at) missed) refl (λ h. elim h [
                  | inl seen ↦ elim seen [
                    | inl s ↦ not_sent s
                    | inr other ↦ elim other [ inl s ↦ not_filtered s | inr s ↦ not_failed s ]
                  ]
                  | inr s ↦ out s
                ])
          ]
        ]
      ]
    ]
