-- ===== src/ThroughSeqno/Largest.antt =====
-- The number that GetThroughSeqno computes is the largest one to resume from.
use goxdcr.Prelude.{
  ℕ, zero, suc, ◌+◌, ◌-◌, ◌^◌, ◌≤◌, ◌<◌, ◌≡◌, refl, ◌⊎◌, inl, inr, Option, none, some, Outcome,
  done, ◌>>=◌, arith, leb, Bool-cases,
}
use goxdcr.ThroughSeqno.Compute.{
  SeqnoLists, Cursor, loop, found_seqno, bound, rounds, start_cursor, compute,
}
use goxdcr.ThroughSeqno.Rounds.{
  Seen, Covered, IsWell, FoundSo, CursorAt, goes_on, stops, round_cases,
}

-- The through seqno after a computation.
abbrev pub after : ℕ → Option ℕ → ℕ
after last none = last
after last (some v) = v

-- All numbers from `last` up to `r` are accounted for, `r` is `last` or was seen, and no larger number
-- has both properties.
pub record IsThrough (lists : SeqnoLists) (last r : ℕ) : Type 0 where
  pub from : last ≤ r
  pub filled : (k : ℕ) → last < k → k ≤ r → Covered lists k
  pub ends : (r ≡ last) ⊎ Seen lists r
  pub largest : (n : ℕ) → r < n → ((k : ℕ) → last < k → k ≤ n → Covered lists k) → ¬ Seen lists n

-- A new through seqno is a number that was seen.
abbrev pub IsNew : SeqnoLists → ℕ → Option ℕ → Type 0
IsNew lists last none = Unit {0}
IsNew lists last (some v) = Seen lists v × (last < v)

FoundSo-IsNew :
    (lists : SeqnoLists) (last : ℕ) (c : Cursor) (found : Option ℕ)
    → FoundSo lists last c found
    → IsNew lists last found
FoundSo-IsNew lists last c none f = tt
FoundSo-IsNew lists last c (some v) f = (f.0, f.1)

module _ (lists : SeqnoLists) (last : ℕ) (c : Cursor) where
  stopped_at :
      (found : Option ℕ)
      → CursorAt lists last c
      → FoundSo lists last c found
      → ¬ Covered lists (c.iter_seqno + 1)
      → IsThrough lists last (after last found)
  stopped_at none at f out = record {
    from = omega arith;
    filled = λ k lo hi. absurd (omega arith);
    ends = inl refl;
    largest = λ n lo all. elim (Bool-cases (leb n c.iter_seqno)) [
      | inl le ↦ f n lo (ground arith)
      | inr gt ↦ absurd (out (all (c.iter_seqno + 1) (omega (arith, at.from)) (ground arith)))
    ];
  }
  stopped_at (some v) at f out = record {
    from = omega arith;
    filled = λ k lo hi. at.filled k lo (omega arith);
    ends = inr f.0;
    largest = λ n lo all. elim (Bool-cases (leb n c.iter_seqno)) [
      | inl le ↦ f.3 n lo (ground arith)
      | inr gt ↦ absurd (out (all (c.iter_seqno + 1) (omega (arith, at.from)) (ground arith)))
    ];
  }

module _ {lists : SeqnoLists} (w : IsWell lists) (last : ℕ) where
  abbrev Computes : Outcome (Option ℕ) → Type 0
  Computes o =
      (found : Option ℕ) × (o ≡ done found)
      × IsThrough lists last (after last found)
      × IsNew lists last found

  loop-Computes :
      (fuel : ℕ) (c : Cursor)
      → CursorAt lists last c
      → bound lists < c.iter_seqno + fuel
      → 0 < fuel
      → Computes (loop fuel lists c >>= found_seqno lists)
  unfolding loop
  loop-Computes zero c at enough pos = absurd (omega arith)
  loop-Computes (suc fuel) c at enough pos = elim (round_cases w at) [
    | stops c' e same out ↦ (
      at.found,
      rw (e, same) at.finds,
      stopped_at lists last c at.found at at.largest out,
      FoundSo-IsNew lists last c at.found at.largest,
    )
    | goes_on c' e at' lt le ↦ rw e (loop-Computes fuel c' at' (omega arith) (omega arith))
  ]

  start-CursorAt : last + 1 < 2 ^ 64 → CursorAt lists last (start_cursor last)
  unfolding found_seqno
  start-CursorAt room = record {
    room = room;
    from = omega arith;
    filled = λ k lo hi. absurd (omega arith);
    found = none;
    finds = refl;
    largest = λ k lo hi. absurd (omega arith);
  }

  -- For lists in good order and a last through seqno below 2^64 - 1, the computation ends within its
  -- rounds and does not panic. Its result r is at least the last through seqno; every number after the
  -- last one up to r is sent, filtered, failed in conflict resolution, or in a gap range; r is the last
  -- one, and none was found, or it is a larger number that was itself sent, filtered or failed; and no
  -- larger number has these properties.
  pub compute-IsThrough : last + 1 < 2 ^ 64 → Computes (compute lists last)
  unfolding compute rounds
  compute-IsThrough room =
      loop-Computes (suc (suc (bound lists - last))) (start_cursor last) (start-CursorAt room)
        (omega arith) (omega arith)
