-- ===== src/ThroughSeqno/Safety.antt =====
-- Whole runs of the tracker: the checkpoint of a vbucket never passes a mutation that is not done with,
-- and comes up to the last one when all are.
use goxdcr.Prelude.{
  ℕ, ◌+◌, ◌^◌, ◌≤◌, ◌<◌, ◌≡◌, refl, sym, ◌∙◌, ◌⊎◌, ◌≢◌, inl, inr, [], Outcome, done, arith, tests,
  ltb, Option, none, some, All, In, Bool-cases,
}
use goxdcr.ThroughSeqno.Largest.{after, IsThrough}
use goxdcr.ThroughSeqno.Reports.{sends-IsTracked, filters-IsTracked, fails_cr-IsTracked}
use goxdcr.ThroughSeqno.Receives.{All-at, receives-IsTracked}
use goxdcr.ThroughSeqno.Advance.{
  get_through_seqno_returns, conclude-IsTracked, lists, Listed-Seen, Seen-received,
}
use goxdcr.ThroughSeqno.Truncations.{Keeps, run_truncation-Keeps}
use goxdcr.ThroughSeqno.Service.{
  VbTracker, VbEvent, sends, filters, fails_cr, receives, gets_through, truncates, initialize,
  set_start_seqno, conclude, get_through_seqno, vb_step,
}
use goxdcr.ThroughSeqno.History.{History, records, IsAllowed, Gapped, IsTracked}

-- Every allowed event is handled with no panic, and the tracker keeps what it knows: reports of
-- mutations that were received and not yet reported, the filtered and the failed ones in order; receives
-- in order, with the gaps before them; computations of the through seqno; and single steps of the
-- truncations that run beside all these.
pub vb_step-IsTracked :
    {t : VbTracker} {h : History} (e : VbEvent)
    → IsTracked t h
    → IsAllowed e t h
    → Keeps (records e h) (vb_step e t)
unfolding vb_step
vb_step-IsTracked (sends n) v ok = (_, refl, sends-IsTracked v n ok.0 ok.1)
vb_step-IsTracked (filters n) v ok = (_, refl, filters-IsTracked v n ok.0.0 ok.0.1 ok.1)
vb_step-IsTracked (fails_cr n) v ok = (_, refl, fails_cr-IsTracked v n ok.0.0 ok.0.1 ok.1)
vb_step-IsTracked (receives n) v ok = (_, refl, receives-IsTracked v n ok)
vb_step-IsTracked gets_through v ok =
    let (found, e, p, q) = get_through_seqno_returns v in (_, e, conclude-IsTracked v found p q)
vb_step-IsTracked {t} (truncates i) v ok = run_truncation-Keeps v i [] t.truncations tt v.running

abbrev pub fresh : ℕ → History
fresh start = record { start = start; received = []; reported = [] }

-- A tracker that has only been given its start.
pub start-IsTracked :
    (start : ℕ) → start + 1 < 2 ^ 64 → IsTracked (set_start_seqno start initialize) (fresh start)
unfolding set_start_seqno initialize
start-IsTracked start room = record {
  started = room;
  small = omega arith;
  idle = λ z. (refl, refl);
  top = tt;
  top_received = inl refl;
  above = tt;
  reported_received = λ k m. m;
  listed_reported = λ k l. elim l [ inl b ↦ b | inr b ↦ elim b [ inl c ↦ c | inr c ↦ c ] ];
  reported_listed = λ k l m. absurd m;
  done_with = λ k l m. m;
  gaps_above = λ k g. absurd g;
  gaps_apart = λ k g. absurd g;
  complete = λ k l m. absurd (omega arith);
  filtered_sorted = tt;
  failed_cr_sorted = tt;
  ranges = tt;
  ends = inl refl;
  running = tt;
}

-- A run of allowed events from one state to another.
pub data Run : VbTracker → History → VbTracker → History → Type 0 where
  stay : {t : VbTracker} {h : History} → Run t h t h
  go :
      {t t' u : VbTracker} {h k : History} (e : VbEvent)
      → IsAllowed e t h
      → vb_step e t ≡ done t'
      → Run t' (records e h) u k
      → Run t h u k

done-injective : {t u : VbTracker} → ◌≡◌ {A = Outcome VbTracker} (done t) (done u) → t ≡ u
done-injective e = cc

Run-IsTracked : {t u : VbTracker} {h k : History} → Run t h u k → IsTracked t h → IsTracked u k
Run-IsTracked stay v = v
Run-IsTracked {k = k} (go e ok s r) v =
    let (t', q, w) = vb_step-IsTracked e v ok in
    Run-IsTracked r (rw (done-injective (sym q ∙ s)) at w)

-- The state of a vbucket after any allowed events from its start.
abbrev pub Reaches : ℕ → VbTracker → History → Type 0
Reaches start t h = Run (set_start_seqno start initialize) (fresh start) t h

Reaches-IsTracked :
    (start : ℕ) {t : VbTracker} {h : History}
    → start + 1 < 2 ^ 64
    → Reaches start t h
    → IsTracked t h
Reaches-IsTracked start room r = Run-IsTracked r (start-IsTracked start room)

-- From a start below 2^64 - 1, after any allowed events, in which mutations are received in order and
-- each is reported once and after it was received, the filtered and the failed ones in order: every
-- mutation received with a number up to the through seqno has been reported as sent, filtered or failed;
-- and the through seqno is the start itself or the number of a received mutation, so never one of a gap.
pub checkpoint_safe :
    (start : ℕ) {t : VbTracker} {h : History}
    → start + 1 < 2 ^ 64
    → Reaches start t h
    → ((k : ℕ) → k ≤ t.through_seqno → In k h.received → In k h.reported)
      × ((t.through_seqno ≡ h.start) ⊎ In t.through_seqno h.received)
      × ¬ Gapped t t.through_seqno
checkpoint_safe start {t} room r =
    let v = Reaches-IsTracked start room r in
    (
      v.done_with,
      v.ends,
      λ g. elim v.ends [
        | inl e ↦ absurd (omega (arith, v.gaps_above t.through_seqno g))
        | inr m ↦ (v.gaps_apart _ g).1 m
      ],
    )

-- From a start below 2^64 - 1, after any allowed events, every further allowed event is handled without
-- a panic and without running out of fuel.
pub tracker_never_panics :
    (start : ℕ) {t : VbTracker} {h : History} (e : VbEvent)
    → start + 1 < 2 ^ 64
    → Reaches start t h
    → IsAllowed e t h
    → (t' : VbTracker) × (vb_step e t ≡ done t')
tracker_never_panics start e room r ok =
    let (t', q, w) = vb_step-IsTracked e (Reaches-IsTracked start room r) ok in (t', q)

conclude-through :
    (t : VbTracker) (found : Option ℕ)
    → (conclude t found).through_seqno ≡ after t.through_seqno found
unfolding conclude
conclude-through t none = refl
conclude-through t (some s) = refl

module _ {t : VbTracker} {h : History} (v : IsTracked t h) (some_seen : t.last_seen_seqno ≢ 0) where
  top_of : In t.last_seen_seqno h.received
  top_of = elim v.top_received [ inl z ↦ absurd (some_seen z) | inr m ↦ m ]

  received-le : (k : ℕ) → In k h.received → k ≤ t.last_seen_seqno
  received-le k m = All-at (λ i. i ≤ t.last_seen_seqno) k h.received v.top m

  through-le : t.through_seqno ≤ t.last_seen_seqno
  through-le = elim v.ends [
    | inl e ↦ omega (arith, All-at (λ i. h.start < i) t.last_seen_seqno h.received v.above top_of)
    | inr m ↦ received-le t.through_seqno m
  ]

  reaches_top :
      ((k : ℕ) → In k h.received → In k h.reported)
      → (r : ℕ) → IsThrough (lists v) t.through_seqno r
      → r ≡ t.last_seen_seqno
  reaches_top all r p =
      let le : r ≤ t.last_seen_seqno = elim p.ends [
        | inl e ↦ omega (arith, through-le)
        | inr s ↦ received-le r (Seen-received v r s)
      ] in
      elim (Bool-cases (ltb r t.last_seen_seqno)) [
        | inr ge ↦ ground arith
        | inl lt ↦ absurd (
            p.largest t.last_seen_seqno (ground arith)
              (λ k l m. elim (v.complete k l m) [
                | inl rec ↦ inl (Listed-Seen v k (v.reported_listed k l (all k rec)))
                | inr gap ↦ inr gap
              ])
              (Listed-Seen v t.last_seen_seqno
                (v.reported_listed t.last_seen_seqno (omega (tests, lt, p.from)) (all _ top_of))))
      ]

-- From a start below 2^64 - 1, after any allowed events in which some mutation was received and every
-- received one was reported, the computed through seqno is the largest number received.
pub checkpoint_complete :
    (start : ℕ) {t : VbTracker} {h : History}
    → start + 1 < 2 ^ 64
    → Reaches start t h
    → t.last_seen_seqno ≢ 0
    → ((k : ℕ) → In k h.received → In k h.reported)
    → (u : VbTracker) × (get_through_seqno t ≡ done u)
      × In u.through_seqno h.received
      × All (λ k. k ≤ u.through_seqno) h.received
checkpoint_complete start {t} {h} room r some_seen all =
    let v = Reaches-IsTracked start room r in
    let (found, e, p, q) = get_through_seqno_returns v in
    let up =
      (conclude-through t found) ∙ reaches_top v some_seen all (after t.through_seqno found) p in
    (conclude t found, e, rw up (top_of v some_seen), rw up v.top)
