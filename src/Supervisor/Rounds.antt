-- ===== src/Supervisor/Rounds.antt =====
-- A child is found broken when it has missed more heart beats in a row than the threshold.
use goxdcr.Prelude.{
  ℕ, zero, suc, ◌+◌, ◌-◌, ◌%◌, ◌^◌, ◌≤◌, ◌<◌, ◌≡◌, refl, sym, ap, ◌∙◌, subst, true, false, Option,
  none, some, List, [], ◌∷◌, arith, ltb, ltb→lt, lt→ltb, Bool-cases, Option-cases, All, length, ◌⊎◌,
  inl, inr,
}
use goxdcr.Supervisor.{
  HeartbeatRespStatus, GenericSupervisor, HeartbeatReport, is_in, is_missed, missed_of,
  process_report,
}
use goxdcr.Supervisor.Reports.{
  status_of, IsMap, verdict, process_report_at, process_report_threshold,
}

-- The reports processed one after the other, the latest first in the list; the broken children are
-- those of the latest.
unfoldable pub process_reports :
    List HeartbeatReport → GenericSupervisor → GenericSupervisor × List ℕ
process_reports [] supervisor = (supervisor, [])
process_reports (report ∷ earlier) supervisor =
    process_report report (process_reports earlier supervisor).0

-- Of the reports that mention a child, the latest n say that it has missed the heart beat.
abbrev pub MissedBy : Option HeartbeatRespStatus → Type 0 → Type 0 → Type 0
MissedBy none same fewer = same
MissedBy (some status) same fewer = (is_missed status ≡ true) × fewer

abbrev pub MissedLast : ℕ → ℕ → List HeartbeatReport → Type 0
MissedLast i zero reports = Unit
MissedLast i (suc n) [] = ⊥
MissedLast i (suc n) (report ∷ earlier) =
    MissedBy (status_of i report) (MissedLast i (suc n) earlier) (MissedLast i n earlier)

abbrev pub IsMissedIn : ℕ → HeartbeatReport → Type 0
IsMissedIn i report = MissedBy (status_of i report) ⊥ Unit

MissedBy-map :
    {A B C D : Type 0} (o : Option HeartbeatRespStatus)
    → (A → C)
    → (B → D)
    → MissedBy o A B
    → MissedBy o C D
MissedBy-map none f g h = f h
MissedBy-map (some status) f g h = (h.0, g h.1)

MissedLast-mono :
    (i n m : ℕ) (reports : List HeartbeatReport)
    → n ≤ m
    → MissedLast i m reports
    → MissedLast i n reports
MissedLast-mono i zero m reports l h = tt
MissedLast-mono i (suc n) zero reports l h = absurd (omega arith)
MissedLast-mono i (suc n) (suc m) [] l h = h
MissedLast-mono i (suc n) (suc m) (report ∷ earlier) l h =
    MissedBy-map (status_of i report) (λ q. MissedLast-mono i (suc n) (suc m) earlier l q)
      (λ q. MissedLast-mono i n m earlier (omega arith) q) h

missed_once_more :
    (i n : ℕ) (report : HeartbeatReport) (earlier : List HeartbeatReport)
    (status : HeartbeatRespStatus)
    → status_of i report ≡ some status
    → is_missed status ≡ true
    → MissedLast i n earlier
    → MissedLast i (suc n) (report ∷ earlier)
missed_once_more i n report earlier status e m h =
    subst (λ o. MissedBy o (MissedLast i (suc n) earlier) (MissedLast i n earlier)) (sym e) (m, h)

not_mentioned :
    (i n : ℕ) (report : HeartbeatReport) (earlier : List HeartbeatReport)
    → status_of i report ≡ none
    → MissedLast i n earlier
    → MissedLast i n (report ∷ earlier)
not_mentioned i zero report earlier e h = tt
not_mentioned i (suc n) report earlier e h =
    subst (λ o. MissedBy o (MissedLast i (suc n) earlier) (MissedLast i n earlier)) (sym e) h

abbrev pub count_of : ℕ → GenericSupervisor → ℕ
count_of i s = missed_of (s.children_beat_missed_map i)

-- The count of a child is of reports in a row.
counts_in_a_row :
    (i : ℕ) (reports : List HeartbeatReport) (s : GenericSupervisor)
    → All IsMap reports
    → count_of i s ≡ 0
    → MissedLast i (count_of i (process_reports reports s).0) reports
unfolding process_reports
counts_in_a_row i [] s h z = rw z tt
counts_in_a_row i (report ∷ earlier) s h z =
    let ih = counts_in_a_row i earlier s h.1 z in
    let t = (process_reports earlier s).0 in
    let n = count_of i t in
    let at = ap (λ p. missed_of p.0) (process_report_at i report t h.0) in
    let mono = λ (k : ℕ) (l : k ≤ suc n) (m : MissedLast i (suc n) (report ∷ earlier)).
      MissedLast-mono i k (suc n) (report ∷ earlier) l m in
    elim (Option-cases (status_of i report)) [
      | inl e ↦ rw (at, e) (not_mentioned i n report earlier e ih)
      | inr (status, e) ↦ elim (Bool-cases (is_missed status)) [
        | inl m ↦ elim (Bool-cases (ltb t.missed_heartbeat_threshold ((n + 1) % 2 ^ 16))) [
          | inl l ↦ rw (at, e, m, l) tt
          | inr l ↦
              rw (at, e, m, l)
                (mono ((n + 1) % 2 ^ 16) (omega arith)
                  (missed_once_more i n report earlier status e m ih))
        ]
        | inr m ↦ rw (at, e, m) tt
      ]
    ]

process_reports_threshold :
    (reports : List HeartbeatReport) (s : GenericSupervisor)
    → (process_reports reports s).0.missed_heartbeat_threshold ≡ s.missed_heartbeat_threshold
unfolding process_reports
process_reports_threshold [] s = refl
process_reports_threshold (report ∷ earlier) s =
    process_report_threshold report (process_reports earlier s).0
    ∙ process_reports_threshold earlier s

missed_status :
    (i : ℕ) (report : HeartbeatReport)
    → IsMissedIn i report
    → (status : HeartbeatRespStatus) × (status_of i report ≡ some status)
      × (is_missed status ≡ true)
missed_status i report h = go (status_of i report) h
  where
    go :
        (o : Option HeartbeatRespStatus)
        → MissedBy o ⊥ Unit
        → (status : HeartbeatRespStatus) × (o ≡ some status) × (is_missed status ≡ true)
    go none h = absurd h
    go (some status) h = (status, refl, h.0)

broken_by :
    (threshold : ℕ) (missed : Option ℕ) (o : Option HeartbeatRespStatus)
    → (verdict threshold missed o).1 ≡ true
    → (status : HeartbeatRespStatus) × (o ≡ some status)
      × (is_missed status ≡ true)
      × (threshold < (missed_of missed + 1) % 2 ^ 16)
broken_by threshold missed none h = ground arith
broken_by threshold missed (some status) h = elim (Bool-cases (is_missed status)) [
  | inl m ↦ elim (Bool-cases (ltb threshold ((missed_of missed + 1) % 2 ^ 16))) [
    | inl l ↦ (status, refl, m, ltb→lt threshold ((missed_of missed + 1) % 2 ^ 16) l)
    | inr l ↦
        let f : (verdict threshold missed (some status)).1 ≡ false = rw (m, l) refl in ground arith
  ]
  | inr m ↦ let f : (verdict threshold missed (some status)).1 ≡ false = rw m refl in ground arith
]

-- A child is found broken only when more heart beats than the threshold were missed in a row: the latest
-- reports that mention it, one more than the threshold, all say so. Reports of other children and
-- earlier responses change nothing.
pub broken-MissedLast :
    (i : ℕ) (report : HeartbeatReport) (earlier : List HeartbeatReport) (s : GenericSupervisor)
    → All IsMap (report ∷ earlier)
    → count_of i s ≡ 0
    → is_in i (process_reports (report ∷ earlier) s).1 ≡ true
    → MissedLast i (suc s.missed_heartbeat_threshold) (report ∷ earlier)
unfolding process_reports
broken-MissedLast i report earlier s h z b =
    let t = (process_reports earlier s).0 in
    let at = ap (λ p. p.1) (process_report_at i report t h.0) in
    let (status, e, m, l) =
      broken_by t.missed_heartbeat_threshold (t.children_beat_missed_map i) (status_of i report)
        (sym at ∙ b) in
    let th = process_reports_threshold earlier s in
    MissedLast-mono i (suc s.missed_heartbeat_threshold) (suc (count_of i t)) (report ∷ earlier)
      (omega (arith, th, l))
      (missed_once_more i (count_of i t) report earlier status e m
        (counts_in_a_row i earlier s h.1 z))

-- Whether one of the reports finds the child broken.
abbrev pub IsReported : ℕ → List HeartbeatReport → GenericSupervisor → Type 0
IsReported i [] s = ⊥
IsReported i (report ∷ earlier) s =
    (is_in i (process_reports (report ∷ earlier) s).1 ≡ true) ⊎ IsReported i earlier s

counted_or_found :
    (i : ℕ) (reports : List HeartbeatReport) (s : GenericSupervisor)
    → s.missed_heartbeat_threshold < 2 ^ 16 - 1
    → All IsMap reports
    → All (λ r. IsMissedIn i r) reports
    → count_of i s ≤ s.missed_heartbeat_threshold
    → IsReported i reports s
      ⊎ ((count_of i (process_reports reports s).0 ≡ count_of i s + length reports)
          × (count_of i (process_reports reports s).0 ≤ s.missed_heartbeat_threshold))
unfolding process_reports
counted_or_found i [] s b h m z = inr (omega arith, z)
counted_or_found i (report ∷ earlier) s b h m z = elim (counted_or_found i earlier s b h.1 m.1 z) [
  | inl r ↦ inl (inr r)
  | inr (c, l) ↦
      let t = (process_reports earlier s).0 in
      let th = process_reports_threshold earlier s in
      let at = process_report_at i report t h.0 in
      let (status, e, q) = missed_status i report m.0 in
      let w : (count_of i t + 1) % 2 ^ 16 ≡ count_of i t + 1 = omega arith in
      elim (Bool-cases (ltb t.missed_heartbeat_threshold ((count_of i t + 1) % 2 ^ 16))) [
        | inl k ↦ inl (inl (ap (λ p. p.1) at ∙ rw (e, q, k) refl))
        | inr k ↦
            let f : count_of i (process_report report t).0 ≡ (count_of i t + 1) % 2 ^ 16 =
              ap (λ p. missed_of p.0) at ∙ rw (e, q, k) refl in
            let g : ¬ (t.missed_heartbeat_threshold < (count_of i t + 1) % 2 ^ 16) = λ u.
              ground (arith, lt→ltb t.missed_heartbeat_threshold ((count_of i t + 1) % 2 ^ 16) u) in
            inr (omega arith, omega arith)
      ]
]

-- A child that misses more heart beats in a row than the threshold is found broken in one of the reports.
pub missed-IsReported :
    (i : ℕ) (reports : List HeartbeatReport) (s : GenericSupervisor)
    → s.missed_heartbeat_threshold < 2 ^ 16 - 1
    → All IsMap reports
    → All (λ r. IsMissedIn i r) reports
    → s.missed_heartbeat_threshold < length reports
    → count_of i s ≡ 0
    → IsReported i reports s
missed-IsReported i reports s b h m l z = elim (counted_or_found i reports s b h m (omega arith)) [
  | inl r ↦ r
  | inr (c, k) ↦ absurd (omega arith)
]
