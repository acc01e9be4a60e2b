-- ===== src/Supervisor/Reports.antt =====
-- processReport, child by child.
use goxdcr.Prelude.{
  ℕ, ◌+◌, ◌%◌, ◌^◌, ◌≡◌, refl, ap, ◌∙◌, Bool, true, false, Option, none, some, List, [], ◌∷◌, arith,
  ltb, ◌==◌, ==_cases, if◌then◌else◌, Bool-cases, set_at, set_at_same, set_at_other, inl, inr,
}
use goxdcr.Supervisor.{
  HeartbeatRespStatus, GenericSupervisor, HeartbeatReport, is_in, remove_child, set_missed,
  is_missed, missed_of, process_child, process_report,
}

-- The status that a report has of a child.
abbrev pub status_of : ℕ → HeartbeatReport → Option HeartbeatRespStatus
status_of i [] = none
status_of i ((c, status) ∷ rest) = if i == c then some status else status_of i rest

-- A child stands in a report once, as in a map.
abbrev pub IsMap : HeartbeatReport → Type 0
IsMap [] = Unit
IsMap ((c, status) ∷ rest) = (status_of c rest ≡ none) × IsMap rest

-- A child's count and whether it is broken, from what the report says of it.
abbrev pub verdict : ℕ → Option ℕ → Option HeartbeatRespStatus → Option ℕ × Bool
verdict threshold missed none = (missed, false)
verdict threshold missed (some status) =
    let n = (missed_of missed + 1) % 2 ^ 16 in
    if is_missed status
    then if ltb threshold n then (none, true) else (some n, false)
    else (some 0, false)

process_child_at :
    (i : ℕ) (status : HeartbeatRespStatus) (s : GenericSupervisor)
    → ((process_child i status s).0.children_beat_missed_map i, (process_child i status s).1)
      ≡ verdict s.missed_heartbeat_threshold (s.children_beat_missed_map i) (some status)
unfolding process_child set_missed remove_child
process_child_at i status s =
    let n = (missed_of (s.children_beat_missed_map i) + 1) % 2 ^ 16 in
    elim (Bool-cases (is_missed status)) [
      | inl m ↦ elim (Bool-cases (ltb s.missed_heartbeat_threshold n)) [
        | inl l ↦
            simp (m, l, set_at_same i none (set_at i (some n) s.children_beat_missed_map)) refl
        | inr l ↦ simp (m, l, set_at_same i (some n) s.children_beat_missed_map) refl
      ]
      | inr m ↦ simp (m, set_at_same i (some 0) s.children_beat_missed_map) refl
    ]

process_child_other :
    (c i : ℕ) (status : HeartbeatRespStatus) (s : GenericSupervisor)
    → (i == c) ≡ false
    → ((process_child c status s).0.children_beat_missed_map i ≡ s.children_beat_missed_map i)
unfolding process_child set_missed remove_child
process_child_other c i status s e =
    let n = (missed_of (s.children_beat_missed_map c) + 1) % 2 ^ 16 in
    let o = set_at_other c i (some n) s.children_beat_missed_map e in
    elim (Bool-cases (is_missed status)) [
      | inl m ↦ elim (Bool-cases (ltb s.missed_heartbeat_threshold n)) [
        | inl l ↦
            simp (m, l, set_at_other c i none (set_at c (some n) s.children_beat_missed_map) e, o)
              refl
        | inr l ↦ simp (m, l, o) refl
      ]
      | inr m ↦ simp (m, set_at_other c i (some 0) s.children_beat_missed_map e) refl
    ]

process_child_threshold :
    (c : ℕ) (status : HeartbeatRespStatus) (s : GenericSupervisor)
    → (process_child c status s).0.missed_heartbeat_threshold ≡ s.missed_heartbeat_threshold
unfolding process_child set_missed remove_child
process_child_threshold c status s = ground arith

pub process_report_threshold :
    (report : HeartbeatReport) (s : GenericSupervisor)
    → (process_report report s).0.missed_heartbeat_threshold ≡ s.missed_heartbeat_threshold
unfolding process_report
process_report_threshold [] s = refl
process_report_threshold ((c, status) ∷ rest) s =
    process_report_threshold rest (process_child c status s).0 ∙ process_child_threshold c status s

is_in_self :
    (c : ℕ) (b : Bool) (l : List ℕ) → is_in c l ≡ false → is_in c (if b then c ∷ l else l) ≡ b
is_in_self c true l h = let e : (c == c) ≡ true = ground arith in rw e refl
is_in_self c false l h = h

is_in_else :
    (i c : ℕ) (b : Bool) (l : List ℕ)
    → (i == c) ≡ false
    → is_in i (if b then c ∷ l else l) ≡ is_in i l
is_in_else i c true l h = rw h refl
is_in_else i c false l h = refl

-- The report of a child changes its own count alone, and it is found broken by its own status alone.
pub process_report_at :
    (i : ℕ) (report : HeartbeatReport) (s : GenericSupervisor)
    → IsMap report
    → ((process_report report s).0.children_beat_missed_map i, is_in i (process_report report s).1)
      ≡ verdict s.missed_heartbeat_threshold (s.children_beat_missed_map i) (status_of i report)
unfolding process_report
process_report_at i [] s h = refl
process_report_at i ((c, status) ∷ rest) s h =
    let t = (process_child c status s).0 in
    let b = (process_child c status s).1 in
    let th = process_child_threshold c status s in
    elim (==_cases i c) [
      | inl e ↦
          let ih =
            process_report_at c rest t h.1
            ∙ ap (λ o. verdict t.missed_heartbeat_threshold (t.children_beat_missed_map c) o) h.0 in
          let self = is_in_self c b (process_report rest t).1 (ap (λ p. p.1) ih) in
          let q : (c == c) ≡ true = ground arith in
          rw (e, q, self, ap (λ p. p.0) ih) (process_child_at c status s)
      | inr e ↦
          let ih = process_report_at i rest t h.1 in
          let other = is_in_else i c b (process_report rest t).1 e in
          let m = process_child_other c i status s e in rw (e, other, ih, th, m) refl
    ]
