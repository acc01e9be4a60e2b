-- ===== src/Supervisor/Waits.antt =====
-- sendHeartBeats and waitForResponse: what the report says of each child.
use goxdcr.Prelude.{
  ℕ, ◌+◌, ◌≡◌, refl, sym, ap, ◌∙◌, Bool, true, false, ◌&&◌, ◌||◌, Option, none, some, List, [], ◌∷◌,
  ◌++◌, arith, ltb, ◌==◌, ==_cases, ==_iff, if◌then◌else◌, Bool-cases, ◌⊎◌, inl, inr,
}
use goxdcr.Supervisor.{
  HeartbeatRespStatus, skip, not_yet_responded, responded_ok, responded_not_ok, GenericSupervisor,
  HeartbeatReport, is_in, is_pending, count_pending, beat_children, send_heart_beats,
  check_responses, WaitEvent, finished, timed_out, checks, reports, wait_for_response,
}
use goxdcr.Supervisor.Reports.{status_of}

-- What becomes of a child's status when its response has come.
abbrev pub settle : Bool → Option HeartbeatRespStatus → Option HeartbeatRespStatus
settle true (some not_yet_responded) = some responded_ok
settle _ status = status

-- Whether one of the checks sees a child's response.
abbrev pub is_seen : ℕ → List WaitEvent → Bool
is_seen i [] = false
is_seen i (checks has_come ∷ rest) = has_come i || is_seen i rest
is_seen i (_ ∷ rest) = is_seen i rest

abbrev pub EndsInTimeout : List WaitEvent → Type 0
EndsInTimeout [] = ⊥
EndsInTimeout (timed_out ∷ []) = Unit
EndsInTimeout (e ∷ rest) = EndsInTimeout rest

settle-none : (b : Bool) → settle b none ≡ none
settle-none true = refl
settle-none false = refl

settle_other :
    (b : Bool) (status : HeartbeatRespStatus)
    → is_pending status ≡ false
    → settle b (some status) ≡ some status
settle_other false status h = refl
settle_other true skip h = refl
settle_other true responded_ok h = refl
settle_other true responded_not_ok h = refl
settle_other true not_yet_responded h = ground arith

settle_pending :
    (b : Bool) (status : HeartbeatRespStatus)
    → is_pending status ≡ true
    → settle b (some status) ≡ some (if b then responded_ok else status)
settle_pending b status h = ground arith

settle_twice :
    (a b : Bool) (status : Option HeartbeatRespStatus)
    → settle b (settle a status) ≡ settle (a || b) status
settle_twice false b status = refl
settle_twice true b none = settle-none b
settle_twice true true (some not_yet_responded) = refl
settle_twice true false (some not_yet_responded) = refl
settle_twice true b (some skip) = settle_other b skip refl
settle_twice true b (some responded_ok) = settle_other b responded_ok refl
settle_twice true b (some responded_not_ok) = settle_other b responded_not_ok refl

check_responses_status :
    (i : ℕ) (has_come : ℕ → Bool) (report : HeartbeatReport)
    → status_of i (check_responses has_come report).0 ≡ settle (has_come i) (status_of i report)
unfolding check_responses
check_responses_status i has_come [] = sym (settle-none (has_come i))
check_responses_status i has_come ((c, status) ∷ rest) =
    let ih = check_responses_status i has_come rest in
    elim (Bool-cases (is_pending status)) [
      | inl p ↦ elim (Bool-cases (has_come c)) [
        | inl w ↦ elim (==_cases i c) [
          | inl q ↦
              let r : (c == c) ≡ true = ground arith in
              rw (q, p, w, r) (sym (settle_pending true status p))
          | inr q ↦ rw (p, w, q, ih) refl
        ]
        | inr w ↦ elim (==_cases i c) [
          | inl q ↦ let r : (c == c) ≡ true = ground arith in rw (q, p, w, r) refl
          | inr q ↦ rw (p, w, q, ih) refl
        ]
      ]
      | inr p ↦ elim (==_cases i c) [
        | inl q ↦
            let r : (c == c) ≡ true = ground arith in
            rw (q, p, r) (sym (settle_other (has_come c) status p))
        | inr q ↦ rw (p, q, ih) refl
      ]
    ]

check_responses_count :
    (has_come : ℕ → Bool) (report : HeartbeatReport)
    → count_pending (check_responses has_come report).0 + (check_responses has_come report).1
      ≡ count_pending report
unfolding check_responses count_pending
check_responses_count has_come [] = refl
check_responses_count has_come ((c, status) ∷ rest) =
    let ih = check_responses_count has_come rest in
    elim (Bool-cases (is_pending status)) [
      | inl p ↦ elim (Bool-cases (has_come c)) [
        | inl w ↦ rw (p, w) (omega arith)
        | inr w ↦ simp (p, w) (omega arith)
      ]
      | inr p ↦ simp p (omega arith)
    ]

or_true : (b : Bool) → b || true ≡ true
or_true true = refl
or_true false = refl

or_false : (b : Bool) → b || false ≡ b
or_false true = refl
or_false false = refl

reports_injective : {a b : HeartbeatReport} → reports a ≡ reports b → a ≡ b
reports_injective {a} e = ap (λ r. elim r [ reports x ↦ x | _ ↦ a ]) e

-- From the channels' count on: when a report is given, the events that were used have in it the children
-- whose response a check has seen, and they end in the timeout unless no response is missing.
wait_lem :
    (events : List WaitEvent) (channels count : ℕ) (report result : HeartbeatReport)
    → count + count_pending report ≡ channels
    → wait_for_response events channels count report ≡ reports result
    → (used : List WaitEvent) × (rest : List WaitEvent) × (events ≡ used ++ rest)
      × ((i : ℕ) → status_of i result ≡ settle (is_seen i used) (status_of i report))
      × ((count_pending result ≡ 0) ⊎ EndsInTimeout used)
unfolding wait_for_response
wait_lem [] channels count report result h e = ground arith
wait_lem (finished ∷ rest) channels count report result h e = ground arith
wait_lem (timed_out ∷ rest) channels count report result h e =
    let r : result ≡ report = sym (reports_injective e) in
    (timed_out ∷ [], rest, refl, λ i. ap (λ x. status_of i x) r, inr tt)
wait_lem (checks has_come ∷ rest) channels count report result h e =
    let checked = check_responses has_come report in
    let k = check_responses_count has_come report in
    elim (Bool-cases (count + checked.1 == channels)) [
      | inl q ↦
          let f : wait_for_response (checks has_come ∷ rest) channels count report
              ≡ reports checked.0 =
            rw q refl in
          let same : count + checked.1 ≡ channels = (==_iff (count + checked.1) channels).0 q in
          let zero_left : count_pending checked.0 ≡ 0 = omega arith in
          let r : result ≡ checked.0 = sym (reports_injective (sym f ∙ e)) in
          (
            checks has_come ∷ [],
            rest,
            refl,
            λ i.
                ap (λ x. status_of i x) r
                ∙ check_responses_status i has_come report
                ∙ ap (λ b. settle b (status_of i report)) (sym (or_false (has_come i))),
            inl (ap count_pending r ∙ zero_left),
          )
      | inr q ↦
          let f : wait_for_response (checks has_come ∷ rest) channels count report
              ≡ wait_for_response rest channels (count + checked.1) checked.0 =
            rw q refl in
          let (used, left, g, st, z) =
            wait_lem rest channels (count + checked.1) checked.0 result (omega arith) (sym f ∙ e) in
          (
            checks has_come ∷ used,
            left,
            ap (λ x. checks has_come ∷ x) g,
            λ i.
                st i
                ∙ ap (λ o. settle (is_seen i used) o) (check_responses_status i has_come report)
                ∙ settle_twice (has_come i) (is_seen i used) (status_of i report),
            z,
          )
    ]

-- The status of a child that the heart beats were sent to, from whether it takes the heart beat and
-- whether its response was seen.
abbrev pub answer : Bool → Bool → HeartbeatRespStatus
answer false seen = responded_not_ok
answer true true = responded_ok
answer true false = not_yet_responded

beat_children_status :
    (i : ℕ) (is_ready takes : ℕ → Bool) (children : List ℕ)
    → status_of i (beat_children is_ready takes children)
      ≡ (if is_in i children && is_ready i then some (answer (takes i) false) else none)
unfolding beat_children
beat_children_status i is_ready takes [] = refl
beat_children_status i is_ready takes (c ∷ cs) =
    let ih = beat_children_status i is_ready takes cs in
    elim (==_cases i c) [
      | inl q ↦
          let r : (c == c) ≡ true = ground arith in
          let ihc = beat_children_status c is_ready takes cs in
          elim (Bool-cases (is_ready c)) [
            | inl w ↦ elim (Bool-cases (takes c)) [
              | inl t ↦ rw (q, w, t, r) refl
              | inr t ↦ rw (q, w, t, r) refl
            ]
            | inr w ↦ elim (Bool-cases (is_in c cs)) [
              | inl m ↦ rw (q, w, r, ihc, m, w) refl
              | inr m ↦ rw (q, w, r, ihc, m) refl
            ]
          ]
      | inr q ↦ elim (Bool-cases (is_ready c)) [
        | inl w ↦ rw (w, q, ih) refl
        | inr w ↦ rw (w, q, ih) refl
      ]
    ]

settle-answer :
    (known ready takes seen : Bool)
    → settle seen (if known && ready then some (answer takes false) else none)
      ≡ (if known && ready then some (answer takes seen) else none)
settle-answer false ready takes seen = settle-none seen
settle-answer true false takes seen = settle-none seen
settle-answer true true false seen = settle_other seen responded_not_ok refl
settle-answer true true true true = refl
settle-answer true true true false = refl

-- When a round of heart beats gives a report, the report is of the children that were ready: of each, it
-- says that it refused the heart beat, or that its response was seen by then, or that it has not yet
-- responded; and before the timeout no response is missing.
pub heart_beats_lem :
    (is_ready takes : ℕ → Bool) (supervisor : GenericSupervisor) (events : List WaitEvent)
    (sent result : HeartbeatReport)
    → send_heart_beats is_ready takes supervisor ≡ some sent
    → wait_for_response events (count_pending sent) 0 sent ≡ reports result
    → (used : List WaitEvent) × (rest : List WaitEvent) × (events ≡ used ++ rest)
      × ((i : ℕ)
          → status_of i result ≡ (
              if is_in i supervisor.children && is_ready i
              then some (answer (takes i) (is_seen i used))
              else none))
      × ((count_pending result ≡ 0) ⊎ EndsInTimeout used)
unfolding send_heart_beats
heart_beats_lem is_ready takes supervisor events sent result h e =
    let beats = beat_children is_ready takes supervisor.children in
    let q : sent ≡ beats = elim (Bool-cases (ltb 0 (count_pending beats))) [
      | inl p ↦
          let f : send_heart_beats is_ready takes supervisor ≡ some beats = rw p refl in
          sym (ap (λ o. elim o [ some x ↦ x | none ↦ beats ]) (sym f ∙ h))
      | inr p ↦
          let f : send_heart_beats is_ready takes supervisor ≡ none = rw p refl in
          let no : none ≡ some sent = sym f ∙ h in ground arith
    ] in
    let (used, rest, g, st, z) =
      wait_lem events (count_pending sent) 0 sent result (omega arith) e in
    (
      used,
      rest,
      g,
      λ i.
          st i
          ∙ ap (λ o. settle (is_seen i used) (status_of i o)) q
          ∙ ap (λ o. settle (is_seen i used) o)
              (beat_children_status i is_ready takes supervisor.children)
          ∙ settle-answer (is_in i supervisor.children) (is_ready i) (takes i) (is_seen i used),
      z,
    )

refused_pending :
    (is_ready takes : ℕ → Bool) (children : List ℕ)
    → ((i : ℕ) → is_in i children ≡ true → is_ready i ≡ true → takes i ≡ false)
    → count_pending (beat_children is_ready takes children) ≡ 0
unfolding beat_children count_pending
refused_pending is_ready takes [] h = refl
refused_pending is_ready takes (c ∷ cs) h =
    let ih = refused_pending is_ready takes cs (λ i m. h i (rw m (or_true (i == c)))) in
    let r : (c == c) ≡ true = ground arith in
    elim (Bool-cases (is_ready c)) [
      | inl w ↦ let t = h c (rw r refl) w in rw (w, t, ih) refl
      | inr w ↦ rw (w, ih) refl
    ]

-- A round in which every ready child refuses its heart beat gives no report, so that it counts as missed
-- for none of them.
pub send_heart_beats-refused :
    (is_ready takes : ℕ → Bool) (supervisor : GenericSupervisor)
    → ((i : ℕ) → is_in i supervisor.children ≡ true → is_ready i ≡ true → takes i ≡ false)
    → send_heart_beats is_ready takes supervisor ≡ none
unfolding send_heart_beats
send_heart_beats-refused is_ready takes supervisor h =
    rw (refused_pending is_ready takes supervisor.children h) refl
