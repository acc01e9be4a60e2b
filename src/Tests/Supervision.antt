-- ===== src/Tests/Supervision.antt =====
-- A supervisor with a threshold of two and a child that does not respond.
use goxdcr.Prelude.{
  ℕ, ◌≡◌, ◌⊎◌, refl, true, false, ◌&&◌, none, some, List, [], ◌∷◌, ◌++◌, ◌==◌, if◌then◌else◌, arith,
  set_at,
}
use goxdcr.Supervisor.{
  GenericSupervisor, HeartbeatReport, not_yet_responded, responded_ok, is_in, count_pending,
  beat_children, send_heart_beats, WaitEvent, checks, timed_out, reports, check_responses,
  wait_for_response, set_missed, remove_child, process_child, process_report,
}
use goxdcr.Supervisor.Reports.{status_of}
use goxdcr.Supervisor.Rounds.{
  process_reports, MissedLast, broken-MissedLast, IsReported, missed-IsReported,
}
use goxdcr.Supervisor.Waits.{answer, is_seen, EndsInTimeout, heart_beats_lem}

abbrev with_two_children : GenericSupervisor
with_two_children = record {
  children = 5 ∷ 6 ∷ [];
  children_beat_missed_map = λ i. some 0;
  missed_heartbeat_threshold = 2;
  heartbeat_interval = 3000;
  heartbeat_timeout = 4000;
  heartbeat_resp_check_interval = 500;
}

abbrev five_is_silent : HeartbeatReport
five_is_silent = (5, not_yet_responded) ∷ (6, responded_ok) ∷ []

five_is_broken :
    is_in 5
      (process_reports (five_is_silent ∷ five_is_silent ∷ five_is_silent ∷ []) with_two_children).1
    ≡ true
unfolding process_reports process_report process_child set_missed remove_child set_at
five_is_broken = refl

broken-MissedLast_example : MissedLast 5 3 (five_is_silent ∷ five_is_silent ∷ five_is_silent ∷ [])
broken-MissedLast_example =
    broken-MissedLast 5 five_is_silent (five_is_silent ∷ five_is_silent ∷ []) with_two_children
      ((refl, (refl, tt)), ((refl, (refl, tt)), ((refl, (refl, tt)), tt))) refl five_is_broken

missed-IsReported_example :
    IsReported 5 (five_is_silent ∷ five_is_silent ∷ five_is_silent ∷ []) with_two_children
missed-IsReported_example =
    missed-IsReported 5 (five_is_silent ∷ five_is_silent ∷ five_is_silent ∷ []) with_two_children
      (omega arith) ((refl, (refl, tt)), ((refl, (refl, tt)), ((refl, (refl, tt)), tt)))
      ((refl, tt), ((refl, tt), ((refl, tt), tt))) (omega arith) refl

abbrev sent_to_both : HeartbeatReport
sent_to_both = (5, not_yet_responded) ∷ (6, not_yet_responded) ∷ []

abbrev some_checks : List WaitEvent
some_checks = checks (λ i. false) ∷ checks (λ i. i == 6) ∷ timed_out ∷ checks (λ i. true) ∷ []

both_are_sent : send_heart_beats (λ i. true) (λ i. true) with_two_children ≡ some sent_to_both
unfolding send_heart_beats beat_children count_pending
both_are_sent = refl

six_responds :
    wait_for_response some_checks (count_pending sent_to_both) 0 sent_to_both
    ≡ reports five_is_silent
unfolding wait_for_response check_responses count_pending
six_responds = refl

heart_beats_lem_example :
    (used : List WaitEvent) × (rest : List WaitEvent) × (some_checks ≡ used ++ rest)
    × ((i : ℕ)
        → status_of i five_is_silent ≡ (
            if is_in i with_two_children.children && true
            then some (answer true (is_seen i used))
            else none))
    × ((count_pending five_is_silent ≡ 0) ⊎ EndsInTimeout used)
heart_beats_lem_example =
    heart_beats_lem (λ i. true) (λ i. true) with_two_children some_checks sent_to_both
      five_is_silent both_are_sent six_responds
