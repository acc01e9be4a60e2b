-- ===== src/Serializer/Drain.antt =====
-- The routine of a topic gets through its queue.
use goxdcr.Prelude.{
  ℕ, zero, suc, ◌≤◌, ◌<◌, ◌≡◌, refl, sym, subst, ◌∙◌, Bool, false, none, List, [], ◌∷◌, arith,
}
use goxdcr.Serializer.{
  Job, Routine, starting, serving, received, cleaning, Lane, run_one, Event, serializer_run,
  new_pipeline_op_serializer,
}
use goxdcr.Serializer.Order.{idle, busy, halted, jobs_in_order}
use goxdcr.Serializer.Steps.{IsBusy, work, goes, rests, halts, busy-run_one}

-- A number of steps of a topic's routine with nothing else going on, and no stop. Each step has an
-- answer of the pipeline manager.
unfoldable pub drive : (ℕ → Bool) → ℕ → ℕ → Lane → Lane
drive cleanup_fails topic zero l = l
drive cleanup_fails topic (suc n) l =
    drive cleanup_fails topic n (run_one false (cleanup_fails n) topic 0 l)

-- No entry, no routine, and all that was accepted is executed.
pub record IsDrained (accepted : List Job) (l : Lane) : Type 0 where
  pub entry : l.entry ≡ none
  pub routines : l.routines ≡ []
  pub executed : l.executed ≡ accepted

idle_drive :
    (answers : ℕ → Bool) (topic n : ℕ) (l : Lane) → l.routines ≡ [] → drive answers topic n l ≡ l
unfolding drive run_one
idle_drive answers topic zero l e = refl
idle_drive answers topic (suc n) l e =
    let same : run_one false (answers n) topic 0 l ≡ l = simp (e, run_one) refl in
    rw same (idle_drive answers topic n l e)

work_pos : (r : Routine) (jobs : List Job) → 0 < work r jobs
work_pos starting jobs = omega arith
work_pos (serving c) jobs = omega arith
work_pos (received c job) jobs = omega arith
work_pos cleaning [] = omega arith
work_pos cleaning (job ∷ jobs) = omega arith

drive-IsDrained :
    (answers : ℕ → Bool) (topic n c : ℕ) (r : Routine) (l : Lane)
    → IsBusy topic l c r
    → work r (l.channels c) ≤ n
    → IsDrained l.accepted (drive answers topic n l)
unfolding drive
drive-IsDrained answers topic zero c r l b h = absurd (omega (arith, work_pos r (l.channels c)))
drive-IsDrained answers topic (suc n) c r l b h =
    elim (busy-run_one false (answers n) topic c r l b) [
      | goes r' b' same less ↦
          subst
            (λ jobs. IsDrained jobs (drive answers topic n (run_one false (answers n) topic 0 l)))
            same
            (drive-IsDrained answers topic n c r' (run_one false (answers n) topic 0 l) b'
              (omega arith))
      | rests e q o same ↦
          rw (idle_drive answers topic n (run_one false (answers n) topic 0 l) q)
            (record { entry = e; routines = q; executed = sym o ∙ same })
      | halts st e q left o ↦ cc
    ]

-- From any reachable state of a serializer that is not stopped, if only the routine of one topic runs,
-- whatever the pipeline manager answers, then after some number of its steps the topic has no entry and
-- no routine, and every job accepted for it is executed, in the order of acceptance.
pub queue_drains :
    (max_jobs : ℕ) (events : List Event) (topic : ℕ) (answers : ℕ → Bool)
    → (serializer_run max_jobs events new_pipeline_op_serializer).stopped ≡ false
    → (let lane = (serializer_run max_jobs events new_pipeline_op_serializer).lanes topic in
        (n : ℕ) × IsDrained lane.accepted (drive answers topic n lane))
queue_drains max_jobs events topic answers running =
    let lane = (serializer_run max_jobs events new_pipeline_op_serializer).lanes topic in
    elim (jobs_in_order max_jobs events topic) [
      | idle e q o ↦ (0, unfold drive in record { entry = e; routines = q; executed = sym o })
      | busy c r b ↦ (
        work r (lane.channels c),
        drive-IsDrained answers topic (work r (lane.channels c)) c r lane b (omega arith),
      )
      | halted st c e q left o ↦ cc
    ]
