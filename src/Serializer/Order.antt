-- ===== src/Serializer/Order.antt =====
-- The queue of a topic: one go routine at most, jobs in the order of their calls, none lost.
use goxdcr.Prelude.{
  ℕ, zero, suc, ◌≡◌, refl, sym, ap, ◌∙◌, subst, inl, inr, Bool, true, false, none, some, List, [],
  ◌∷◌, ◌++◌, ltb, ◌==◌, arith, length, get_elem?, All-append, Bool-cases,
}
use mathlib.Core.List.{append_assoc}
use goxdcr.Serializer.Steps.{
  in_hand, IsBusy, set_channel_same, Moves, goes, rests, halts, busy-run_one,
}
use goxdcr.Serializer.{
  Job, Routine, starting, Lane, send, distribute_job, run_one, new_lane, PipelineOpSerializer,
  new_pipeline_op_serializer, set_lane, submit, Event, call, run, stop, serializer_step,
  serializer_run,
}

-- A topic at rest, with one routine, or halted by a stop with jobs left behind.
pub data IsOrdered (stopped : Bool) (topic : ℕ) (l : Lane) : Type 0 where
  idle : l.entry ≡ none → l.routines ≡ [] → l.accepted ≡ l.executed → IsOrdered stopped topic l
  busy : (c : ℕ) (r : Routine) → IsBusy topic l c r → IsOrdered stopped topic l
  halted :
      stopped ≡ true
      → (c : ℕ) → l.entry ≡ some c
      → l.routines ≡ []
      → (left : List Job) → l.accepted ≡ l.executed ++ left
      → IsOrdered stopped topic l

-- A job sent to the channel of a busy topic goes to the end of its queue.
IsBusy-send :
    (max topic c : ℕ) (r : Routine) (job : Job) (l : Lane)
    → job.pipeline_topic ≡ topic
    → IsBusy topic l c r
    → IsBusy topic (send max c job l).0 c r
unfolding send
IsBusy-send max topic c r job l t b = elim (Bool-cases (ltb (length (l.channels c)) max)) [
  | inr full ↦ rw full b
  | inl room ↦ rw room (record {
    entry_is = b.entry_is;
    routines_is = b.routines_is;
    serves = b.serves;
    order = rw (set_channel_same c (l.channels c ++ job ∷ []) l.channels) (
        ap (λ jobs. jobs ++ job ∷ []) b.order
        ∙ (append_assoc l.executed (in_hand r ++ l.channels c) (job ∷ [])
            ∙ ap (λ jobs. l.executed ++ jobs)
                (append_assoc (in_hand r) (l.channels c) (job ∷ []))));
    on_topic = rw (set_channel_same c (l.channels c ++ job ∷ []) l.channels) (
        rw (sym (append_assoc (in_hand r) (l.channels c) (job ∷ []))) (
          All-append (λ j. Job.pipeline_topic j ≡ topic) (in_hand r ++ l.channels c) (job ∷ [])
            b.on_topic (t, tt)));
  })
]

halted-send :
    (max topic c : ℕ) (stopped : Bool) (job : Job) (left : List Job) (l : Lane)
    → stopped ≡ true
    → l.entry ≡ some c
    → l.routines ≡ []
    → l.accepted ≡ l.executed ++ left
    → IsOrdered stopped topic (send max c job l).0
unfolding send
halted-send max topic c stopped job left l st e r o =
    elim (Bool-cases (ltb (length (l.channels c)) max)) [
      | inr full ↦ rw full (halted st c e r left o)
      | inl room ↦ rw room (
          halted st c e r (left ++ job ∷ [])
            (ap (λ jobs. jobs ++ job ∷ []) o ∙ append_assoc l.executed left (job ∷ [])))
    ]

distribute_queues :
    (max c : ℕ) (stopped : Bool) (job : Job) (l : Lane)
    → l.entry ≡ some c
    → distribute_job max stopped job l ≡ send max c job l
unfolding distribute_job
distribute_queues max c stopped job l e = simp (e, distribute_job) refl

-- The first job of an idle topic makes the channel and starts the routine.
pub distribute_job-IsOrdered :
    (max topic : ℕ) (stopped : Bool) (job : Job) (l : Lane)
    → job.pipeline_topic ≡ topic
    → IsOrdered stopped topic l
    → IsOrdered stopped topic (distribute_job max stopped job l).0
unfolding distribute_job
distribute_job-IsOrdered max topic stopped job l t (busy c r b) =
    rw (distribute_queues max c stopped job l b.entry_is)
      (busy c r (IsBusy-send max topic c r job l t b))
distribute_job-IsOrdered max topic stopped job l t (halted st c e r left o) =
    rw (distribute_queues max c stopped job l e)
      (halted-send max topic c stopped job left l st e r o)
distribute_job-IsOrdered max topic stopped job l t (idle e r o) = elim (Bool-cases stopped) [
  | inl s ↦ rw (e, s) (idle refl r o)
  | inr g ↦
      rw (e, g)
        (busy l.made starting (record {
          entry_is = refl;
          routines_is = rw r refl;
          serves = tt;
          order =
              rw (set_channel_same l.made (job ∷ []) l.channels) (ap (λ jobs. jobs ++ job ∷ []) o);
          on_topic = rw (set_channel_same l.made (job ∷ []) l.channels) (t, tt);
        }))
]

Moves-IsOrdered :
    (stopped : Bool) (topic w c : ℕ) (before : List Job) (l : Lane)
    → Moves stopped topic before w c l
    → IsOrdered stopped topic l
Moves-IsOrdered stopped topic w c before l (goes r b a less) = busy c r b
Moves-IsOrdered stopped topic w c before l (rests e q o a) = idle e q o
Moves-IsOrdered stopped topic w c before l (halts st e q left o) = halted st c e q left o

run_one-none :
    (stopped cleanup_fails : Bool) (topic i : ℕ) (l : Lane)
    → get_elem? l.routines i ≡ none
    → run_one stopped cleanup_fails topic i l ≡ l
unfolding run_one
run_one-none stopped cleanup_fails topic i l e = rw (e, run_one) refl

pub run_one-IsOrdered :
    (stopped cleanup_fails : Bool) (topic i : ℕ) (l : Lane)
    → IsOrdered stopped topic l
    → IsOrdered stopped topic (run_one stopped cleanup_fails topic i l)
run_one-IsOrdered stopped fails topic i l (idle e r o) =
    rw (run_one-none stopped fails topic i l (rw r refl)) (idle e r o)
run_one-IsOrdered stopped fails topic i l (halted st c e r left o) =
    rw (run_one-none stopped fails topic i l (rw r refl)) (halted st c e r left o)
run_one-IsOrdered stopped fails topic zero l (busy c r b) =
    Moves-IsOrdered stopped topic _ c _ _ (busy-run_one stopped fails topic c r l b)
run_one-IsOrdered stopped fails topic (suc i) l (busy c r b) =
    rw (run_one-none stopped fails topic (suc i) l (rw b.routines_is refl)) (busy c r b)

set_lane-IsOrdered :
    (topic t : ℕ) (l : Lane) (s : PipelineOpSerializer)
    → IsOrdered s.stopped topic l
    → IsOrdered s.stopped t (s.lanes t)
    → IsOrdered s.stopped t ((set_lane topic l s).lanes t)
unfolding set_lane
set_lane-IsOrdered topic t l s new old = elim (Bool-cases (t == topic)) [
  | inl e ↦
      let same : topic ≡ t = ground arith in rw e (subst (λ k. IsOrdered s.stopped k l) same new)
  | inr n ↦ rw n old
]

-- A stop leaves the queues as they are.
stop-IsOrdered :
    (stopped : Bool) (topic : ℕ) (l : Lane) → IsOrdered stopped topic l → IsOrdered true topic l
stop-IsOrdered stopped topic l (idle e r o) = idle e r o
stop-IsOrdered stopped topic l (busy c r b) = busy c r b
stop-IsOrdered stopped topic l (halted st c e r left o) = halted refl c e r left o

-- Every step of the serializer keeps the order of every topic: a call, with any reading of the stop
-- flag, a step of any routine with any answer of the manager, and a stop.
pub serializer_step-IsOrdered :
    (max_jobs : ℕ) (event : Event) (s : PipelineOpSerializer)
    → ((topic : ℕ) → IsOrdered s.stopped topic (s.lanes topic))
    → (topic : ℕ)
    → (let next = serializer_step max_jobs event s in
        IsOrdered next.stopped topic (next.lanes topic))
unfolding serializer_step submit set_lane
serializer_step-IsOrdered max_jobs (call true job) s all t = all t
serializer_step-IsOrdered max_jobs (call false job) s all t =
    set_lane-IsOrdered job.pipeline_topic t
      (distribute_job max_jobs s.stopped job (s.lanes job.pipeline_topic)).0 s
      (distribute_job-IsOrdered max_jobs job.pipeline_topic s.stopped job
        (s.lanes job.pipeline_topic) refl (all job.pipeline_topic))
      (all t)
serializer_step-IsOrdered max_jobs (run topic i fails) s all t =
    set_lane-IsOrdered topic t (run_one s.stopped fails topic i (s.lanes topic)) s
      (run_one-IsOrdered s.stopped fails topic i (s.lanes topic) (all topic)) (all t)
serializer_step-IsOrdered max_jobs stop s all t = stop-IsOrdered s.stopped t (s.lanes t) (all t)

run-IsOrdered :
    (max_jobs : ℕ) (events : List Event) (s : PipelineOpSerializer)
    → ((topic : ℕ) → IsOrdered s.stopped topic (s.lanes topic))
    → (topic : ℕ)
    → (let last = serializer_run max_jobs events s in
        IsOrdered last.stopped topic (last.lanes topic))
unfolding serializer_run
run-IsOrdered max_jobs [] s all t = all t
run-IsOrdered max_jobs (e ∷ es) s all t =
    run-IsOrdered max_jobs es (serializer_step max_jobs e s)
      (serializer_step-IsOrdered max_jobs e s all) t

-- After any sequence of calls, routine steps and stops from a new serializer, a topic has either no
-- entry, no routine and all its accepted jobs executed in the order of their acceptance, or one
-- routine and the accepted jobs are the executed ones, then the one in hand, then the queue, in
-- order; or the serializer was stopped, and the executed jobs are the first of the accepted ones.
pub jobs_in_order :
    (max_jobs : ℕ) (events : List Event) (topic : ℕ)
    → (let last = serializer_run max_jobs events new_pipeline_op_serializer in
        IsOrdered last.stopped topic (last.lanes topic))
unfolding new_pipeline_op_serializer new_lane
jobs_in_order max_jobs events topic =
    run-IsOrdered max_jobs events new_pipeline_op_serializer (λ t. idle refl refl refl) topic
