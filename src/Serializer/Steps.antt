-- ===== src/Serializer/Steps.antt =====
-- One step of the go routine of a topic.
use goxdcr.Prelude.{
  ℕ, ◌+◌, ◌*◌, ◌<◌, ◌≡◌, refl, sym, ap, ◌∙◌, subst, inl, inr, Bool, true, false, none, some, List,
  [], ◌∷◌, ◌++◌, ◌==◌, arith, length, All, Bool-cases,
}
use mathlib.Core.List.{append_assoc, append-nil}
use goxdcr.Serializer.{
  Job, Routine, starting, serving, received, cleaning, Lane, set_channel, handle_job, cleanup_job,
  run_routine, run_one,
}

-- The job that a routine has received and not yet begun to handle.
abbrev pub in_hand : Routine → List Job
in_hand starting = []
in_hand (serving c) = []
in_hand (received c job) = job ∷ []
in_hand cleaning = []

-- The routine's channel is the map's.
abbrev pub Serves : ℕ → Routine → Type 0
Serves c starting = Unit {0}
Serves c (serving d) = d ≡ c
Serves c (received d job) = d ≡ c
Serves c cleaning = Unit {0}

abbrev pub OnTopic : ℕ → List Job → Type 0
OnTopic topic jobs = All (λ job. Job.pipeline_topic job ≡ topic) jobs

pub record IsBusy (topic : ℕ) (l : Lane) (c : ℕ) (r : Routine) : Type 0 where
  pub entry_is : l.entry ≡ some c
  pub routines_is : l.routines ≡ r ∷ []
  pub serves : Serves c r
  pub order : l.accepted ≡ l.executed ++ (in_hand r ++ l.channels c)
  pub on_topic : OnTopic topic (in_hand r ++ l.channels c)

pub set_channel_same : (c : ℕ) (jobs : List Job) (f : ℕ → List Job) → set_channel c jobs f c ≡ jobs
unfolding set_channel
set_channel_same c jobs f = let e : (c == c) ≡ true = ground arith in rw e refl

-- More than the steps that a routine still has to make, with these jobs in its channel.
abbrev pub work : Routine → List Job → ℕ
work starting jobs = 3 + 2 * length jobs
work (serving c) jobs = 2 + 2 * length jobs
work (received c job) jobs = 3 + 2 * length jobs
work cleaning [] = 1
work cleaning (job ∷ jobs) = 4 + 2 * length (job ∷ jobs)

-- A step of a topic's only routine, which had `w` work: it goes on with less work, or leaves the topic
-- at rest, or halts. The accepted jobs are those from before.
pub data Moves (stopped : Bool) (topic : ℕ) (before : List Job) (w c : ℕ) (l : Lane) : Type 0 where
  goes :
      (r : Routine)
      → IsBusy topic l c r
      → l.accepted ≡ before
      → work r (l.channels c) < w
      → Moves stopped topic before w c l
  rests :
      l.entry ≡ none
      → l.routines ≡ []
      → l.accepted ≡ l.executed
      → l.accepted ≡ before
      → Moves stopped topic before w c l
  halts :
      stopped ≡ true
      → l.entry ≡ some c
      → l.routines ≡ []
      → (left : List Job) → l.accepted ≡ l.executed ++ left
      → Moves stopped topic before w c l

-- The routine looks the channel up.
start_step :
    (stopped cleanup_fails : Bool) (topic c : ℕ) (l : Lane)
    → IsBusy topic l c starting
    → Moves stopped topic l.accepted
        (work starting (l.channels c))
        c
        (run_one stopped cleanup_fails topic 0 l)
unfolding run_one run_routine
start_step stopped cleanup_fails topic c l b =
    rw (b.routines_is, b.entry_is)
      (goes (serving c)
        (record {
          entry_is = refl;
          routines_is = refl;
          serves = refl;
          order = b.order;
          on_topic = b.on_topic;
        })
        refl (omega arith))

run_only :
    (stopped cleanup_fails : Bool) (topic : ℕ) (r : Routine) (l : Lane)
    → l.routines ≡ r ∷ []
    → run_one stopped cleanup_fails topic 0 l ≡ (
        let (next, left) = run_routine stopped cleanup_fails topic r l in
        record next { routines = left ++ [] })
unfolding run_one
run_only stopped cleanup_fails topic r l e = simp (e, run_one) refl

-- The routine receives, or finds its channel empty and starts a cleanup.
serve_step :
    (stopped cleanup_fails : Bool) (topic c : ℕ) (l : Lane)
    → IsBusy topic l c (serving c)
    → Moves stopped topic l.accepted
        (work (serving c) (l.channels c))
        c
        (run_one stopped cleanup_fails topic 0 l)
unfolding run_one run_routine
serve_step stopped cleanup_fails topic c l b = go (l.channels c) refl
  where
    go :
        (jobs : List Job)
        → l.channels c ≡ jobs
        → Moves stopped topic l.accepted
            (work (serving c) (l.channels c))
            c
            (run_one stopped cleanup_fails topic 0 l)
    go [] e = elim (Bool-cases stopped) [
      | inl s ↦ rw (run_only stopped cleanup_fails topic (serving c) l b.routines_is) (
          rw (run_routine, e, s)
            (halts refl b.entry_is refl [] (subst (λ q. l.accepted ≡ l.executed ++ q) e b.order)))
      | inr g ↦ rw (run_only stopped cleanup_fails topic (serving c) l b.routines_is) (
          rw (run_routine, e, g)
            (goes cleaning
              (record {
                entry_is = b.entry_is;
                routines_is = refl;
                serves = tt;
                order = b.order;
                on_topic = b.on_topic;
              })
              refl (rw e (omega arith))))
    ]
    go (job ∷ jobs) e = rw (run_only stopped cleanup_fails topic (serving c) l b.routines_is) (
        rw (run_routine, e)
          (goes (received c job)
            (record {
              entry_is = b.entry_is;
              routines_is = refl;
              serves = refl;
              order =
                  rw (set_channel_same c jobs l.channels)
                    (subst (λ q. l.accepted ≡ l.executed ++ q) e b.order);
              on_topic =
                  rw (set_channel_same c jobs l.channels) (subst (OnTopic topic) e b.on_topic);
            })
            refl (omega (arith, ap length (set_channel_same c jobs l.channels)))))

-- The routine handles the job in hand, or is stopped with it.
handle_step :
    (stopped cleanup_fails : Bool) (topic c : ℕ) (job : Job) (l : Lane)
    → IsBusy topic l c (received c job)
    → Moves stopped topic l.accepted
        (work (received c job) (l.channels c))
        c
        (run_one stopped cleanup_fails topic 0 l)
unfolding run_one run_routine handle_job
handle_step stopped cleanup_fails topic c job l b = elim (Bool-cases stopped) [
  | inl s ↦ rw (b.routines_is, s) (halts refl b.entry_is refl (job ∷ l.channels c) b.order)
  | inr g ↦
      let own : (job.pipeline_topic == topic) ≡ true = ground (arith, b.on_topic.0) in
      rw (b.routines_is, g, own)
        (goes (serving c)
          (record {
            entry_is = b.entry_is;
            routines_is = refl;
            serves = refl;
            order = b.order ∙ sym (append_assoc l.executed (job ∷ []) (l.channels c));
            on_topic = b.on_topic.1;
          })
          refl (omega arith))
]

-- The cleanup takes the entry away, or starts the handler again.
clean_step :
    (stopped cleanup_fails : Bool) (topic c : ℕ) (l : Lane)
    → IsBusy topic l c cleaning
    → Moves stopped topic l.accepted
        (work cleaning (l.channels c))
        c
        (run_one stopped cleanup_fails topic 0 l)
unfolding run_one run_routine cleanup_job
clean_step stopped cleanup_fails topic c l b = go (l.channels c) refl
  where
    go :
        (jobs : List Job)
        → l.channels c ≡ jobs
        → Moves stopped topic l.accepted
            (work cleaning (l.channels c))
            c
            (run_one stopped cleanup_fails topic 0 l)
    go [] e =
        rw (b.routines_is, b.entry_is, e)
          (rests refl refl
            (subst (λ q. l.accepted ≡ l.executed ++ q) e b.order ∙ append-nil l.executed) refl)
    go (job ∷ jobs) e =
        let more : (length (l.channels c) == 0) ≡ false = rw e (ground arith) in
        elim (Bool-cases stopped) [
          | inl s ↦
              rw (b.routines_is, b.entry_is, more, s) (halts refl refl refl (l.channels c) b.order)
          | inr g ↦
              rw (b.routines_is, b.entry_is, more, g)
                (goes starting
                  (record {
                    entry_is = refl;
                    routines_is = refl;
                    serves = tt;
                    order = b.order;
                    on_topic = b.on_topic;
                  })
                  refl (rw e (omega arith)))
        ]

pub busy-run_one :
    (stopped cleanup_fails : Bool) (topic c : ℕ) (r : Routine) (l : Lane)
    → IsBusy topic l c r
    → Moves stopped topic l.accepted
        (work r (l.channels c))
        c
        (run_one stopped cleanup_fails topic 0 l)
busy-run_one stopped fails topic c starting l b = start_step stopped fails topic c l b
busy-run_one stopped fails topic c (serving d) l b =
    serve_step stopped fails topic c l (subst (λ k. IsBusy topic l c (serving k)) b.serves b)
busy-run_one stopped fails topic c (received d job) l b =
    handle_step stopped fails topic c job l
      (subst (λ k. IsBusy topic l c (received k job)) b.serves b)
busy-run_one stopped fails topic c cleaning l b = clean_step stopped fails topic c l b
