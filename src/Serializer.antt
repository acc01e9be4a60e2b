-- ===== src/Serializer.antt =====
-- pipeline_manager/pipelineOpSerializer.go: jobs on one replication run one after another, jobs on
-- different replications in parallel.
pub mod Steps
pub mod Order
pub mod Drain
use goxdcr.Prelude.{
  ℕ, zero, suc, ◌+◌, Bool, true, false, ◌&&◌, Option, none, some, List, [], ◌∷◌, ◌++◌, ltb, ◌==◌,
  if◌then◌else◌, length, get_elem?, take, drop,
}

-- PipelineMgtOpType.
pub data PipelineMgtOpType : Type 0 where
  pipeline_get_or_create pipeline_init pipeline_update pipeline_deletion pipeline_reinit_stream :
      PipelineMgtOpType

-- Topics and errors are numbers. The reply channel of a get-or-create job is not part of the state.
pub record Job : Type 0 where
  pub pipeline_topic : ℕ
  pub job_type : PipelineMgtOpType
  pub err_for_update_op : Option ℕ

pub data SerializerError : Type 0 where
  err_queue_maxed serializer_stopped_err : SerializerError

-- A call of the pipeline manager.
pub data ManagerCall : Type 0 where
  get_or_create_replication_status : ℕ → Option ℕ → ManagerCall
  remove_replication_status : ℕ → ManagerCall
  update : ℕ → Option ℕ → ManagerCall
  cleanup_pipeline : ℕ → ManagerCall

-- Where a go routine of the serializer is: before the look at the map, at the receive from its
-- channel, with a job in hand, or (a cleanup) before the lock of the map.
pub data Routine : Type 0 where
  starting : Routine
  serving : ℕ → Routine
  received : ℕ → Job → Routine
  cleaning : Routine

-- One topic: the map's entry, the channels made for the topic with what is queued in each, its go
-- routines, the calls made for it, the jobs taken into a queue and the jobs whose handling began.
pub record Lane : Type 0 where
  pub entry : Option ℕ
  pub channels : ℕ → List Job
  pub made : ℕ
  pub routines : List Routine
  pub calls : List ManagerCall
  pub accepted : List Job
  pub executed : List Job

unfoldable pub new_lane : Lane
new_lane = record {
  entry = none;
  channels = λ c. [];
  made = 0;
  routines = [];
  calls = [];
  accepted = [];
  executed = [];
}

unfoldable pub set_channel : ℕ → List Job → (ℕ → List Job) → ℕ → List Job
set_channel c jobs channels k = if k == c then jobs else channels k

module _ (max_nonblocking_queue_jobs : ℕ) where
  -- The non-blocking send on a buffered channel.
  unfoldable pub send : ℕ → Job → Lane → Lane × Option SerializerError
  send c job l =
      if ltb (length (l.channels c)) max_nonblocking_queue_jobs
      then (
        record l {
          channels = set_channel c (l.channels c ++ job ∷ []) l.channels;
          accepted = l.accepted ++ job ∷ [];
        },
        none,
      )
      else (l, some err_queue_maxed)

  -- `distributeJob`, from its last look at the map on: a look before it that found no entry changes
  -- nothing. The new channel has room for the job.
  unfoldable pub distribute_job : Bool → Job → Lane → Lane × Option SerializerError
  distribute_job stopped job l = elim l.entry [
    | some c ↦ send c job l
    | none ↦ if stopped then (l, none) else (
      record l {
        entry = some l.made;
        channels = set_channel l.made (job ∷ []) l.channels;
        made = suc l.made;
        routines = l.routines ++ starting ∷ [];
        accepted = l.accepted ++ job ∷ [];
      },
      none,
    )
  ]

-- The calls for a job. `cleanup_fails` is whether the manager's CleanupPipeline returns an error.
unfoldable pub manager_calls : Bool → Job → List ManagerCall
manager_calls cleanup_fails job = elim job.job_type [
  | pipeline_get_or_create ↦
      get_or_create_replication_status job.pipeline_topic job.err_for_update_op ∷ []
  | pipeline_init ↦ get_or_create_replication_status job.pipeline_topic none ∷ []
  | pipeline_deletion ↦ remove_replication_status job.pipeline_topic ∷ []
  | pipeline_update ↦ update job.pipeline_topic job.err_for_update_op ∷ []
  | pipeline_reinit_stream ↦
      cleanup_pipeline job.pipeline_topic
      ∷ (if cleanup_fails then [] else update job.pipeline_topic job.err_for_update_op ∷ [])
]

-- Once round the loop of `handleJobs`, from a received job on: true when the loop goes on.
unfoldable pub handle_job : Bool → Bool → ℕ → Job → Lane → Lane × Bool
handle_job stopped cleanup_fails topic job l =
    if stopped
    then (l, false)
    else if job.pipeline_topic == topic
    then (
      record l {
        calls = l.calls ++ manager_calls cleanup_fails job;
        executed = l.executed ++ job ∷ [];
      },
      true,
    )
    else (l, true)

-- `cleanupJob`, which runs under the map's lock.
unfoldable pub cleanup_job : Bool → Lane → Lane × List Routine
cleanup_job stopped l = elim l.entry [
  | none ↦ (l, [])
  | some c ↦
      if length (l.channels c) == 0
      then (record l { entry = none }, [])
      else (l, if stopped then [] else starting ∷ [])
]

-- The next step of a routine, and the routines that are there in its place: none when it returns.
unfoldable pub run_routine : Bool → Bool → ℕ → Routine → Lane → Lane × List Routine
run_routine stopped cleanup_fails topic starting l = elim l.entry [
  | none ↦ (l, [])
  | some c ↦ (l, serving c ∷ [])
]
run_routine stopped cleanup_fails topic (serving c) l = elim (l.channels c) [
  | [] ↦ (l, if stopped then [] else cleaning ∷ [])
  | job ∷ jobs ↦ (record l { channels = set_channel c jobs l.channels }, received c job ∷ [])
]
run_routine stopped cleanup_fails topic (received c job) l =
    let (next, goes_on) = handle_job stopped cleanup_fails topic job l in
    (next, if goes_on then serving c ∷ [] else [])
run_routine stopped cleanup_fails topic cleaning l = cleanup_job stopped l

-- The routine at place `i` of the topic's routines makes its next step.
unfoldable pub run_one : Bool → Bool → ℕ → ℕ → Lane → Lane
run_one stopped cleanup_fails topic i l = elim (get_elem? l.routines i) [
  | none ↦ l
  | some routine ↦
      let (next, left) = run_routine stopped cleanup_fails topic routine l in
      record next { routines = take i l.routines ++ (left ++ drop (suc i) l.routines) }
]

pub record PipelineOpSerializer : Type 0 where
  pub stopped : Bool
  pub lanes : ℕ → Lane

unfoldable pub new_pipeline_op_serializer : PipelineOpSerializer
new_pipeline_op_serializer = record { stopped = false; lanes = λ topic. new_lane }

unfoldable pub set_lane : ℕ → Lane → PipelineOpSerializer → PipelineOpSerializer
set_lane topic l s = record s { lanes = λ t. if t == topic then l else s.lanes t }

-- The job that an API call makes.
unfoldable pub request : ℕ → PipelineMgtOpType → Option ℕ → Job
request topic job_type err = record {
  pipeline_topic = topic;
  job_type = job_type;
  err_for_update_op = err;
}

module _ (max_nonblocking_queue_jobs : ℕ) where
  -- An API call looks at `stopped` first, and distributes its job later.
  unfoldable pub submit :
      Bool → Job → PipelineOpSerializer → PipelineOpSerializer × Option SerializerError
  submit was_stopped job s =
      if was_stopped
      then (s, some serializer_stopped_err)
      else let topic = job.pipeline_topic in
        let (l, err) = distribute_job max_nonblocking_queue_jobs s.stopped job (s.lanes topic) in
        (set_lane topic l s, err)

-- One step of the serializer: a call with the value of `stopped` that it read, a step of a routine of
-- a topic, or Stop.
pub data Event : Type 0 where
  call : Bool → Job → Event
  run : ℕ → ℕ → Bool → Event
  stop : Event

unfoldable pub serializer_step : ℕ → Event → PipelineOpSerializer → PipelineOpSerializer
serializer_step max_jobs (call was_stopped job) s = (submit max_jobs was_stopped job s).0
serializer_step max_jobs (run topic i cleanup_fails) s =
    set_lane topic (run_one s.stopped cleanup_fails topic i (s.lanes topic)) s
serializer_step max_jobs stop s = record s { stopped = true }

unfoldable pub serializer_run : ℕ → List Event → PipelineOpSerializer → PipelineOpSerializer
serializer_run max_jobs [] s = s
serializer_run max_jobs (e ∷ es) s = serializer_run max_jobs es (serializer_step max_jobs e s)
