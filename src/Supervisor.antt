-- ===== src/Supervisor.antt =====
-- supervisor/generic_supervisor.go: a supervisor sends heart beats to its children and counts those that
-- are missed.
pub mod Reports
pub mod Waits
pub mod Rounds
use goxdcr.Prelude.{
  ℕ, zero, suc, ◌+◌, ◌%◌, ◌^◌, Bool, true, false, not, ◌||◌, Option, none, some, List, [], ◌∷◌,
  ◌++◌, ltb, ◌==◌, if◌then◌else◌, set_at,
}

pub data HeartbeatRespStatus : Type 0 where
  skip not_yet_responded responded_ok responded_not_ok : HeartbeatRespStatus

-- A child is known by its id. The maps are iterated over in the order of a list, for any order.
pub record GenericSupervisor : Type 0 where
  pub children : List ℕ
  pub children_beat_missed_map : ℕ → Option ℕ
  pub missed_heartbeat_threshold : ℕ
  pub heartbeat_interval : ℕ
  pub heartbeat_timeout : ℕ
  pub heartbeat_resp_check_interval : ℕ

abbrev pub HeartbeatReport : Type 0
HeartbeatReport = List (ℕ × HeartbeatRespStatus)

-- With the default settings, times in milliseconds.
unfoldable pub new_generic_supervisor : GenericSupervisor
new_generic_supervisor = record {
  children = [];
  children_beat_missed_map = λ i. none;
  missed_heartbeat_threshold = 200;
  heartbeat_interval = 3000;
  heartbeat_timeout = 4000;
  heartbeat_resp_check_interval = 500;
}

-- The supervisor's settings, each if it is given, after their validation.
pub record SupervisorSettings : Type 0 where
  pub interval : Option ℕ
  pub timeout : Option ℕ
  pub resp_check_interval : Option ℕ
  pub missed_threshold : Option ℕ

abbrev given_or : Option ℕ → ℕ → ℕ
given_or none n = n
given_or (some m) n = m

unfoldable pub init_supervisor : SupervisorSettings → GenericSupervisor → GenericSupervisor
init_supervisor settings supervisor = record supervisor {
  heartbeat_interval = given_or settings.interval supervisor.heartbeat_interval;
  heartbeat_timeout = given_or settings.timeout supervisor.heartbeat_timeout;
  heartbeat_resp_check_interval =
      given_or settings.resp_check_interval supervisor.heartbeat_resp_check_interval;
}

abbrev pub is_in : ℕ → List ℕ → Bool
is_in i [] = false
is_in i (c ∷ cs) = (i == c) || is_in i cs

unfoldable pub delete_id : ℕ → List ℕ → List ℕ
delete_id i [] = []
delete_id i (c ∷ cs) = let rest = delete_id i cs in if c == i then rest else c ∷ rest

unfoldable pub add_child : ℕ → GenericSupervisor → GenericSupervisor
add_child child supervisor = record supervisor {
  children =
      if is_in child supervisor.children
      then supervisor.children
      else supervisor.children ++ child ∷ [];
  children_beat_missed_map = set_at child (some 0) supervisor.children_beat_missed_map;
}

unfoldable pub remove_child : ℕ → GenericSupervisor → GenericSupervisor
remove_child child supervisor = record supervisor {
  children = delete_id child supervisor.children;
  children_beat_missed_map = set_at child none supervisor.children_beat_missed_map;
}

-- The report that the heart beats start with, of the children that are ready, each with whether it takes
-- the heart beat.
unfoldable pub beat_children : (ℕ → Bool) → (ℕ → Bool) → List ℕ → HeartbeatReport
beat_children is_ready takes [] = []
beat_children is_ready takes (c ∷ cs) =
    let rest = beat_children is_ready takes cs in
    if is_ready c then (c, if takes c then not_yet_responded else responded_not_ok) ∷ rest else rest

abbrev pub is_pending : HeartbeatRespStatus → Bool
is_pending not_yet_responded = true
is_pending _ = false

-- How many children are in a report with a response to wait for.
unfoldable pub count_pending : HeartbeatReport → ℕ
count_pending [] = 0
count_pending ((c, status) ∷ rest) = (if is_pending status then 1 else 0) + count_pending rest

-- `sendHeartBeats`: the report that `waitForResponse` is started on, unless it is not started.
unfoldable pub send_heart_beats :
    (ℕ → Bool) → (ℕ → Bool) → GenericSupervisor → Option HeartbeatReport
send_heart_beats is_ready takes supervisor =
    let report = beat_children is_ready takes supervisor.children in
    if ltb 0 (count_pending report) then some report else none

-- One tick of the response check, with the children whose response has come: the report and how many
-- new responses it has.
unfoldable pub check_responses : (ℕ → Bool) → HeartbeatReport → HeartbeatReport × ℕ
check_responses has_come [] = ([], 0)
check_responses has_come ((c, status) ∷ rest) =
    let r = check_responses has_come rest in
    if is_pending status
    then if has_come c then ((c, responded_ok) ∷ r.0, suc r.1) else ((c, status) ∷ r.0, r.1)
    else ((c, status) ∷ r.0, r.1)

-- What the select of `waitForResponse` can take.
pub data WaitEvent : Type 0 where
  finished timed_out : WaitEvent
  checks : (ℕ → Bool) → WaitEvent

pub data WaitResult : Type 0 where
  waiting exits : WaitResult
  reports : HeartbeatReport → WaitResult

-- `waitForResponse`, with the number of its channels.
unfoldable pub wait_for_response : List WaitEvent → ℕ → ℕ → HeartbeatReport → WaitResult
wait_for_response [] channels responded_count report = waiting
wait_for_response (finished ∷ rest) channels responded_count report = exits
wait_for_response (timed_out ∷ rest) channels responded_count report = reports report
wait_for_response (checks has_come ∷ rest) channels responded_count report =
    let checked = check_responses has_come report in
    let count = responded_count + checked.1 in
    let later = wait_for_response rest channels count checked.0 in
    if count == channels then reports checked.0 else later

abbrev pub is_missed : HeartbeatRespStatus → Bool
is_missed responded_not_ok = true
is_missed not_yet_responded = true
is_missed _ = false

abbrev pub missed_of : Option ℕ → ℕ
missed_of none = 0
missed_of (some n) = n

unfoldable pub set_missed : ℕ → ℕ → GenericSupervisor → GenericSupervisor
set_missed child count supervisor = record supervisor {
  children_beat_missed_map = set_at child (some count) supervisor.children_beat_missed_map;
}

-- A child of the report: the supervisor, and whether the child is broken.
unfoldable pub process_child :
    ℕ → HeartbeatRespStatus → GenericSupervisor → GenericSupervisor × Bool
process_child child status supervisor =
    let missed_count = (missed_of (supervisor.children_beat_missed_map child) + 1) % 2 ^ 16 in
    let counted = set_missed child missed_count supervisor in
    if is_missed status
    then if ltb supervisor.missed_heartbeat_threshold missed_count
      then (remove_child child counted, true)
      else (counted, false)
    else (set_missed child 0 supervisor, false)

-- `processReport`: the supervisor, and the broken children that its failure handler is told of, if any.
unfoldable pub process_report : HeartbeatReport → GenericSupervisor → GenericSupervisor × List ℕ
process_report [] supervisor = (supervisor, [])
process_report ((child, status) ∷ rest) supervisor =
    let first = process_child child status supervisor in
    let others = process_report rest first.0 in
    (others.0, if first.1 then child ∷ others.1 else others.1)
