-- ===== src/Part.antt =====
-- parts/abstract_part.go: the life of a part of a pipeline, such as a nozzle or a router.
pub mod Life
use goxdcr.Prelude.{
  ℕ, suc, Bool, true, false, not, ◌&&◌, Option, none, some, List, [], ◌∷◌, ◌==◌, if◌then◌else◌,
}

pub data PartState : Type 0 where
  part_initial part_starting part_running part_stopping part_stopped part_error : PartState

-- The order in which a part may pass through its states.
unfoldable pub rank : PartState → ℕ
rank part_initial = 0
rank part_starting = 1
rank part_running = 2
rank part_error = 3
rank part_stopping = 4
rank part_stopped = 5

-- The comparison of two states: they have different ranks.
unfoldable pub is_state : PartState → PartState → Bool
is_state a b = rank a == rank b

pub data PartError : Type 0 where
  part_already_started_error invalid_state_transition not_initial : PartError

-- A connector is known by a number.
pub record AbstractPart : Type 0 where
  pub connector : Option ℕ
  pub state : PartState

unfoldable pub new_abstract_part : AbstractPart
new_abstract_part = record { connector = none; state = part_initial }

unfoldable pub set_connector : ℕ → AbstractPart → AbstractPart × Option PartError
set_connector connector p =
    if not (is_state p.state part_initial)
    then (p, some not_initial)
    else (record p { connector = some connector }, none)

-- The switch of `SetState`: from one state to another.
unfoldable pub transition : PartState → PartState → Option PartError
transition part_initial state =
    if not (is_state state part_starting) && not (is_state state part_stopping)
    then some invalid_state_transition
    else none
transition part_starting state =
    if is_state state part_starting
    then some part_already_started_error
    else if not (is_state state part_running)
        && (not (is_state state part_stopping) && not (is_state state part_error))
    then some invalid_state_transition
    else none
transition part_running state =
    if is_state state part_starting
    then some part_already_started_error
    else if not (is_state state part_stopping) && not (is_state state part_error)
    then some invalid_state_transition
    else none
transition part_stopping state =
    if is_state state part_starting
    then some part_already_started_error
    else if not (is_state state part_stopped)
    then some invalid_state_transition
    else none
transition part_stopped state =
    if is_state state part_starting
    then some part_already_started_error
    else some invalid_state_transition
transition part_error state =
    if is_state state part_starting
    then some part_already_started_error
    else if not (is_state state part_stopping)
    then some invalid_state_transition
    else none

unfoldable pub set_state : PartState → AbstractPart → AbstractPart × Option PartError
set_state state p = elim (transition p.state state) [
  | none ↦ (record p { state = state }, none)
  | some err ↦ (p, some err)
]

unfoldable pub is_ready_for_heart_beat : AbstractPart → Bool
is_ready_for_heart_beat p = is_state p.state part_running
