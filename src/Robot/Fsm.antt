-- ===== src/Robot/Fsm.antt =====
-- The state machine of one robot: robot_fsm.hpp and robot_fsm.cpp of src/fms_robot_agent.
pub mod Laws
pub mod Order
use warehouse_fleet_manageme.Common.{
  ℕ, Bool, true, false, not, Option, none, some, List, [], ◌∷◌, String, ◌==◌,
}

pub data RobotState : Type 0 where
  idle assigned navigating executing reporting recovering charging : RobotState

pub data FsmEvent : Type 0 where
  task_received nav_started nav_succeeded nav_failed execution_done report_sent : FsmEvent
  recovery_done recovery_failed low_battery battery_full fault_injected : FsmEvent

-- The underlying `uint8_t`.
unfoldable pub state_id : RobotState → ℕ
state_id idle = 0
state_id assigned = 1
state_id navigating = 2
state_id executing = 3
state_id reporting = 4
state_id recovering = 5
state_id charging = 6

unfoldable pub state_name : RobotState → String
state_name idle = "IDLE"
state_name assigned = "ASSIGNED"
state_name navigating = "NAVIGATING"
state_name executing = "EXECUTING"
state_name reporting = "REPORTING"
state_name recovering = "RECOVERING"
state_name charging = "CHARGING"

-- The `switch` of `process`: `some` is the state at `break`, `none` is `return false`.
transition : RobotState → FsmEvent → Option RobotState
transition idle task_received = some assigned
transition idle low_battery = some charging
transition assigned nav_started = some navigating
transition assigned low_battery = some charging
transition navigating nav_started = some navigating
transition navigating nav_succeeded = some executing
transition navigating nav_failed = some recovering
transition navigating fault_injected = some recovering
transition navigating low_battery = some charging
transition executing execution_done = some navigating
transition executing report_sent = some idle
transition executing low_battery = some charging
transition reporting report_sent = some idle
transition recovering recovery_done = some assigned
transition recovering recovery_failed = some idle
transition recovering low_battery = some charging
transition charging battery_full = some idle
transition _ _ = none

-- The new state, and the `bool` that `process` returns, `state_ != prev`.
unfoldable pub process : RobotState → FsmEvent → RobotState × Bool
unfolding transition state_id
process prev event = elim (transition prev event) [
  | none ↦ (prev, false)
  | some state ↦ (state, not (state_id state == state_id prev))
]

-- The state after a sequence of events.
unfoldable pub run : RobotState → List FsmEvent → RobotState
run s [] = s
run s (e ∷ es) = run (process s e).0 es
