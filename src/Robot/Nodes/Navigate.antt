-- ===== src/Robot/Nodes/Navigate.antt =====
-- The leaf that drives to a pose with Nav2: navigate_to_pose_bt.hpp and navigate_to_pose_bt.cpp of
-- src/fms_robot_agent.
pub mod Goals
use warehouse_fleet_manageme.Common.{
  ℕ, Bool, true, false, not, ◌==◌, Option, none, some, List, ◌∷◌, if◌then◌else◌,
}
use warehouse_fleet_manageme.Messages.{PoseStamped, to_stamp}
use warehouse_fleet_manageme.Robot.Fsm.{nav_started, nav_succeeded, nav_failed, fault_injected}
use warehouse_fleet_manageme.Robot.Agent.{Agent, Request, navigate, cancel, fire, send}
use warehouse_fleet_manageme.Robot.Nodes.Status.{NodeStatus, running, success, failure, Shared}

-- `rclcpp_action::ResultCode`.
pub data ResultCode : Type 0 where
  unknown succeeded canceled aborted : ResultCode

abbrev pub is_succeeded : ResultCode → Bool
is_succeeded succeeded = true
is_succeeded _ = false

pub record NavState : Type 0 where
  pub response_received : Bool
  pub goal_accepted : Bool
  pub result_received : Bool
  pub result_code : ResultCode
  pub goal_handle : Option ℕ

-- The leaf's own field `nav_state_`.
abbrev pub NavNode : Type 0
NavNode = Option (Shared NavState)

abbrev pub new_state : NavState
new_state = record {
  response_received = false;
  goal_accepted = false;
  result_received = false;
  result_code = unknown;
  goal_handle = none;
}

-- `handle != nullptr`.
abbrev pub is_handle : Option ℕ → Bool
is_handle none = false
is_handle (some h) = true

-- The callback runs on the state of the goal that it belongs to, if the leaf still holds it.
abbrev pub on_goal : {S : Type 0} → ℕ → (S → S) → Option (Shared S) → Option (Shared S)
on_goal goal f none = none
on_goal goal f (some s) = if s.goal == goal then some (record s { state = f s.state }) else some s

unfoldable pub goal_response_callback : ℕ → Option ℕ → NavNode → NavNode
goal_response_callback goal handle = on_goal goal λ s. record s {
  response_received = true;
  goal_accepted = is_handle handle;
  goal_handle = handle;
}

unfoldable pub result_callback : ℕ → ResultCode → NavNode → NavNode
result_callback goal code =
    on_goal goal λ s. record s { result_received = true; result_code = code }

-- The goal that has to be cancelled, if the leaf holds one that was accepted and has no result.
abbrev pub open_goal : NavNode → Option ℕ
open_goal none = none
open_goal (some s) = elim s.state.goal_handle [
  | none ↦ none
  | some h ↦ if s.state.result_received then none else some h
]

module _ {D : Type 0} where
  abbrev send_cancel : Option ℕ → Agent D → Agent D
  send_cancel none a = a
  send_cancel (some h) a = record a { requests = cancel h ∷ a.requests }

  unfoldable pub on_halted : NavNode → Agent D → NavNode × Agent D
  on_halted n a = (none, send_cancel (open_goal n) (record a { is_moving = false }))

  -- `goal` is the input port, `ready` is `action_server_is_ready()`.
  unfoldable pub on_start :
      Option (PoseStamped D) → Bool → ℕ → NavNode → Agent D → NavNode × Agent D × NodeStatus
  on_start none ready now n a = (n, a, failure)
  on_start (some goal) false now n a = (n, a, failure)
  on_start (some goal) true now n a =
      let stamped = record goal { stamp = to_stamp now } in
      let sent = fire (send a (navigate a.next_goal stamped)) nav_started in
      (
        some (record { goal = a.next_goal; state = new_state }),
        record sent { is_moving = true },
        running,
      )

  -- What `on_running` does with the state that it has read.
  unfoldable pub conclude : NavState → Agent D → Agent D × NodeStatus
  conclude s a =
      if not s.response_received
      then (a, running)
      else if not s.goal_accepted
      then (fire (record a { is_moving = false }) nav_failed, failure)
      else if not s.result_received
      then (a, running)
      else if is_succeeded s.result_code
      then (fire (record a { is_moving = false }) nav_succeeded, success)
      else (fire (record a { is_moving = false }) nav_failed, failure)

  -- The fault that was injected cancels the goal.
  unfoldable pub on_fault : NavNode → Agent D → NavNode × Agent D × NodeStatus
  unfolding on_halted
  on_fault n a =
      let (n', a') = on_halted n (record a { fault_injected = false }) in
      (n', fire a' fault_injected, failure)

  unfoldable pub observe : NavNode → Agent D → NavNode × Agent D × NodeStatus
  unfolding conclude
  observe none a = (none, a, failure)
  observe (some s) a = let (a', status) = conclude s.state a in (some s, a', status)

  unfoldable pub on_running : NavNode → Agent D → NavNode × Agent D × NodeStatus
  unfolding on_fault observe
  on_running n a = if a.fault_injected then on_fault n a else observe n a
