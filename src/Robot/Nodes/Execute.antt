-- ===== src/Robot/Nodes/Execute.antt =====
-- The leaf that simulates a pick or a drop: execute_pick_drop.hpp and execute_pick_drop.cpp of
-- src/fms_robot_agent.
use warehouse_fleet_manageme.Common.{ℕ, String, ◌==ₛ◌, Option, none, some, if◌then◌else◌}
use warehouse_fleet_manageme.Float.{Double}
use warehouse_fleet_manageme.Robot.Fsm.{execution_done}
use warehouse_fleet_manageme.Robot.Agent.{Agent, fire}
use warehouse_fleet_manageme.Robot.Nodes.Status.{NodeStatus, running, success}

pub record ExecuteNode (D : Type 0) : Type 0 where
  pub start_time : ℕ
  pub duration_secs : D

abbrev pub operation_of : Option String → String
operation_of none = "pick"
operation_of (some op) = op

module _ {D : Type 0} ⦃d : Double D⦄ where
  abbrev pub duration_of : Option D → D
  duration_of none = d.decimal 30 1
  duration_of (some secs) = secs

  unfoldable pub on_start :
      Option D → ℕ → ExecuteNode D → Agent D → ExecuteNode D × Agent D × NodeStatus
  on_start duration now n a =
      (record n { duration_secs = duration_of duration; start_time = now }, a, running)

  unfoldable pub on_running :
      Option String → ℕ → ExecuteNode D → Agent D → ExecuteNode D × Agent D × NodeStatus
  on_running operation now n a =
      if d.lt (d.seconds now n.start_time) n.duration_secs
      then (n, a, running)
      else if operation_of operation ==ₛ "pick"
      then (n, fire a execution_done, success)
      else (n, a, success)

  -- Only logs.
  unfoldable pub on_halted : ExecuteNode D → ExecuteNode D
  on_halted n = n
