-- ===== src/Robot/Agent.antt =====
-- The node of one robot: robot_agent_node.hpp and robot_agent_node.cpp of src/fms_robot_agent.
-- Time is in nanoseconds, and what a call reads from the clock is its argument. What the node
-- publishes and what it asks of the action servers is kept in lists, newest first.
pub mod Lifecycle
pub mod Callbacks
use warehouse_fleet_manageme.Common.{ℕ, suc, ℤ, String, Bool, true, false, Option, List, ◌∷◌}
use warehouse_fleet_manageme.Messages.{PoseStamped, RobotStatus, TaskAssignment, TaskCompletion}
use warehouse_fleet_manageme.Robot.Fsm.{RobotState, FsmEvent, process}
use warehouse_fleet_manageme.Robot.Battery.{BatteryModel}

-- A lifecycle publisher: before `on_configure`, deactivated, activated.
pub data Publisher : Type 0 where
  absent inactive active : Publisher

abbrev pub is_activated : Publisher → Bool
is_activated active = true
is_activated _ = false

-- What is asked of the Nav2 action servers: a goal under a fresh number, a goal to cancel.
pub data Request (D : Type 0) : Type 0 where
  navigate : ℕ → PoseStamped D → Request D
  cancel : ℕ → Request D
  spin : ℕ → Request D
  back_up : ℕ → Request D

pub record Blackboard (D : Type 0) : Type 0 where
  pub robot_name : String
  pub charger_pose : Option (PoseStamped D)
  pub battery_soc : D
  pub pick_duration : D
  pub drop_duration : D
  pub pick_pose : Option (PoseStamped D)
  pub drop_pose : Option (PoseStamped D)

pub record Agent (D : Type 0) : Type 0 where
  pub robot_name : String
  pub fsm : RobotState
  pub pending_tasks : List (TaskAssignment D)
  pub current_task : Option (TaskAssignment D)
  pub interrupted_task : Option (TaskAssignment D)
  pub battery : BatteryModel D
  pub is_moving : Bool
  pub is_charging : Bool
  -- The callback groups, the action clients, the subscription and the service of faults exist, and
  -- the buffer of the transforms with its listener.
  pub has_callback_groups : Bool
  pub has_clients : Bool
  pub has_task_sub : Bool
  pub has_fault_srv : Bool
  pub has_tf : Bool
  pub completion_pub : Publisher
  pub status_pub : Publisher
  pub pick_duration_secs : D
  pub drop_duration_secs : D
  pub recovery_max_attempts : ℤ
  pub task_start_time : ℕ
  pub fault_injected : Bool
  pub charger_pose : PoseStamped D
  -- The three timers are set, and the tree is loaded.
  pub has_timers : Bool
  pub has_tree : Bool
  pub blackboard : Blackboard D
  pub last_battery_update : ℕ
  pub completions : List (TaskCompletion D)
  pub statuses : List (RobotStatus D)
  pub requests : List (Request D)
  pub next_goal : ℕ

module _ {D : Type 0} where
  -- `fsm_.process(event)` under the lock.
  abbrev pub fire : Agent D → FsmEvent → Agent D
  fire a e = record a { fsm = (process a.fsm e).0 }

  -- A goal is sent under a number that no goal had before.
  abbrev pub send : Agent D → Request D → Agent D
  send a r = record a { requests = r ∷ a.requests; next_goal = suc a.next_goal }
