-- ===== src/Robot/Agent/Callbacks.antt =====
-- The timer, subscription and service callbacks of robot_agent_node.cpp in src/fms_robot_agent.
use warehouse_fleet_manageme.Common.{
  ℕ, String, Bool, true, false, not, Option, none, some, [], ◌∷◌, ◌++◌, if◌then◌else◌,
}
use warehouse_fleet_manageme.Float.{Double}
use warehouse_fleet_manageme.Messages.{Pose, RobotStatus, TaskAssignment, to_stamp, default_pose}
use warehouse_fleet_manageme.Robot.Fsm.{state_id, state_name}
use warehouse_fleet_manageme.Robot.Battery.{update_battery, is_low}
use warehouse_fleet_manageme.Robot.Agent.{Agent, is_activated}

-- The response of the service.
pub record Response : Type 0 where
  pub success : Bool
  pub message : String

module _ {D : Type 0} where
  -- The task that was interrupted, of the one being executed and the one interrupted before.
  abbrev pub interrupt_tasks :
      Option (TaskAssignment D)
      → Option (TaskAssignment D)
      → Option (TaskAssignment D) × Option (TaskAssignment D)
  interrupt_tasks (some t) none = (none, some t)
  interrupt_tasks current interrupted = (current, interrupted)

  abbrev pub task_id_of : Option (TaskAssignment D) → String
  task_id_of none = ""
  task_id_of (some t) = t.task_id

  unfoldable pub task_assignment_cb : TaskAssignment D → Agent D → Agent D
  task_assignment_cb msg a = record a { pending_tasks = a.pending_tasks ++ (msg ∷ []) }

  -- The callback's own result is always `true`.
  unfoldable pub fault_service_cb : Bool → Agent D → Agent D × Response
  fault_service_cb true a =
      (record a { fault_injected = true }, record { success = true; message = "Fault injected" })
  fault_service_cb false a = (a, record { success = true; message = "No fault (data=false)" })

module _ {D : Type 0} ⦃d : Double D⦄ where
  -- `tick_tree` is one `tickRoot` of the tree; a thrown exception is logged.
  unfoldable pub bt_tick_cb : (Agent D → Agent D) → Agent D → Agent D
  bt_tick_cb tick_tree a =
      if not a.has_tree
      then a
      else tick_tree
          (record a { blackboard = record (a.blackboard) { battery_soc = a.battery.soc } })

  unfoldable pub battery_update_cb : ℕ → Agent D → Agent D
  battery_update_cb now a =
      let dt = d.seconds now a.last_battery_update in
      let b = update_battery a.battery dt a.is_moving a.is_charging in
      let (current, interrupted) =
        if is_low b
        then interrupt_tasks a.current_task a.interrupted_task
        else (a.current_task, a.interrupted_task) in
      record a {
        last_battery_update = now;
        battery = b;
        current_task = current;
        interrupted_task = interrupted;
      }

  -- `transform` is the pose that the transform buffer knows, if it knows one.
  unfoldable pub status_message : ℕ → Option (Pose D) → Agent D → RobotStatus D
  status_message now transform a = record {
    stamp = to_stamp now;
    robot_id = a.robot_name;
    state = state_id a.fsm;
    pose = elim transform [ none ↦ default_pose | some pose ↦ pose ];
    battery_soc = d.narrow a.battery.soc;
    current_task_id = task_id_of a.current_task;
    status_message = state_name a.fsm;
  }

  unfoldable pub status_publish_cb : ℕ → Option (Pose D) → Agent D → Agent D
  unfolding status_message
  status_publish_cb now transform a =
      if not (is_activated a.status_pub)
      then a
      else record a { statuses = status_message now transform a ∷ a.statuses }
