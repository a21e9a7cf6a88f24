-- ===== src/Robot/Nodes/Report.antt =====
-- The leaf that reports a finished task: report_status.cpp of src/fms_robot_agent.
use warehouse_fleet_manageme.Common.{ℕ, String, Option, none, some, ◌∷◌, if◌then◌else◌}
use warehouse_fleet_manageme.Float.{Double}
use warehouse_fleet_manageme.Messages.{
  TaskAssignment, TaskCompletion, default_completion, to_stamp, result_success,
}
use warehouse_fleet_manageme.Robot.Fsm.{report_sent}
use warehouse_fleet_manageme.Robot.Agent.{Agent, is_activated, fire}
use warehouse_fleet_manageme.Robot.Nodes.Status.{NodeStatus, success}

module _ {D : Type 0} ⦃d : Double D⦄ where
  -- The ids stay empty without a current task.
  abbrev pub about : String → Option (TaskAssignment D) → TaskCompletion D → TaskCompletion D
  about robot_name none msg = msg
  about robot_name (some t) msg = record msg { task_id = t.task_id; robot_id = robot_name }

  unfoldable pub completion : ℕ → ℕ → Agent D → TaskCompletion D
  completion stamped ended a =
      record (about a.robot_name a.current_task
        (record (default_completion {D = D}) { stamp = to_stamp stamped })) {
          result = result_success;
          duration_secs = d.narrow (d.seconds ended a.task_start_time);
        }

  -- `stamped` and `ended` are the two readings of the clock.
  unfoldable pub tick : ℕ → ℕ → Agent D → Agent D × NodeStatus
  unfolding completion
  tick stamped ended a =
      let msg = completion stamped ended a in
      let cleared = record a { current_task = none } in
      let reported =
        if is_activated a.completion_pub
        then record cleared { completions = msg ∷ a.completions }
        else cleared in
      (fire reported report_sent, success)
