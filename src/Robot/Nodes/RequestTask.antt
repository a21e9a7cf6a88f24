-- ===== src/Robot/Nodes/RequestTask.antt =====
-- The leaf that waits for a task: request_task.cpp of src/fms_robot_agent.
use warehouse_fleet_manageme.Common.{ℕ, Option, none, some, [], ◌∷◌}
use warehouse_fleet_manageme.Messages.{Pose, PoseStamped, TaskAssignment, to_stamp}
use warehouse_fleet_manageme.Robot.Fsm.{task_received}
use warehouse_fleet_manageme.Robot.Agent.{Agent, fire}
use warehouse_fleet_manageme.Robot.Nodes.Status.{NodeStatus, running, success}

-- The readings of the clock, in the order in which they are taken.
pub record Clock : Type 0 where
  pub start : ℕ
  pub pick : ℕ
  pub drop : ℕ

module _ {D : Type 0} where
  -- The task to start, if there is one, and the node without it: an interrupted task comes first.
  unfoldable pub take_task : Agent D → Option (TaskAssignment D) × Agent D
  take_task a = elim a.interrupted_task [
    | some t ↦ (some t, record a { interrupted_task = none })
    | none ↦ elim a.pending_tasks [
      | [] ↦ (none, a)
      | t ∷ rest ↦ (some t, record a { pending_tasks = rest })
    ]
  ]

  abbrev pub in_map : ℕ → Pose D → PoseStamped D
  in_map now pose = record { stamp = to_stamp now; frame_id = "map"; pose = pose }

  unfoldable pub accept_task : Clock → TaskAssignment D → Agent D → Agent D
  accept_task c t a =
      let board = record (a.blackboard) {
        pick_pose = some (in_map c.pick t.pick_pose);
        drop_pose = some (in_map c.drop t.drop_pose);
      } in
      fire (record a { current_task = some t; task_start_time = c.start; blackboard = board })
        task_received

  unfoldable pub on_running : Clock → Agent D → Agent D × NodeStatus
  unfolding take_task accept_task
  on_running c a =
      let (task, rest) = take_task a in
      elim task [ none ↦ (rest, running) | some t ↦ (accept_task c t rest, success) ]

  unfoldable pub on_start : Clock → Agent D → Agent D × NodeStatus
  unfolding on_running
  on_start c a = on_running c a

  -- Only logs.
  unfoldable pub on_halted : Agent D → Agent D
  on_halted a = a
