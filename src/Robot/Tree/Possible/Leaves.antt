-- ===== src/Robot/Tree/Possible/Leaves.antt =====
-- The leaves of a task, each from its start to its success: the leaves of src/fms_robot_agent.
use warehouse_fleet_manageme.Common.{
  ℕ, ◌≡◌, refl, true, false, Option, none, some, List, ◌∷◌, arith,
}
use warehouse_fleet_manageme.Float.{Double}
use warehouse_fleet_manageme.Messages.{PoseStamped, TaskAssignment}
use warehouse_fleet_manageme.Robot.Agent.{Blackboard}
use warehouse_fleet_manageme.Robot.Nodes.Status.{running, success}
use warehouse_fleet_manageme.Robot.Nodes.RequestTask
use warehouse_fleet_manageme.Robot.Nodes.RequestTask.{in_map}
use warehouse_fleet_manageme.Robot.Nodes.Navigate.{
  NavState, NavNode, new_state, succeeded, goal_response_callback, result_callback,
}
use warehouse_fleet_manageme.Robot.Nodes.Navigate
use warehouse_fleet_manageme.Robot.Nodes.Execute
use warehouse_fleet_manageme.Robot.Nodes.Report
use warehouse_fleet_manageme.Robot.System.{
  Leg, pick, drop, to_leg, request, report, nav, execute, Inputs, System, goal_response, nav_result,
  nav_of, execute_of, call, start_leaf, tick_leaf,
}
use warehouse_fleet_manageme.Robot.Tree.Served.{queue}

module _ {D : Type 0} where
  -- No fault is injected, the ports have these values, and no task is interrupted.
  pub record IsCalm (b : Blackboard D) (s : System D) : Type 0 where
    pub no_fault : s.agent.fault_injected ≡ false
    pub board : s.agent.blackboard ≡ b
    pub no_interrupted : s.agent.interrupted_task ≡ none

  abbrev pub pose_of : Leg → Blackboard D → Option (PoseStamped D)
  pose_of pick b = b.pick_pose
  pose_of drop b = b.drop_pose

  abbrev pub duration_in : Leg → Blackboard D → D
  duration_in pick b = b.pick_duration
  duration_in drop b = b.drop_duration

-- The state of a goal that was reached.
abbrev pub reached : ℕ → NavState
reached handle = record {
  response_received = true;
  goal_accepted = true;
  result_received = true;
  result_code = succeeded;
  goal_handle = some handle;
}

module _ {D : Type 0} ⦃d : Double D⦄ where
  pub nav_begins :
      (l : Leg) (i : Inputs) (b : Blackboard D) (s : System D) (pose : PoseStamped D)
      → IsCalm b s
      → pose_of l b ≡ some pose
      → i.nav_ready ≡ true
      → let x = start_leaf (nav (to_leg l)) i s in
        (x.1 ≡ running)
        × (nav_of (to_leg l) x.0 ≡ some (record { goal = s.agent.next_goal; state = new_state }))
        × IsCalm b x.0
  unfolding start_leaf Navigate.on_start
  nav_begins pick i b s pose c p e = ground arith
  nav_begins drop i b s pose c p e = ground arith

  pub nav_answered :
      (l : Leg) (g : ℕ) (b : Blackboard D) (s : System D)
      → IsCalm b s
      → nav_of (to_leg l) s ≡ some (record { goal = g; state = new_state })
      → let s' =
          call (nav_result (to_leg l) g succeeded) (call (goal_response (to_leg l) g (some g)) s) in
        (nav_of (to_leg l) s' ≡ some (record { goal = g; state = reached g })) × IsCalm b s'
  unfolding call goal_response_callback result_callback
  nav_answered pick g b s c e = ground arith
  nav_answered drop g b s c e = ground arith

  pub nav_arrives :
      (l : Leg) (i : Inputs) (g : ℕ) (b : Blackboard D) (s : System D)
      → IsCalm b s
      → nav_of (to_leg l) s ≡ some (record { goal = g; state = reached g })
      → let x = tick_leaf (nav (to_leg l)) i s in (x.1 ≡ success) × IsCalm b x.0
  unfolding tick_leaf Navigate.on_running Navigate.observe Navigate.conclude
  nav_arrives pick i g b s c e = ground arith
  nav_arrives drop i g b s c e = ground arith

  pub execute_begins :
      (l : Leg) (i : Inputs) (b : Blackboard D) (s : System D)
      → IsCalm b s
      → let x = start_leaf (execute l) i s in
        (x.1 ≡ running)
        × ((execute_of l x.0).start_time ≡ i.now)
        × ((execute_of l x.0).duration_secs ≡ duration_in l b)
        × IsCalm b x.0
  unfolding start_leaf Execute.on_start
  execute_begins pick i b s c = ground arith
  execute_begins drop i b s c = ground arith

  pub execute_ends :
      (l : Leg) (i : Inputs) (now : ℕ) (b : Blackboard D) (s : System D)
      → IsCalm b s
      → (execute_of l s).start_time ≡ now
      → (execute_of l s).duration_secs ≡ duration_in l b
      → d.lt (d.seconds i.now now) (duration_in l b) ≡ false
      → let x = tick_leaf (execute l) i s in (x.1 ≡ success) × IsCalm b x.0
  unfolding tick_leaf Execute.on_running
  execute_ends pick i now b s c e f g = ground arith
  execute_ends drop i now b s c e f g = ground arith

  -- RequestTask takes a task that waits, and sets both poses.
  pub request_ends :
      (i : Inputs) (s : System D) (t : TaskAssignment D) (rest : List (TaskAssignment D))
      → s.agent.fault_injected ≡ false
      → queue s.agent.interrupted_task s.agent.pending_tasks ≡ t ∷ rest
      → let x = start_leaf request i s in
        (x.1 ≡ success)
        × ((b : Blackboard D) × (p : PoseStamped D) × (q : PoseStamped D) × IsCalm b x.0
            × (b.pick_pose ≡ some p)
            × (b.drop_pose ≡ some q)
            × (b.pick_duration ≡ s.agent.blackboard.pick_duration)
            × (b.drop_duration ≡ s.agent.blackboard.drop_duration))
  unfolding start_leaf RequestTask.on_start RequestTask.on_running RequestTask.take_task
      RequestTask.accept_task
  request_ends i s t rest e q = (
    ground arith,
    (
      (start_leaf request i s).0.agent.blackboard,
      in_map i.clock.pick t.pick_pose,
      in_map i.clock.drop t.drop_pose,
      record { no_fault = ground arith; board = refl; no_interrupted = ground arith },
      ground arith,
      ground arith,
      ground arith,
      ground arith,
    ),
  )

  pub report_ends :
      (i : Inputs) (b : Blackboard D) (s : System D)
      → IsCalm b s
      → let x = start_leaf report i s in (x.1 ≡ success) × IsCalm b x.0
  unfolding start_leaf Report.tick
  report_ends i b s c = ground arith
