-- ===== src/Robot/System/Quiet.antt =====
-- A robot whose publishers are not active: the leaves, timers and messages of src/fms_robot_agent.
use warehouse_fleet_manageme.Common.{◌≡◌, List, false, arith}
use warehouse_fleet_manageme.Float.{Double}
use warehouse_fleet_manageme.Messages.{RobotStatus, TaskCompletion}
use warehouse_fleet_manageme.Robot.Agent.{Agent, is_activated}
use warehouse_fleet_manageme.Robot.Agent.Callbacks.{
  task_assignment_cb, fault_service_cb, battery_update_cb, status_publish_cb,
}
use warehouse_fleet_manageme.Robot.Nodes.RequestTask
use warehouse_fleet_manageme.Robot.Nodes.Navigate
use warehouse_fleet_manageme.Robot.Nodes.Recovery
use warehouse_fleet_manageme.Robot.Nodes.Execute
use warehouse_fleet_manageme.Robot.Nodes.Report
use warehouse_fleet_manageme.Robot.Nodes.Charge
use warehouse_fleet_manageme.Robot.System.{
  Leaf, battery_ok, request, charge, report, nav, recovery, execute, Inputs, System, Outside,
  assignment, inject_fault, battery_timer, status_timer, goal_response, nav_result, spin_result,
  backup_result, call, start_leaf, tick_leaf, halt_leaf, Run, Reach,
}
use warehouse_fleet_manageme.Robot.System.Invariant.{IsInvariant, reach_kept}

module _ {D : Type 0} where
  -- The publishers are not active, and no more was published than these.
  pub record IsQuiet (statuses : List (RobotStatus D)) (completions : List (TaskCompletion D))
      (a : Agent D) : Type 0 where
    pub status_pub : is_activated a.status_pub ≡ false
    pub completion_pub : is_activated a.completion_pub ≡ false
    pub same_statuses : a.statuses ≡ statuses
    pub same_completions : a.completions ≡ completions

module _ {D : Type 0} ⦃d : Double D⦄ (ss : List (RobotStatus D))
    (cs : List (TaskCompletion D)) where
  call-IsQuiet :
      (e : Outside D) (s : System D) → IsQuiet ss cs s.agent → IsQuiet ss cs (call e s).agent
  unfolding call task_assignment_cb fault_service_cb battery_update_cb status_publish_cb
  call-IsQuiet (assignment msg) s v = ground arith
  call-IsQuiet (inject_fault value) s v = ground arith
  call-IsQuiet (battery_timer now) s v = ground arith
  call-IsQuiet (status_timer now transform) s v = ground arith
  call-IsQuiet (goal_response w goal handle) s v = ground arith
  call-IsQuiet (nav_result w goal code) s v = ground arith
  call-IsQuiet (spin_result l goal code) s v = ground arith
  call-IsQuiet (backup_result l goal code) s v = ground arith

  start-IsQuiet :
      (l : Leaf) (i : Inputs) (s : System D)
      → IsQuiet ss cs s.agent
      → IsQuiet ss cs (start_leaf l i s).0.agent
  unfolding start_leaf
  start-IsQuiet battery_ok i s v = v
  start-IsQuiet request i s v = unfold RequestTask.on_start in ground arith
  start-IsQuiet charge i s v = unfold Charge.on_start in ground arith
  start-IsQuiet report i s v = unfold Report.tick in ground arith
  start-IsQuiet (nav w) i s v = unfold Navigate.on_start in ground arith
  start-IsQuiet (recovery l) i s v = unfold Recovery.on_start in ground arith
  start-IsQuiet (execute l) i s v = unfold Execute.on_start in ground arith

  tick-IsQuiet :
      (l : Leaf) (i : Inputs) (s : System D)
      → IsQuiet ss cs s.agent
      → IsQuiet ss cs (tick_leaf l i s).0.agent
  unfolding tick_leaf
  tick-IsQuiet battery_ok i s v = v
  tick-IsQuiet report i s v = v
  tick-IsQuiet request i s v = unfold RequestTask.on_running in ground arith
  tick-IsQuiet charge i s v = unfold Charge.on_running in ground arith
  tick-IsQuiet (nav w) i s v = unfold Navigate.on_running in ground arith
  tick-IsQuiet (recovery l) i s v = unfold Recovery.on_running in ground arith
  tick-IsQuiet (execute l) i s v = unfold Execute.on_running in ground arith

  halt-IsQuiet :
      (l : Leaf) (s : System D) → IsQuiet ss cs s.agent → IsQuiet ss cs (halt_leaf l s).agent
  unfolding halt_leaf
  halt-IsQuiet battery_ok s v = v
  halt-IsQuiet report s v = v
  halt-IsQuiet request s v = unfold RequestTask.on_halted in ground arith
  halt-IsQuiet charge s v = unfold Charge.on_halted in ground arith
  halt-IsQuiet (nav w) s v = unfold Navigate.on_halted in ground arith
  halt-IsQuiet (recovery l) s v = ground arith
  halt-IsQuiet (execute l) s v = ground arith

  IsQuiet-IsInvariant : IsInvariant (IsQuiet ss cs)
  IsQuiet-IsInvariant = record {
    on_call = call-IsQuiet;
    on_start = start-IsQuiet;
    on_tick = tick-IsQuiet;
    on_halt = halt-IsQuiet;
  }

  pub Reach-IsQuiet :
      {r r' : Run D} → IsQuiet ss cs r.system.agent → Reach r r' → IsQuiet ss cs r'.system.agent
  Reach-IsQuiet v h = reach_kept (IsQuiet ss cs) IsQuiet-IsInvariant v h
