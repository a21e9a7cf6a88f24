-- ===== src/Robot/System/Reports.antt =====
-- What a robot publishes: the messages of the leaves and timers in src/fms_robot_agent.
use warehouse_fleet_manageme.Common.{◌≤◌, ◌≡◌, ◌≢◌, All, arith}
use warehouse_fleet_manageme.Float.{Double}
use warehouse_fleet_manageme.Messages.{RobotStatus, TaskCompletion, result_success}
use warehouse_fleet_manageme.Robot.Fsm.{
  RobotState, reporting, state_id, task_received, low_battery, report_sent, nav_started, nav_failed,
  nav_succeeded, execution_done, battery_full, fault_injected, recovery_done, recovery_failed,
}
use warehouse_fleet_manageme.Robot.Fsm.Laws.{step-not_reporting}
use warehouse_fleet_manageme.Robot.Agent.{Agent}
use warehouse_fleet_manageme.Robot.Agent.Callbacks.{
  task_assignment_cb, fault_service_cb, battery_update_cb, status_publish_cb,
}
use warehouse_fleet_manageme.Robot.Nodes.RequestTask
use warehouse_fleet_manageme.Robot.Nodes.Navigate
use warehouse_fleet_manageme.Robot.Nodes.Recovery
use warehouse_fleet_manageme.Robot.Nodes.Execute
use warehouse_fleet_manageme.Robot.Nodes.Report
use warehouse_fleet_manageme.Robot.Nodes.Charge
use warehouse_fleet_manageme.Robot.System.{
  Leaf, battery_ok, request, charge, report, nav, recovery, execute, Inputs, System, Outside,
  assignment, inject_fault, battery_timer, status_timer, goal_response, nav_result, spin_result,
  backup_result, call, start_leaf, tick_leaf, halt_leaf, Run, Reach,
}
use warehouse_fleet_manageme.Robot.System.Invariant.{IsInvariant, reach_kept}

module _ {D : Type 0} where
  -- A status names one of the states that the machine can be in, and these exclude REPORTING.
  abbrev pub IsSound : RobotStatus D → Type 0
  IsSound m = (m.state ≤ 6) × (m.state ≢ 4)

  abbrev pub IsSuccess : TaskCompletion D → Type 0
  IsSuccess m = m.result ≡ result_success

  pub record IsHonest (a : Agent D) : Type 0 where
    pub fsm_ne : a.fsm ≢ reporting
    pub statuses_sound : All IsSound a.statuses
    pub completions_success : All IsSuccess a.completions

state_id_sound : (s : RobotState) → s ≢ reporting → (state_id s ≤ 6) × (state_id s ≢ 4)
unfolding state_id
state_id_sound s h = ground arith

module _ {D : Type 0} ⦃d : Double D⦄ where
  call-IsHonest : (e : Outside D) (s : System D) → IsHonest s.agent → IsHonest (call e s).agent
  unfolding call task_assignment_cb fault_service_cb battery_update_cb status_publish_cb
  call-IsHonest (assignment msg) s v = ground arith
  call-IsHonest (inject_fault value) s v = ground arith
  call-IsHonest (battery_timer now) s v = ground arith
  call-IsHonest (status_timer now transform) s v =
      ground (arith, state_id_sound s.agent.fsm v.fsm_ne)
  call-IsHonest (goal_response w goal handle) s v = ground arith
  call-IsHonest (nav_result w goal code) s v = ground arith
  call-IsHonest (spin_result l goal code) s v = ground arith
  call-IsHonest (backup_result l goal code) s v = ground arith

  start-IsHonest :
      (l : Leaf) (i : Inputs) (s : System D)
      → IsHonest s.agent
      → IsHonest (start_leaf l i s).0.agent
  unfolding start_leaf
  start-IsHonest battery_ok i s v = v
  start-IsHonest request i s v =
      unfold RequestTask.on_start in ground (arith, step-not_reporting s.agent.fsm task_received)
  start-IsHonest charge i s v =
      unfold Charge.on_start in ground (arith, step-not_reporting s.agent.fsm low_battery)
  start-IsHonest report i s v =
      unfold Report.tick in ground (arith, step-not_reporting s.agent.fsm report_sent)
  start-IsHonest (nav w) i s v =
      unfold Navigate.on_start in ground (arith, step-not_reporting s.agent.fsm nav_started)
  start-IsHonest (recovery l) i s v =
      unfold Recovery.on_start in ground (arith, step-not_reporting s.agent.fsm nav_failed)
  start-IsHonest (execute l) i s v = unfold Execute.on_start in ground arith

  tick-IsHonest :
      (l : Leaf) (i : Inputs) (s : System D) → IsHonest s.agent → IsHonest (tick_leaf l i s).0.agent
  unfolding tick_leaf
  tick-IsHonest battery_ok i s v = v
  tick-IsHonest report i s v = v
  tick-IsHonest request i s v =
      unfold RequestTask.on_running in ground (arith, step-not_reporting s.agent.fsm task_received)
  tick-IsHonest charge i s v =
      unfold Charge.on_running in ground (arith, step-not_reporting s.agent.fsm battery_full)
  tick-IsHonest (nav w) i s v =
      unfold Navigate.on_running in
      ground (
        arith,
        step-not_reporting s.agent.fsm nav_failed,
        step-not_reporting s.agent.fsm nav_succeeded,
        step-not_reporting s.agent.fsm fault_injected,
      )
  tick-IsHonest (recovery l) i s v =
      unfold Recovery.on_running in
      ground (
        arith,
        step-not_reporting s.agent.fsm recovery_done,
        step-not_reporting s.agent.fsm recovery_failed,
      )
  tick-IsHonest (execute l) i s v =
      unfold Execute.on_running in ground (arith, step-not_reporting s.agent.fsm execution_done)

  halt-IsHonest : (l : Leaf) (s : System D) → IsHonest s.agent → IsHonest (halt_leaf l s).agent
  unfolding halt_leaf
  halt-IsHonest battery_ok s v = v
  halt-IsHonest report s v = v
  halt-IsHonest request s v = unfold RequestTask.on_halted in ground arith
  halt-IsHonest charge s v = unfold Charge.on_halted in ground arith
  halt-IsHonest (nav w) s v = unfold Navigate.on_halted in ground arith
  halt-IsHonest (recovery l) s v = ground arith
  halt-IsHonest (execute l) s v = ground arith

  IsHonest-IsInvariant : IsInvariant {D = D} IsHonest
  IsHonest-IsInvariant = record {
    on_call = call-IsHonest;
    on_start = start-IsHonest;
    on_tick = tick-IsHonest;
    on_halt = halt-IsHonest;
  }

  -- A robot that has published nothing wrong so far, and is not in REPORTING, publishes only
  -- statuses with the number of a state other than REPORTING, and reports only success, whatever
  -- steps follow.
  pub Reach-IsHonest :
      {r r' : Run D} → IsHonest r.system.agent → Reach r r' → IsHonest r'.system.agent
  Reach-IsHonest v h = reach_kept (IsHonest {D = D}) IsHonest-IsInvariant v h
