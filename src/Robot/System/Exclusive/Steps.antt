-- ===== src/Robot/System/Exclusive/Steps.antt =====
-- Every step of the robot against driving and charging: the leaves of src/fms_robot_agent, a lemma
-- each.
use warehouse_fleet_manageme.Common.{
  ℕ, ◌≡◌, ◌≢◌, sym, subst, Bool, true, false, Option, none, some, arith,
}
use warehouse_fleet_manageme.Float.{Double}
use warehouse_fleet_manageme.Robot.Fsm.{
  charging, reporting, task_received, low_battery, report_sent, nav_started, nav_failed,
  nav_succeeded, execution_done, battery_full, fault_injected, recovery_done, recovery_failed,
}
use warehouse_fleet_manageme.Robot.Fsm.Laws.{step-not_reporting, charging_entry_exit}
use warehouse_fleet_manageme.Robot.Agent.Callbacks.{
  task_assignment_cb, fault_service_cb, battery_update_cb, status_publish_cb,
}
use warehouse_fleet_manageme.Robot.Nodes.RequestTask
use warehouse_fleet_manageme.Robot.Nodes.Navigate.{
  NavNode, ResultCode, goal_response_callback, result_callback,
}
use warehouse_fleet_manageme.Robot.Nodes.Navigate
use warehouse_fleet_manageme.Robot.Nodes.Recovery
use warehouse_fleet_manageme.Robot.Nodes.Execute
use warehouse_fleet_manageme.Robot.Nodes.Report
use warehouse_fleet_manageme.Robot.Nodes.Charge
use warehouse_fleet_manageme.Robot.System.{
  Leaf, battery_ok, request, charge, report, nav, recovery, execute, System, Inputs, Outside,
  assignment, inject_fault, battery_timer, status_timer, goal_response, nav_result, spin_result,
  backup_result, nav_of, call, start_leaf, tick_leaf, halt_leaf, to_charger, to_leg, is_work,
  preempted, preempt, Run, after, Step, outside, start, tick, halt, Reach, here, next,
}

abbrev pub is_drive : Option Leaf → Bool
is_drive (some (nav v)) = true
is_drive _ = false

abbrev pub is_charge : Option Leaf → Bool
is_charge (some charge) = true
is_charge _ = false

abbrev pub is_held : NavNode → Bool
is_held none = false
is_held (some s) = true

is_held-goal_response :
    (goal : ℕ) (handle : Option ℕ) (n : NavNode)
    → is_held (goal_response_callback goal handle n) ≡ is_held n
unfolding goal_response_callback
is_held-goal_response goal handle n = ground arith

is_held-result :
    (goal : ℕ) (code : ResultCode) (n : NavNode) → is_held (result_callback goal code n) ≡ is_held n
unfolding result_callback
is_held-result goal code n = ground arith

module _ {D : Type 0} where
  -- A leaf that drives holds the state of its goal.
  abbrev pub holds_goal : Option Leaf → System D → Bool
  holds_goal (some (nav v)) s = is_held (nav_of v s)
  holds_goal _ s = true

module _ {D : Type 0} ⦃d : Double D⦄ where
  -- The motors run only under a leaf that drives, and the robot is docked only under ChargeBattery.
  pub record Inv (r : Run D) : Type 0 where
    pub docked : r.system.agent.is_charging ≡ true → is_charge r.active ≡ true
    pub charges : r.system.agent.is_charging ≡ true → r.system.agent.fsm ≡ charging
    pub moving : r.system.agent.is_moving ≡ true → is_drive r.active ≡ true
    pub driving : holds_goal r.active r.system ≡ true
    pub reports : r.system.agent.fsm ≢ reporting

  call-Inv : (e : Outside D) (r : Run D) → Inv r → Inv (record r { system = call e r.system })
  unfolding call task_assignment_cb fault_service_cb battery_update_cb status_publish_cb
  call-Inv (assignment msg) r v = ground arith
  call-Inv (inject_fault value) r v = ground arith
  call-Inv (battery_timer now) r v = ground arith
  call-Inv (status_timer now transform) r v = ground arith
  call-Inv (goal_response w goal handle) r v =
      ground (arith, is_held-goal_response goal handle (nav_of w r.system))
  call-Inv (nav_result w goal code) r v =
      ground (arith, is_held-result goal code (nav_of w r.system))
  call-Inv (spin_result l goal code) r v = ground arith
  call-Inv (backup_result l goal code) r v = ground arith

  start-Inv :
      (l : Leaf) (i : Inputs) (r : Run D)
      → r.active ≡ none
      → Inv r
      → Inv (after l (start_leaf l i r.system))
  unfolding start_leaf
  start-Inv battery_ok i r e v = ground arith
  start-Inv request i r e v =
      unfold RequestTask.on_start in
      ground (arith, step-not_reporting r.system.agent.fsm task_received)
  start-Inv charge i r e v =
      unfold Charge.on_start in
      ground (
        arith,
        step-not_reporting r.system.agent.fsm low_battery,
        charging_entry_exit.0 r.system.agent.fsm,
      )
  start-Inv report i r e v =
      unfold Report.tick in ground (arith, step-not_reporting r.system.agent.fsm report_sent)
  start-Inv (nav w) i r e v =
      unfold Navigate.on_start in ground (arith, step-not_reporting r.system.agent.fsm nav_started)
  start-Inv (recovery l) i r e v =
      unfold Recovery.on_start in ground (arith, step-not_reporting r.system.agent.fsm nav_failed)
  start-Inv (execute l) i r e v = unfold Execute.on_start in ground (arith)

  tick-Inv :
      (l : Leaf) (i : Inputs) (r : Run D)
      → r.active ≡ some l
      → Inv r
      → Inv (after l (tick_leaf l i r.system))
  unfolding tick_leaf
  tick-Inv battery_ok i r e v = ground arith
  tick-Inv report i r e v = ground arith
  tick-Inv request i r e v =
      unfold RequestTask.on_running in
      ground (arith, step-not_reporting r.system.agent.fsm task_received)
  tick-Inv charge i r e v =
      unfold Charge.on_running in ground (arith, step-not_reporting r.system.agent.fsm battery_full)
  tick-Inv (nav w) i r e v =
      unfold Navigate.on_running in
      ground (
        arith,
        step-not_reporting r.system.agent.fsm nav_failed,
        step-not_reporting r.system.agent.fsm nav_succeeded,
        step-not_reporting r.system.agent.fsm fault_injected,
      )
  tick-Inv (recovery l) i r e v =
      unfold Recovery.on_running in
      ground (
        arith,
        step-not_reporting r.system.agent.fsm recovery_done,
        step-not_reporting r.system.agent.fsm recovery_failed,
      )
  tick-Inv (execute l) i r e v =
      unfold Execute.on_running in
      ground (arith, step-not_reporting r.system.agent.fsm execution_done)

  halt-Inv :
      (l : Leaf) (r : Run D)
      → r.active ≡ some l
      → Inv r
      → Inv (record { system = halt_leaf l r.system; active = none })
  unfolding halt_leaf
  halt-Inv battery_ok r e v = ground arith
  halt-Inv report r e v = ground arith
  halt-Inv request r e v = unfold RequestTask.on_halted in ground arith
  halt-Inv charge r e v = unfold Charge.on_halted in ground arith
  halt-Inv (nav w) r e v = unfold Navigate.on_halted in ground arith
  halt-Inv (recovery l) r e v = ground arith
  halt-Inv (execute l) r e v = ground arith

  preempt-Inv :
      (l : Leaf) (i : Inputs) (r : Run D)
      → is_work l ≡ true
      → r.active ≡ some l
      → Inv r
      → Inv (preempted l (start_leaf (nav to_charger) i r.system))
  unfolding start_leaf Navigate.on_start halt_leaf Navigate.on_halted RequestTask.on_halted
  preempt-Inv battery_ok i r w e v = cc
  preempt-Inv charge i r w e v = cc
  preempt-Inv report i r w e v = cc
  preempt-Inv (nav to_charger) i r w e v = cc
  preempt-Inv request i r w e v = ground (arith, step-not_reporting r.system.agent.fsm nav_started)
  preempt-Inv (nav (to_leg l)) i r w e v =
      ground (arith, step-not_reporting r.system.agent.fsm nav_started)
  preempt-Inv (recovery l) i r w e v =
      ground (arith, step-not_reporting r.system.agent.fsm nav_started)
  preempt-Inv (execute l) i r w e v =
      ground (arith, step-not_reporting r.system.agent.fsm nav_started)

  Step-Inv : {r r' : Run D} → Step r r' → Inv r → Inv r'
  Step-Inv {r} (outside e p) v = subst Inv (sym p) (call-Inv e r v)
  Step-Inv {r} (start l i q p) v = subst Inv (sym p) (start-Inv l i r q v)
  Step-Inv {r} (tick l i q p) v = subst Inv (sym p) (tick-Inv l i r q v)
  Step-Inv {r} (halt l q p) v = subst Inv (sym p) (halt-Inv l r q v)
  Step-Inv {r} (preempt l i w q p) v = subst Inv (sym p) (preempt-Inv l i r w q v)

  pub Reach-Inv : {r r' : Run D} → Inv r → Reach r r' → Inv r'
  Reach-Inv v here = v
  Reach-Inv v (next h st) = Step-Inv st (Reach-Inv v h)
