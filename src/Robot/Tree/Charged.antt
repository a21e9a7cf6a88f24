-- ===== src/Robot/Tree/Charged.antt =====
-- A robot that has charged: the branch ChargeWhenLow of bt_xml/robot_agent.xml, with battery_ok.cpp
-- and charge_battery.cpp, in src/fms_robot_agent.
use warehouse_fleet_manageme.Common.{◌≡◌, ◌≢◌, subst, true, none, [], ◌∷◌, arith}
use warehouse_fleet_manageme.Float.{Double}
use warehouse_fleet_manageme.Robot.Fsm.{RobotState, idle, reporting, process, run}
use warehouse_fleet_manageme.Robot.Nodes.Status.{NodeStatus, success, failure}
use warehouse_fleet_manageme.Robot.System.{battery_ok, charge, nav, to_charger, Run, Reach}
use warehouse_fleet_manageme.Robot.Tree.{Tree, charge_when_low, History, IsEngine}
use warehouse_fleet_manageme.Robot.Tree.Course.{charge_course}
use warehouse_fleet_manageme.Robot.Tree.Played.{history, is_unhalted}
use warehouse_fleet_manageme.Robot.Tree.States.{Leads, Reach-Leads}

charge-Leads :
    (s t : RobotState)
    → s ≢ reporting
    → Leads ((battery_ok, failure) ∷ (nav to_charger, success) ∷ (charge, success) ∷ []) s t
    → t ≡ idle
unfolding run process
charge-Leads s t n e = ground arith

module _ {D : Type 0} ⦃d : Double D⦄ (Ends : Tree → History → NodeStatus → Type 0)
    (engine : IsEngine Ends) where
  -- Under an engine that meets its laws, a robot that is not in REPORTING, whose ChargeWhenLow
  -- succeeds without a leaf halted, is IDLE after it runs no leaf.
  pub charge_state :
      {r r' : Run D} (h : Reach r r')
      → r.active ≡ none
      → r.system.agent.fsm ≢ reporting
      → is_unhalted h ≡ true
      → r'.active ≡ none
      → Ends charge_when_low (history h) success
      → r'.system.agent.fsm ≡ idle
  charge_state {r} {r'} h e n u e' w = charge-Leads r.system.agent.fsm r'.system.agent.fsm n (
      subst (λ y. Leads y r.system.agent.fsm r'.system.agent.fsm)
        (charge_course Ends engine (history h) w) (Reach-Leads h e u e'))
