-- ===== src/Robot/System/Exclusive.antt =====
-- A robot never drives and charges at once: the leaves of src/fms_robot_agent against the
-- assumption of battery_model.hpp.
pub mod Steps
use warehouse_fleet_manageme.Common.{
  ℕ, ◌≡◌, ◌≢◌, refl, sym, subst, Bool, true, false, Option, none, some, arith,
}
use warehouse_fleet_manageme.Float.{Double}
use warehouse_fleet_manageme.Messages.{PoseStamped}
use warehouse_fleet_manageme.Robot.Fsm.{
  idle, charging, reporting, task_received, low_battery, report_sent, nav_started, nav_failed,
  nav_succeeded, execution_done, battery_full, fault_injected, recovery_done, recovery_failed,
}
use warehouse_fleet_manageme.Robot.Fsm.Laws.{step-not_reporting, charging_entry_exit}
use warehouse_fleet_manageme.Robot.Agent.Callbacks.{
  task_assignment_cb, fault_service_cb, battery_update_cb, status_publish_cb,
}
use warehouse_fleet_manageme.Robot.Nodes.RequestTask
use warehouse_fleet_manageme.Robot.Nodes.Navigate.{
  NavNode, ResultCode, goal_response_callback, result_callback,
}
use warehouse_fleet_manageme.Robot.Nodes.Navigate
use warehouse_fleet_manageme.Robot.Nodes.Recovery
use warehouse_fleet_manageme.Robot.Nodes.Execute
use warehouse_fleet_manageme.Robot.Nodes.Report
use warehouse_fleet_manageme.Robot.Nodes.Charge
use warehouse_fleet_manageme.Robot.System.{
  Drive, Leaf, battery_ok, request, charge, report, nav, recovery, execute, System, Inputs, Outside,
  assignment, inject_fault, battery_timer, status_timer, goal_response, nav_result, spin_result,
  backup_result, nav_of, call, start_leaf, tick_leaf, halt_leaf, goal_port, Leg, to_charger, to_leg,
  is_work, preempted, preempt, Run, after, Step, outside, start, tick, halt, Reach, here, next,
}
use warehouse_fleet_manageme.Robot.System.Exclusive.Steps.{Inv, Reach-Inv}

module _ {D : Type 0} ⦃d : Double D⦄ where
  -- The robot as it is built: idle, still, undocked, and with no leaf running.
  pub record IsFresh (r : Run D) : Type 0 where
    pub is_idle : r.system.agent.fsm ≡ idle
    pub is_still : r.system.agent.is_moving ≡ false
    pub is_undocked : r.system.agent.is_charging ≡ false
    pub is_inactive : r.active ≡ none

  IsFresh-Inv : {r : Run D} → IsFresh r → Inv r
  IsFresh-Inv {r} f = record {
    docked = ground arith;
    charges = ground arith;
    moving = ground arith;
    driving = ground arith;
    reports = ground arith;
  }

  -- After any steps of a fresh robot, a robot that charges does not drive, its machine is in
  -- CHARGING, and the leaf that runs is ChargeBattery.
  pub charging_exclusive :
      {r r' : Run D}
      → IsFresh r
      → Reach r r'
      → r'.system.agent.is_charging ≡ true
      → (r'.system.agent.is_moving ≡ false)
        × (r'.system.agent.fsm ≡ charging)
        × (r'.active ≡ some charge)
  charging_exclusive f h c = ground (arith, Reach-Inv (IsFresh-Inv f) h)

  -- After any steps of a fresh robot, the robot drives only while one of the three leaves runs that
  -- drive, and this leaf holds the state of its goal.
  pub moving_needs_leaf :
      {r r' : Run D}
      → IsFresh r
      → Reach r r'
      → r'.system.agent.is_moving ≡ true
      → (v : Drive) × (r'.active ≡ some (nav v)) × (nav_of v r'.system ≢ none)
  moving_needs_leaf {r' = r'} f h m = running_drive r'.active refl
    where
      inv : Inv r'
      inv = Reach-Inv (IsFresh-Inv f) h

      running_drive :
          (o : Option Leaf)
          → r'.active ≡ o
          → (v : Drive) × (r'.active ≡ some (nav v)) × (nav_of v r'.system ≢ none)
      running_drive (some (nav v)) e = (v, e, ground (arith, inv))
      running_drive o e = absurd (ground (arith, inv))
