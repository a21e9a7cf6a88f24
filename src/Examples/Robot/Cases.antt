-- ===== src/Examples/Robot/Cases.antt =====
-- The theorems on the robot at the robot of the parent: src/fms_robot_agent.
use warehouse_fleet_manageme.Common.{◌≡◌, ◌≢◌, refl, false, none, some, [], ◌∷◌, ◌++◌, arith}
use warehouse_fleet_manageme.Float.Fixed.{fixed_double, Fixed-IsIeee}
use warehouse_fleet_manageme.Robot.Fsm.{charging, nav_succeeded}
use warehouse_fleet_manageme.Robot.Battery.Bounds.{IsPercentage}
use warehouse_fleet_manageme.Robot.Agent.{fire}
use warehouse_fleet_manageme.Robot.Nodes.Status.{success}
use warehouse_fleet_manageme.Robot.Nodes.Navigate.{NavState, NavNode, succeeded, aborted, new_state}
use warehouse_fleet_manageme.Robot.Nodes.Navigate
use warehouse_fleet_manageme.Robot.Nodes.RequestTask
use warehouse_fleet_manageme.Robot.Nodes.RequestTask.{take_task, accept_task}
use warehouse_fleet_manageme.Robot.Agent.Callbacks.{task_assignment_cb}
use warehouse_fleet_manageme.Robot.Nodes.Navigate.Goals.{response, result, drive_outcome}
use warehouse_fleet_manageme.Robot.Nodes.Recovery.{RecoveryNode, spinning, Servers}
use warehouse_fleet_manageme.Robot.Nodes.Recovery
use warehouse_fleet_manageme.Robot.Nodes.Recovery.Attempts.{settle, IsSettled, recovery_ends}
use warehouse_fleet_manageme.Robot.Nodes.Charge
use warehouse_fleet_manageme.Robot.System.{Drive, charge, nav, call, start_leaf, nav_of}
use warehouse_fleet_manageme.Robot.System.Exclusive.{charging_exclusive, moving_needs_leaf}
use warehouse_fleet_manageme.Robot.System.Reports.{IsHonest, Reach-IsHonest}
use warehouse_fleet_manageme.Robot.System.Ledger.{held, arrivals, departures, held_fifo}
use warehouse_fleet_manageme.Robot.System.Power.{charge_bounded}
use warehouse_fleet_manageme.Examples.Robot.{
  half_full-IsPercentage, dock, agent, idle_recovery, ready, new_run, driving, docked,
  new_run-IsFresh, to_driving, to_docked, new_run-IsHonest, rounds, heard,
}

charging_exclusive_example :
    (docked.system.agent.is_moving ≡ false)
    × (docked.system.agent.fsm ≡ charging)
    × (docked.active ≡ some charge)
unfolding start_leaf Charge.on_start
charging_exclusive_example = charging_exclusive new_run-IsFresh to_docked refl

moving_needs_leaf_example :
    (v : Drive) × (driving.active ≡ some (nav v)) × (nav_of v driving.system ≢ none)
unfolding start_leaf Navigate.on_start call task_assignment_cb RequestTask.on_start
    RequestTask.on_running take_task accept_task
moving_needs_leaf_example = moving_needs_leaf new_run-IsFresh to_driving refl

Reach-IsHonest_example : IsHonest driving.system.agent
Reach-IsHonest_example = Reach-IsHonest new_run-IsHonest to_driving

held_fifo_example :
    held new_run.system.agent ++ arrivals to_driving
    ≡ departures to_driving ++ held driving.system.agent
held_fifo_example = held_fifo to_driving

charge_bounded_example : IsPercentage driving.system.agent.battery
charge_bounded_example = charge_bounded Fixed-IsIeee half_full-IsPercentage to_driving

recovery_ends_example : IsSettled 3 (
    settle 3 rounds
      (Recovery.on_start ready idle_recovery agent).0
      (Recovery.on_start ready idle_recovery agent).1)
recovery_ends_example = recovery_ends 3 ready idle_recovery agent rounds (omega arith)

drive_outcome_example :
    ((Navigate.on_running heard agent).1 ≡ fire (record agent { is_moving = false }) nav_succeeded)
    × ((Navigate.on_running heard agent).2 ≡ success)
drive_outcome_example =
    drive_outcome dock 5 9 succeeded none agent agent
      (response 0 (some 9) ∷ result 7 aborted ∷ result 0 succeeded ∷ []) refl refl
