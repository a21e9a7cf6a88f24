-- ===== src/Robot/System/Power.antt =====
-- The charge of the robot under the timer of robot_agent_node.cpp, in src/fms_robot_agent.
use warehouse_fleet_manageme.Common.{ℕ, ◌≡◌, refl, some, arith, if◌then◌else◌}
use warehouse_fleet_manageme.Float.{Double, IsIeee}
use warehouse_fleet_manageme.Robot.Battery.{update, call as call_battery, is_low}
use warehouse_fleet_manageme.Robot.Battery.Bounds.{IsPercentage, call-IsPercentage}
use warehouse_fleet_manageme.Robot.Agent.{Agent}
use warehouse_fleet_manageme.Robot.Agent.Callbacks.{
  task_assignment_cb, fault_service_cb, battery_update_cb, status_publish_cb,
}
use warehouse_fleet_manageme.Robot.Nodes.Status.{success, failure}
use warehouse_fleet_manageme.Robot.Nodes.RequestTask
use warehouse_fleet_manageme.Robot.Nodes.Navigate
use warehouse_fleet_manageme.Robot.Nodes.Recovery
use warehouse_fleet_manageme.Robot.Nodes.Execute
use warehouse_fleet_manageme.Robot.Nodes.Report
use warehouse_fleet_manageme.Robot.Nodes.Charge
use warehouse_fleet_manageme.Robot.System.{
  Leaf, battery_ok, request, charge, report, nav, recovery, execute, Inputs, System, Outside,
  assignment, inject_fault, battery_timer, status_timer, goal_response, call, start_leaf, tick_leaf,
  halt_leaf, Run, Reach,
}
use warehouse_fleet_manageme.Robot.System.Invariant.{IsInvariant, reach_kept}

module _ {D : Type 0} ⦃d : Double D⦄ where
  start-battery :
      (l : Leaf) (i : Inputs) (s : System D) → (start_leaf l i s).0.agent.battery ≡ s.agent.battery
  unfolding start_leaf
  start-battery battery_ok i s = refl
  start-battery request i s = unfold RequestTask.on_start in ground arith
  start-battery charge i s = unfold Charge.on_start in refl
  start-battery report i s = unfold Report.tick in ground arith
  start-battery (nav w) i s = unfold Navigate.on_start in ground arith
  start-battery (recovery l) i s = unfold Recovery.on_start in ground arith
  start-battery (execute l) i s = unfold Execute.on_start in refl

  tick-battery :
      (l : Leaf) (i : Inputs) (s : System D) → (tick_leaf l i s).0.agent.battery ≡ s.agent.battery
  unfolding tick_leaf
  tick-battery battery_ok i s = refl
  tick-battery request i s = unfold RequestTask.on_running in ground arith
  tick-battery charge i s = unfold Charge.on_running in ground arith
  tick-battery report i s = refl
  tick-battery (nav w) i s = unfold Navigate.on_running in ground arith
  tick-battery (recovery l) i s = unfold Recovery.on_running in ground arith
  tick-battery (execute l) i s = unfold Execute.on_running in ground arith

  halt-battery : (l : Leaf) (s : System D) → (halt_leaf l s).agent.battery ≡ s.agent.battery
  unfolding halt_leaf
  halt-battery battery_ok s = refl
  halt-battery report s = refl
  halt-battery request s = unfold RequestTask.on_halted in refl
  halt-battery charge s = unfold Charge.on_halted in refl
  halt-battery (nav w) s = unfold Navigate.on_halted in ground arith
  halt-battery (recovery l) s = ground arith
  halt-battery (execute l) s = ground arith

  battery_update :
      (now : ℕ) (a : Agent D)
      → (battery_update_cb now a).battery
        ≡ call_battery a.battery
            (update (d.seconds now a.last_battery_update) a.is_moving a.is_charging)
  unfolding battery_update_cb call_battery
  battery_update now a = ground arith

  module _ (laws : IsIeee D) where
    call_charged :
        (e : Outside D) (s : System D)
        → IsPercentage s.agent.battery
        → IsPercentage (call e s).agent.battery
    unfolding call
    call_charged (assignment msg) s v = unfold task_assignment_cb in v
    call_charged (inject_fault value) s v = unfold fault_service_cb in ground arith
    call_charged (battery_timer now) s v = rw (battery_update now s.agent) (
        call-IsPercentage laws s.agent.battery
          (update (d.seconds now s.agent.last_battery_update) s.agent.is_moving s.agent.is_charging)
          v (laws.seconds_number now s.agent.last_battery_update))
    call_charged (status_timer now transform) s v = unfold status_publish_cb in ground arith
    call_charged (goal_response w goal handle) s v = ground arith
    call_charged _ s v = ground arith

    charged-IsInvariant : IsInvariant {D = D} (λ a. IsPercentage a.battery)
    charged-IsInvariant = record {
      on_call = call_charged;
      on_start = λ l i s v. rw (start-battery l i s) v;
      on_tick = λ l i s v. rw (tick-battery l i s) v;
      on_halt = λ l s v. rw (halt-battery l s) v;
    }

    -- A charge between 0 and 100 percent stays between 0 and 100 percent, whatever steps of the
    -- robot follow and whatever the clock reads.
    pub charge_bounded :
        {r r' : Run D}
        → IsPercentage r.system.agent.battery
        → Reach r r'
        → IsPercentage r'.system.agent.battery
    charge_bounded v h = reach_kept {D = D} (λ a. IsPercentage a.battery) charged-IsInvariant v h

    -- For a charge between 0 and 100 percent the two readings of a low battery agree: BatteryOK
    -- with the threshold of robot_agent.xml fails exactly when the timer finds the battery low.
    battery_ok_agrees :
        (a : Agent D)
        → IsPercentage a.battery
        → Charge.battery_ok (some (d.decimal 200 1)) a
          ≡ (if is_low a.battery then failure else success)
    unfolding Charge.battery_ok is_low
    battery_ok_agrees a v = ground (
      arith,
      laws.lt-eq-not-le a.battery.soc (d.decimal 200 1) (laws.number_of_le _ _ v.above).1
          (laws.decimal_mono 200 1 200 1 (omega arith)),
    )
