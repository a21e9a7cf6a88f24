-- ===== src/Robot/Nodes/Charge.antt =====
-- The two leaves about the battery: battery_ok.cpp and charge_battery.cpp of src/fms_robot_agent.
use warehouse_fleet_manageme.Common.{true, false, Option, none, some, if◌then◌else◌}
use warehouse_fleet_manageme.Float.{Double}
use warehouse_fleet_manageme.Robot.Fsm.{low_battery, battery_full}
use warehouse_fleet_manageme.Robot.Battery.{low_threshold, is_full}
use warehouse_fleet_manageme.Robot.Agent.{Agent, fire}
use warehouse_fleet_manageme.Robot.Nodes.Status.{NodeStatus, running, success, failure}

module _ {D : Type 0} ⦃d : Double D⦄ where
  abbrev pub threshold_of : Option D → D
  threshold_of none = low_threshold
  threshold_of (some threshold) = threshold

  -- BatteryOK: `port` is the input port `threshold`.
  unfoldable pub battery_ok : Option D → Agent D → NodeStatus
  battery_ok port a = if d.le (threshold_of port) a.battery.soc then success else failure

  unfoldable pub on_start : Agent D → Agent D × NodeStatus
  on_start a = (fire (record a { is_charging = true; is_moving = false }) low_battery, running)

  unfoldable pub on_running : Agent D → Agent D × NodeStatus
  on_running a =
      if is_full a.battery
      then (fire (record a { is_charging = false }) battery_full, success)
      else (a, running)

  unfoldable pub on_halted : Agent D → Agent D
  on_halted a = record a { is_charging = false }
