-- ===== src/Robot/Battery.antt =====
-- The battery of one robot: battery_model.hpp of src/fms_robot_agent.
pub mod Bounds
use warehouse_fleet_manageme.Common.{Bool, not, List, [], ◌∷◌, if◌then◌else◌}
use warehouse_fleet_manageme.Float.{Double, nought}

pub record BatteryModel (D : Type 0) : Type 0 where
  pub soc : D

-- A call of the interface that changes the battery.
pub data Call (D : Type 0) : Type 0 where
  update : D → Bool → Bool → Call D
  set_soc : D → Call D

module _ {D : Type 0} ⦃d : Double D⦄ where
  abbrev pub hundred : D
  hundred = d.decimal 1000 1

  abbrev pub low_threshold : D
  low_threshold = d.decimal 200 1

  abbrev pub full_threshold : D
  full_threshold = d.decimal 950 1

  -- Percent per second while stationary, while navigating, and while docked.
  abbrev pub drain_idle : D
  drain_idle = d.decimal 2 2

  abbrev pub drain_moving : D
  drain_moving = d.decimal 10 2

  abbrev pub charge_rate : D
  charge_rate = d.decimal 100 2

  -- `std::clamp`.
  unfoldable pub clamp : D → D → D → D
  clamp v lo hi = if d.lt v lo then lo else if d.lt hi v then hi else v

  -- The constructor with an initial charge, and its default argument.
  unfoldable pub new : D → BatteryModel D
  unfolding clamp
  new initial_soc = record { soc = clamp initial_soc nought hundred }

  unfoldable pub default_battery : BatteryModel D
  unfolding new
  default_battery = new hundred

  -- The charge before it is clamped.
  unfoldable pub drift : BatteryModel D → D → Bool → Bool → D
  drift b dt is_moving is_charging =
      if is_charging
      then d.add b.soc (d.mul charge_rate dt)
      else if is_moving
      then d.sub b.soc (d.mul drain_moving dt)
      else d.sub b.soc (d.mul drain_idle dt)

  unfoldable pub update_battery : BatteryModel D → D → Bool → Bool → BatteryModel D
  unfolding drift clamp
  update_battery b dt is_moving is_charging = record b {
    soc = clamp (drift b dt is_moving is_charging) nought hundred;
  }

  unfoldable pub is_low : BatteryModel D → Bool
  is_low b = d.lt b.soc low_threshold

  -- `>=` is `<=` the other way round.
  unfoldable pub is_full : BatteryModel D → Bool
  is_full b = d.le full_threshold b.soc

  unfoldable pub set_battery : BatteryModel D → D → BatteryModel D
  unfolding clamp
  set_battery b v = record b { soc = clamp v nought hundred }

  unfoldable pub call : BatteryModel D → Call D → BatteryModel D
  unfolding update_battery set_battery
  call b (update dt is_moving is_charging) = update_battery b dt is_moving is_charging
  call b (set_soc v) = set_battery b v

  unfoldable pub run : BatteryModel D → List (Call D) → BatteryModel D
  run b [] = b
  run b (c ∷ cs) = run (call b c) cs
