-- ===== src/Robot/Agent/Lifecycle.antt =====
-- The lifecycle callbacks of robot_agent_node.cpp in src/fms_robot_agent.
use warehouse_fleet_manageme.Common.{
  ℕ, zero, suc, ℤ, String, Bool, true, false, none, some, List, [], ◌∷◌, if◌then◌else◌,
}
use warehouse_fleet_manageme.Float.{Double, nought}
use warehouse_fleet_manageme.Messages.{PoseStamped, to_stamp}
use warehouse_fleet_manageme.Robot.Battery.{set_battery}
use warehouse_fleet_manageme.Robot.Agent.{Agent, Blackboard, inactive, active}

pub data CallbackReturn : Type 0 where
  success failure : CallbackReturn

-- What `on_configure` reads with `get_parameter`.
pub record Parameters (D : Type 0) : Type 0 where
  pub robot_name : String
  pub pick_duration_secs : D
  pub drop_duration_secs : D
  pub recovery_max_attempts : ℤ
  pub initial_battery_soc : D
  pub charger_pose : List D

module _ {D : Type 0} ⦃d : Double D⦄ where
  -- `cp.size() > i ? cp[i] : default`.
  abbrev nth_or : List D → ℕ → D → D
  nth_or [] i default = default
  nth_or (x ∷ xs) zero default = x
  nth_or (x ∷ xs) (suc i) default = nth_or xs i default

  -- The dock of the robot. `facing` gives the sine and the cosine of half of a yaw in degrees.
  unfoldable pub charger_pose_of : (D → D × D) → List D → PoseStamped D
  charger_pose_of facing cp =
      let (sine, cosine) = facing (nth_or cp 2 (d.decimal 1800 1)) in
      record {
        stamp = to_stamp 0;
        frame_id = "map";
        pose = record {
          position = record {
            x = nth_or cp 0 (d.sub nought (d.decimal 200 1));
            y = nth_or cp 1 (d.decimal 0 1);
            z = d.decimal 0 1;
          };
          orientation = record { x = nought; y = nought; z = sine; w = cosine };
        };
      }

  -- `tree_loads` says whether the tree can be built from its file.
  unfoldable pub on_configure :
      (D → D × D) → Parameters D → Bool → ℕ → Agent D → Agent D × CallbackReturn
  unfolding charger_pose_of
  on_configure facing p tree_loads now a =
      let battery = set_battery a.battery p.initial_battery_soc in
      let dock = charger_pose_of facing p.charger_pose in
      let board : Blackboard D = record {
        robot_name = p.robot_name;
        charger_pose = some dock;
        battery_soc = battery.soc;
        pick_duration = p.pick_duration_secs;
        drop_duration = p.drop_duration_secs;
        pick_pose = none;
        drop_pose = none;
      } in
      let configured = record a {
        robot_name = p.robot_name;
        pick_duration_secs = p.pick_duration_secs;
        drop_duration_secs = p.drop_duration_secs;
        recovery_max_attempts = p.recovery_max_attempts;
        battery = battery;
        charger_pose = dock;
        has_callback_groups = true;
        has_clients = true;
        status_pub = inactive;
        completion_pub = inactive;
        has_task_sub = true;
        has_fault_srv = true;
        blackboard = board;
      } in
      if tree_loads
      then (
        record configured { has_tree = true; last_battery_update = now; has_tf = true },
        success,
      )
      else (configured, failure)

  unfoldable pub on_activate : ℕ → Agent D → Agent D × CallbackReturn
  on_activate now a = (
    record a {
      status_pub = active;
      completion_pub = active;
      task_start_time = now;
      has_timers = true;
    },
    success,
  )

  unfoldable pub on_deactivate : Agent D → Agent D × CallbackReturn
  on_deactivate a =
      (record a { has_timers = false; status_pub = inactive; completion_pub = inactive }, success)

  unfoldable pub on_cleanup : Agent D → Agent D × CallbackReturn
  on_cleanup a = (record a { has_tree = false; has_task_sub = false; has_clients = false }, success)

  unfoldable pub on_shutdown : Agent D → Agent D × CallbackReturn
  on_shutdown a = (record a { has_tree = false }, success)
