-- ===== src/Examples/Robot.antt =====
-- One robot through a task and to the charger: src/fms_robot_agent.
pub mod Cases
use warehouse_fleet_manageme.Common.{
  ℕ, ◌*◌, ◌≤◌, pos, ◌≡◌, ◌≢◌, ◌↔◌, ◌⊎◌, refl, true, false, none, some, List, [], ◌∷◌, ◌++◌, length,
  Embeds, arith, if◌then◌else◌,
}
use warehouse_fleet_manageme.Float.{nought, ◌≼◌}
use warehouse_fleet_manageme.Float.Fixed.{Fixed, fixed_double, Fixed-IsIeee}
use warehouse_fleet_manageme.Messages.{
  PoseStamped, TaskAssignment, default_pose, default_assignment, to_stamp,
}
use warehouse_fleet_manageme.Robot.Fsm.{
  idle, assigned, navigating, executing, reporting, charging, FsmEvent, task_received, nav_started,
  nav_succeeded, nav_failed, recovery_done, battery_full, report_sent, recovery_failed, recovering,
  process, run,
}
use warehouse_fleet_manageme.Robot.Battery.{
  BatteryModel, Call, update, set_soc, hundred, new, update_battery, is_full, is_low,
}
use warehouse_fleet_manageme.Robot.Battery
use warehouse_fleet_manageme.Robot.Battery.Bounds.{IsPercentage}
use warehouse_fleet_manageme.Robot.Agent.{Agent, active, fire}
use warehouse_fleet_manageme.Robot.Nodes.Status.{success, failure, Shared}
use warehouse_fleet_manageme.Robot.Nodes.Navigate.{NavState, NavNode, succeeded, aborted, new_state}
use warehouse_fleet_manageme.Robot.Nodes.Navigate
use warehouse_fleet_manageme.Robot.Nodes.RequestTask
use warehouse_fleet_manageme.Robot.Nodes.RequestTask.{take_task, accept_task}
use warehouse_fleet_manageme.Robot.Agent.Callbacks.{task_assignment_cb}
use warehouse_fleet_manageme.Robot.Nodes.Navigate.Goals.{
  response, result, deliver_all, own, drive_outcome,
}
use warehouse_fleet_manageme.Robot.Nodes.Recovery.{RecoveryNode, spinning, Servers}
use warehouse_fleet_manageme.Robot.Nodes.Recovery
use warehouse_fleet_manageme.Robot.Nodes.Recovery.Attempts.{Round, settle, IsSettled, recovery_ends}
use warehouse_fleet_manageme.Robot.Nodes.Charge
use warehouse_fleet_manageme.Robot.System.{
  preempted, to_charger, pick, Drive, to_leg, request, charge, nav, Inputs, assignment, call,
  start_leaf, Run, after, nav_of, outside, start, Reach, here, next,
}
use warehouse_fleet_manageme.Robot.System.Exclusive.{IsFresh, charging_exclusive, moving_needs_leaf}
use warehouse_fleet_manageme.Robot.System.Reports.{IsHonest, Reach-IsHonest}
use warehouse_fleet_manageme.Robot.System.Ledger.{held, arrivals, departures, held_fifo}
use warehouse_fleet_manageme.Robot.System.Power.{charge_bounded}

abbrev whole : ℕ → Fixed
whole n = some (pos (n * 100))

abbrev half_full : BatteryModel Fixed
half_full = record { soc = whole 50 }

half_full-IsPercentage : IsPercentage half_full
half_full-IsPercentage = record { above = refl; below = refl }

abbrev dock : PoseStamped Fixed
dock = record { stamp = to_stamp 0; frame_id = "map"; pose = default_pose }

abbrev pub task : TaskAssignment Fixed
task = record (default_assignment {D = Fixed}) { task_id = "task_7" }

abbrev pub agent : Agent Fixed
agent = record {
  robot_name = "robot_1";
  fsm = idle;
  pending_tasks = [];
  current_task = none;
  interrupted_task = none;
  battery = half_full;
  is_moving = false;
  is_charging = false;
  has_callback_groups = true;
  has_clients = true;
  has_fault_srv = true;
  has_tf = true;
  has_task_sub = true;
  completion_pub = active;
  status_pub = active;
  pick_duration_secs = whole 3;
  drop_duration_secs = whole 2;
  recovery_max_attempts = pos 3;
  task_start_time = 0;
  fault_injected = false;
  charger_pose = dock;
  has_timers = true;
  has_tree = true;
  blackboard = record {
    robot_name = "robot_1";
    charger_pose = some dock;
    battery_soc = whole 50;
    pick_duration = whole 3;
    drop_duration = whole 2;
    pick_pose = none;
    drop_pose = none;
  };
  last_battery_update = 0;
  completions = [];
  statuses = [];
  requests = [];
  next_goal = 0;
}

abbrev idle_recovery : RecoveryNode
idle_recovery = record { phase = spinning; attempt = 1; spin_state = none; backup_state = none }

abbrev ready : Servers
ready = record { spin_ready = true; backup_ready = false }

abbrev pub new_run : Run Fixed
new_run = record {
  system = record {
    agent = agent;
    nav_charger = none;
    nav_pick = none;
    nav_drop = none;
    recover_pick = idle_recovery;
    recover_drop = idle_recovery;
    do_pick = record { start_time = 0; duration_secs = nought };
    do_drop = record { start_time = 0; duration_secs = nought };
  };
  active = none;
}

abbrev inputs : Inputs
inputs = record {
  now = 10;
  later = 11;
  clock = record { start = 1; pick = 2; drop = 3 };
  nav_ready = true;
  servers = ready;
}

-- A task arrives, RequestTask takes it, and the robot sets out.
abbrev given : Run Fixed
given = record new_run { system = call (assignment task) new_run.system }

abbrev taken : Run Fixed
taken = after request (start_leaf request inputs given.system)

abbrev driving : Run Fixed
driving = after (nav (to_leg pick)) (start_leaf (nav (to_leg pick)) inputs taken.system)

abbrev docked : Run Fixed
docked = after charge (start_leaf charge inputs new_run.system)

new_run-IsFresh : IsFresh new_run
new_run-IsFresh = record { is_idle = refl; is_still = refl; is_undocked = refl; is_inactive = refl }

to_taken : Reach new_run taken
unfolding call start_leaf RequestTask.on_start RequestTask.on_running accept_task take_task
to_taken = next (next here (outside (assignment task) refl)) (start request inputs refl refl)

to_driving : Reach new_run driving
unfolding start_leaf RequestTask.on_start RequestTask.on_running accept_task take_task call
    task_assignment_cb
to_driving = next to_taken (start (nav (to_leg pick)) inputs refl refl)

to_docked : Reach new_run docked
to_docked = next here (start charge inputs refl refl)

new_run-IsHonest : IsHonest new_run.system.agent
new_run-IsHonest = record { fsm_ne = λ e. cc e; statuses_sound = tt; completions_success = tt }

-- Every recovery fails, and the server of the second is not there.
abbrev lost : Round
lost = record { spin_code = aborted; backup_code = aborted; servers = ready }

abbrev rounds : List Round
rounds = lost ∷ lost ∷ lost ∷ lost ∷ lost ∷ lost ∷ lost ∷ lost ∷ lost ∷ []

abbrev waiting : Shared NavState
waiting = record { goal = 4; state = new_state }

abbrev heard : NavNode
heard =
    deliver_all (response 0 (some 9) ∷ result 7 aborted ∷ result 0 succeeded ∷ [])
      (Navigate.on_start (some dock) true 5 none agent).0
