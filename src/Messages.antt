-- ===== src/Messages.antt =====
-- The messages of src/fms_msgs/msg, with the parts of the standard ROS messages that they hold.
use warehouse_fleet_manageme.Common.{ℕ, ◌/◌, ◌%◌, ◌^◌, ◌<◌, ℤ, pos, String}
use warehouse_fleet_manageme.Float.{Double, nought}

pub record Stamp : Type 0 where
  pub sec : ℤ
  pub nanosec : ℕ

-- The conversion of a time in nanoseconds.
abbrev pub to_stamp : ℕ → Stamp
to_stamp t = record { sec = pos (t / 10 ^ 9); nanosec = t % 10 ^ 9 }

pub record Position (D : Type 0) : Type 0 where
  pub x : D
  pub y : D
  pub z : D

pub record Orientation (D : Type 0) : Type 0 where
  pub x : D
  pub y : D
  pub z : D
  pub w : D

pub record Pose (D : Type 0) : Type 0 where
  pub position : Position D
  pub orientation : Orientation D

pub record PoseStamped (D : Type 0) : Type 0 where
  pub stamp : Stamp
  pub frame_id : String
  pub pose : Pose D

pub record RobotStatus (D : Type 0) : Type 0 where
  pub stamp : Stamp
  pub robot_id : String
  pub state : ℕ  -- uint8
  pub pose : Pose D
  pub battery_soc : D  -- float32
  pub current_task_id : String
  pub status_message : String

pub record TaskAssignment (D : Type 0) : Type 0 where
  pub stamp : Stamp
  pub task_id : String
  pub robot_id : String
  pub task_type : ℕ  -- uint8
  pub pick_pose : Pose D
  pub drop_pose : Pose D
  pub payload_id : String
  pub priority : ℕ  -- uint8
  pub deadline_secs : D  -- float32

pub record TaskCompletion (D : Type 0) : Type 0 where
  pub stamp : Stamp
  pub task_id : String
  pub robot_id : String
  pub result : ℕ  -- uint8
  pub duration_secs : D  -- float32
  pub error_message : String

-- The numbers of a task fit the types of the message.
pub record IsWire {D : Type 0} (t : TaskAssignment D) : Type 0 where
  pub task_type : t.task_type < 256
  pub priority : t.priority < 256
  pub nanosec : t.stamp.nanosec < 10 ^ 9

-- The named values of the fields `state`, `task_type` and `result`.
abbrev pub state_idle : ℕ
state_idle = 0

abbrev pub task_pick : ℕ
task_pick = 0

abbrev pub task_drop : ℕ
task_drop = 1

abbrev pub task_charge : ℕ
task_charge = 2

abbrev pub result_success : ℕ
result_success = 0

abbrev pub result_failed : ℕ
result_failed = 1

abbrev pub result_cancelled : ℕ
result_cancelled = 2

-- The messages as they are built, with every field at its default.
module _ {D : Type 0} ⦃d : Double D⦄ where
  abbrev pub default_pose : Pose D
  default_pose = record {
    position = record { x = nought; y = nought; z = nought };
    orientation = record { x = nought; y = nought; z = nought; w = d.decimal 10 1 };
  }

  abbrev pub default_assignment : TaskAssignment D
  default_assignment = record {
    stamp = to_stamp 0;
    task_id = "";
    robot_id = "";
    task_type = 0;
    pick_pose = default_pose;
    drop_pose = default_pose;
    payload_id = "";
    priority = 0;
    deadline_secs = nought;
  }

  abbrev pub default_completion : TaskCompletion D
  default_completion = record {
    stamp = to_stamp 0;
    task_id = "";
    robot_id = "";
    result = 0;
    duration_secs = nought;
    error_message = "";
  }
