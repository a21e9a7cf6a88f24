-- ===== src/Fleet/Grpc.antt =====
-- The service of the fleet server over gRPC: fleet_grpc_server.cpp of src/fms_fleet_server. Each
-- call turns its request into a call of the node, and what the node answers into the response.
pub mod Journey
pub mod Server
use warehouse_fleet_manageme.Common.{
  ℕ, ◌%◌, ℤ, pos, String, Bool, true, false, Option, none, some, List, map,
}
use warehouse_fleet_manageme.Float.{Double, nought}
use warehouse_fleet_manageme.Messages.{
  Position, RobotStatus, TaskAssignment, default_assignment, default_pose,
}
use warehouse_fleet_manageme.Fleet.Names.{robot_state_to_string}
use warehouse_fleet_manageme.Fleet.Effect.{M, pure, ◌>>=◌}
use warehouse_fleet_manageme.Fleet.Store.{Mongo, TaskRecord}
use warehouse_fleet_manageme.Fleet.Node.{
  FleetServer, SubmitResult, CommandResult, Service, Times, submit_task, get_fleet_status,
  get_task_status, send_robot_command,
}

pub record Pose2d (D : Type 0) : Type 0 where
  pub x : D
  pub y : D

-- The messages of proto/fleet.proto. A `uint32` is a number below 2 ^ 32.
pub record SubmitTaskRequest (D : Type 0) : Type 0 where
  pub task_type : ℕ
  pub pick_pose : Pose2d D
  pub drop_pose : Pose2d D
  pub payload_id : String
  pub priority : ℕ
  pub deadline_secs : D

pub record SubmitTaskResponse : Type 0 where
  pub accepted : Bool
  pub task_id : String
  pub robot_id : String
  pub message : String

pub record RobotStatusInfo (D : Type 0) : Type 0 where
  pub robot_id : String
  pub state : ℕ
  pub state_str : String
  pub battery_soc : D
  pub current_task_id : String
  pub pose : Pose2d D

pub record GetTaskStatusResponse (D : Type 0) : Type 0 where
  pub found : Bool
  pub task_id : String
  pub robot_id : String
  pub status : String
  pub result : ℤ
  pub duration_secs : D
  pub error_message : String

module _ {D : Type 0} where
  -- An entry of the answer of `GetFleetStatus`.
  unfoldable pub robot_info : RobotStatus D → RobotStatusInfo D
  robot_info status = record {
    robot_id = status.robot_id;
    state = status.state;
    state_str = robot_state_to_string status.state;
    battery_soc = status.battery_soc;
    current_task_id = status.current_task_id;
    pose = record { x = status.pose.position.x; y = status.pose.position.y };
  }

module _ {D : Type 0} ⦃d : Double D⦄ where
  -- The task of a request. The two casts to `uint8_t` keep the low eight bits.
  unfoldable pub task_of : SubmitTaskRequest D → TaskAssignment D
  task_of request = record (default_assignment {D = D}) {
    task_type = request.task_type % 256;
    pick_pose = record (default_pose {D = D}) {
      position = record { x = request.pick_pose.x; y = request.pick_pose.y; z = nought };
    };
    drop_pose = record (default_pose {D = D}) {
      position = record { x = request.drop_pose.x; y = request.drop_pose.y; z = nought };
    };
    payload_id = request.payload_id;
    priority = request.priority % 256;
    deadline_secs = d.narrow request.deadline_secs;
  }

  -- The response to `GetTaskStatus`. What is not set has its default.
  unfoldable pub task_response : String → Option (TaskRecord D) → GetTaskStatusResponse D
  task_response task_id none = record {
    found = false;
    task_id = task_id;
    robot_id = "";
    status = "";
    result = pos 0;
    duration_secs = nought;
    error_message = "";
  }
  task_response task_id (some task) = record {
    found = true;
    task_id = task.task_id;
    robot_id = task.robot_id;
    status = task.status;
    result = task.result;
    duration_secs = task.duration_secs;
    error_message = task.error_message;
  }

abbrev pub submit_response : SubmitResult → SubmitTaskResponse
submit_response result = record {
  accepted = result.accepted;
  task_id = result.task_id;
  robot_id = result.robot_id;
  message = result.message;
}

module _ {D DB Q : Type 0} ⦃d : Double D⦄ where
  unfoldable pub get_fleet_status_call : FleetServer D DB Q → List (RobotStatusInfo D)
  unfolding robot_info get_fleet_status
  get_fleet_status_call s = map robot_info (get_fleet_status s)

  unfoldable pub send_robot_command_call :
      (String → Bool → Service) → String → String → Bool → FleetServer D DB Q → CommandResult
  unfolding send_robot_command
  send_robot_command_call service robot_id command value s =
      send_robot_command service robot_id command value s

module _ {D DB Q : Type 0} ⦃d : Double D⦄ (mongo : Mongo D DB) where
  unfoldable pub submit_task_call :
      Times → SubmitTaskRequest D → M (FleetServer D DB Q) SubmitTaskResponse
  unfolding task_of submit_task
  submit_task_call now request = do
    result ← submit_task mongo now (task_of request)
    pure (submit_response result)

  unfoldable pub get_task_status_call : String → M (FleetServer D DB Q) (GetTaskStatusResponse D)
  unfolding task_response get_task_status
  get_task_status_call task_id = do
    task ← get_task_status mongo task_id
    pure (task_response task_id task)
