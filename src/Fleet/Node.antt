-- ===== src/Fleet/Node.antt =====
-- The node of the fleet server: fleet_server_node.hpp and fleet_server_node.cpp of
-- src/fms_fleet_server. Calls of the node come from several threads. The map of the robots and the
-- database are used under a lock. The connection to the broker is not, and its uses are taken here
-- as if each ended before the next.
pub mod Consume
pub mod Submit
pub mod View
pub mod Command
pub mod Entry
pub mod Returns
pub mod Mirror
pub mod Summary
use Prim.Native.String.{◌++◌}
use warehouse_fleet_manageme.Common.{
  ℕ, zero, suc, ℤ, ◌+◌, String, Bool, true, false, not, ◌==◌, ◌==ₛ◌, Option, none, some, List, [],
  ◌∷◌, ◌-◌, ◌++◌ as ◌++ₗ◌, if◌then◌else◌, map,
}
use warehouse_fleet_manageme.Common.TextMaps.{TextMap, find, assign}
use warehouse_fleet_manageme.Common.Decimal.{to_string}
use warehouse_fleet_manageme.Float.{Double}
use warehouse_fleet_manageme.Messages.{
  RobotStatus, TaskAssignment, TaskCompletion, to_stamp, result_success,
}
use warehouse_fleet_manageme.Fleet.Names.{task_result_to_string}
use warehouse_fleet_manageme.Fleet.Effect.{
  Result, returned, threw, M, pure, throw, ◌>>=◌, ◌>>◌, continue, get, put, lift,
}
use warehouse_fleet_manageme.Fleet.Allocator.{select_best_robot}
use warehouse_fleet_manageme.Fleet.Store.{
  Value, text, double, Fields, end, field, Mongo, TaskRecord, upsert_robot, insert_telemetry,
  insert_task, update_task_completion, find_task,
}
use warehouse_fleet_manageme.Fleet.Broker.{Amqp, publish_failed, setup_topology}

pub record FleetServer (D DB Q : Type 0) : Type 0 where
  pub num_robots : ℤ
  pub soc_weight : D
  pub latest_status : TextMap (RobotStatus D)
  -- The index of a robot's publisher in `task_assignment_pubs_`.
  pub robot_index : TextMap ℕ
  -- The topics of the publishers, and the service of each robot.
  pub assignment_topics : List String
  pub fault_clients : TextMap String
  pub db : DB
  pub conn : Q
  pub rabbitmq_running : Bool
  -- What was published, under the index of its publisher, newest first.
  pub published : List (ℕ × TaskAssignment D)

pub record SubmitResult : Type 0 where
  pub accepted : Bool
  pub task_id : String
  pub robot_id : String
  pub message : String

pub record CommandResult : Type 0 where
  pub success : Bool
  pub message : String

-- The service of a robot: whether it is ready, and what it answers within the two seconds.
pub record Service : Type 0 where
  pub ready : Bool
  pub response : Option CommandResult

-- The two readings of the clock, for the id and for the stamp.
pub record Times : Type 0 where
  pub id : ℕ
  pub stamp : ℕ

abbrev pub robot_name : ℕ → String
robot_name i = "robot_" ++ to_string i

abbrev respond : String → Service → CommandResult
respond robot_id service =
    if not service.ready
    then record {
      success = false;
      message = robot_id ++ "'s inject_fault service is not available";
    }
    else elim service.response [
      | none ↦ record {
        success = false;
        message = robot_id ++ " did not respond to inject_fault within 2s";
      }
      | some answer ↦ answer
    ]

abbrev ask : String → Bool → (String → Bool → Service) → Option String → CommandResult
ask robot_id value service none = record {
  success = false;
  message = "unknown robot_id: " ++ robot_id;
}
ask robot_id value service (some client) = respond robot_id (service client value)

module _ {D : Type 0} where
  -- The task with its id, its stamp and its robot.
  unfoldable pub stamp_assignment : Times → TaskAssignment D → TaskAssignment D
  stamp_assignment now assignment =
      let id =
        if assignment.task_id ==ₛ "" then "task_" ++ to_string now.id else assignment.task_id in
      record assignment { task_id = id; stamp = to_stamp now.stamp }

  -- The document of a task that failed or was cancelled.
  unfoldable pub failure_doc : TaskCompletion D → Fields D
  failure_doc msg = field "task_id" (text msg.task_id) (
      field "robot_id" (text msg.robot_id) (
        field "result" (text (task_result_to_string msg.result)) (
          field "duration_secs" (double msg.duration_secs)
            (field "error_message" (text msg.error_message) end))))

module _ {D DB Q : Type 0} where
  abbrev stored : {A : Type 0} → Result A × DB → FleetServer D DB Q → Result A × FleetServer D DB Q
  stored (r, db) s = (r, record s { db = db })

  abbrev pub on_store : {A : Type 0} → M DB A → M (FleetServer D DB Q) A
  on_store m s = stored (m s.db) s

  abbrev sent : {A : Type 0} → Result A × Q → FleetServer D DB Q → Result A × FleetServer D DB Q
  sent (r, conn) s = (r, record s { conn = conn })

  abbrev pub on_broker : {A : Type 0} → M Q A → M (FleetServer D DB Q) A
  on_broker m s = sent (m s.conn) s

  -- `robot_index_.at(…)`.
  abbrev pub index_at : Option ℕ → M (FleetServer D DB Q) ℕ
  index_at none = throw
  index_at (some i) = pure i

  abbrev pub publish_assignment : ℕ → TaskAssignment D → M (FleetServer D DB Q) (Unit {0})
  publish_assignment i assignment s =
      (returned tt, record s { published = (i, assignment) ∷ s.published })

  -- The loop of the constructor over the robots `i`, `i + 1`, … with `left` to go.
  unfoldable pub add_robots : ℕ → ℕ → FleetServer D DB Q → FleetServer D DB Q
  add_robots i zero s = s
  add_robots i (suc left) s =
      let name = robot_name i in
      add_robots (suc i) left (record s {
        robot_index = assign name (i - 1) s.robot_index;
        assignment_topics = s.assignment_topics ++ₗ (("/" ++ name ++ "/task_assignment") ∷ []);
        fault_clients = assign name ("/" ++ name ++ "/inject_fault") s.fault_clients;
      })

module _ {D DB Q : Type 0} ⦃d : Double D⦄ where
  unfoldable pub select_robot : TaskAssignment D → M (FleetServer D DB Q) (Option (String × D))
  select_robot request s = (returned (select_best_robot s.latest_status request s.soc_weight), s)

  unfoldable pub get_fleet_status : FleetServer D DB Q → List (RobotStatus D)
  get_fleet_status s = map (λ e. e.1) s.latest_status

module _ {D DB Q : Type 0} ⦃d : Double D⦄ (mongo : Mongo D DB) where
  unfoldable pub dispatch_assignment :
      Times → TaskAssignment D → M (FleetServer D DB Q) (TaskAssignment D)
  unfolding stamp_assignment
  dispatch_assignment now request = do
    let assignment = stamp_assignment now request
    s ← get
    index ← index_at (find assignment.robot_id s.robot_index)
    publish_assignment index assignment
    on_store (insert_task mongo assignment)
    pure assignment

  abbrev pub submit_to :
      Times → TaskAssignment D → Option (String × D) → M (FleetServer D DB Q) SubmitResult
  submit_to now request none = pure (record {
    accepted = false;
    task_id = "";
    robot_id = "";
    message = "No IDLE robot available";
  })
  submit_to now request (some (best_robot, best_score)) = do
    assignment ← dispatch_assignment now (record request { robot_id = best_robot })
    pure (record {
      accepted = true;
      task_id = assignment.task_id;
      robot_id = best_robot;
      message = "Assigned";
    })

  unfoldable pub submit_task : Times → TaskAssignment D → M (FleetServer D DB Q) SubmitResult
  unfolding select_robot dispatch_assignment
  submit_task now request = do best ← select_robot request; submit_to now request best

  abbrev pub request_to :
      Times → TaskAssignment D → Option (String × D) → M (FleetServer D DB Q) (Unit {0})
  request_to now msg none = pure tt
  request_to now msg (some (best_robot, best_score)) = do
    assignment ← dispatch_assignment now (record msg { robot_id = best_robot })
    pure tt

  unfoldable pub task_request_cb : Times → TaskAssignment D → M (FleetServer D DB Q) (Unit {0})
  unfolding select_robot dispatch_assignment
  task_request_cb now msg = do best ← select_robot msg; request_to now msg best

  unfoldable pub get_task_status : String → M (FleetServer D DB Q) (Option (TaskRecord D))
  get_task_status task_id = on_store (find_task mongo task_id)

  abbrev pub remember : RobotStatus D → M (FleetServer D DB Q) (Unit {0})
  remember msg s =
      (returned tt, record s { latest_status = assign msg.robot_id msg s.latest_status })

  unfoldable pub robot_status_cb : RobotStatus D → M (FleetServer D DB Q) (Unit {0})
  robot_status_cb msg = do
    remember msg
    on_store (upsert_robot mongo msg)
    on_store (insert_telemetry mongo msg)

  -- `dump` prints a document as JSON.
  unfoldable pub task_completion_cb :
      Amqp Q → (Fields D → String) → TaskCompletion D → M (FleetServer D DB Q) (Unit {0})
  task_completion_cb amqp dump msg = do
    on_store (update_task_completion mongo msg)
    if not (msg.result == result_success)
        then on_broker (publish_failed amqp (dump (failure_doc msg)))
        else pure tt

module _ {D DB Q : Type 0} where
  -- `service` is what the client of a robot meets when it sends the value.
  unfoldable pub send_robot_command :
      (String → Bool → Service) → String → String → Bool → FleetServer D DB Q → CommandResult
  send_robot_command service robot_id command value s =
      if not (command ==ₛ "inject_fault")
      then record { success = false; message = "unsupported command: " ++ command }
      else ask robot_id value service (find robot_id s.fault_clients)
