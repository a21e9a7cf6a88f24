-- ===== src/Fleet/System.antt =====
-- The fleet server at work: the calls of its node that come from the executor, the threads of the
-- gRPC service and the consumer, fleet_server_node.cpp of src/fms_fleet_server. The choice of a
-- robot holds the mutex of the robots and its dispatch does not, so other calls may come between
-- the two.
pub mod Serving
pub mod Entries
pub mod Started
pub mod Again
pub mod Growing
use warehouse_fleet_manageme.Common.{ℕ, String, ◌≡◌, false, Option, some, List, ◌∷◌, ◌++◌}
use warehouse_fleet_manageme.Float.{Double}
use warehouse_fleet_manageme.Messages.{RobotStatus, TaskAssignment, TaskCompletion, IsWire}
use warehouse_fleet_manageme.Fleet.Allocator.{select_best_robot}
use warehouse_fleet_manageme.Fleet.Store.{Fields, Mongo}
use warehouse_fleet_manageme.Fleet.Broker.{Amqp}
use warehouse_fleet_manageme.Fleet.Node.{
  FleetServer, Times, dispatch_assignment, robot_status_cb, task_completion_cb,
}
use warehouse_fleet_manageme.Fleet.Node.Consume.{JsonLibrary, read_request}
use warehouse_fleet_manageme.Fleet.Grpc.{SubmitTaskRequest, task_of}

-- The node, and the tasks that have a robot and were not dispatched yet.
pub record AtWork (D DB Q : Type 0) : Type 0 where
  pub node : FleetServer D DB Q
  pub chosen : List (TaskAssignment D)

module _ {D J : Type 0} ⦃d : Double D⦄ (library : JsonLibrary D J) where
  -- A task as the topic, the queue or the service gives it.
  pub data Incoming : TaskAssignment D → Type 0 where
    from_topic : (t : TaskAssignment D) → IsWire t → Incoming t
    from_queue :
        (body : String) (t : TaskAssignment D) → read_request library body ≡ some t → Incoming t
    from_service : (r : SubmitTaskRequest D) → Incoming (task_of r)

  module _ {DB Q : Type 0} (mongo : Mongo D DB) (amqp : Amqp Q) (dump : Fields D → String) where
    pub data Event : AtWork D DB Q → AtWork D DB Q → Type 0 where
      choose :
          (s : AtWork D DB Q) (t : TaskAssignment D) (id : String) (best : D)
          → Incoming t
          → select_best_robot s.node.latest_status t s.node.soc_weight ≡ some (id, best)
          → Event s (record s { chosen = record t { robot_id = id } ∷ s.chosen })
      -- It may throw, from any of its steps.
      dispatch :
          (node : FleetServer D DB Q) (now : Times) (front back : List (TaskAssignment D))
          (t : TaskAssignment D)
          → Event
              (record { node = node; chosen = front ++ (t ∷ back) })
              (record { node = (dispatch_assignment mongo now t node).1; chosen = front ++ back })
      status :
          (s : AtWork D DB Q) (msg : RobotStatus D)
          → Event s (record s { node = (robot_status_cb mongo msg s.node).1 })
      completion :
          (s : AtWork D DB Q) (msg : TaskCompletion D)
          → Event s (record s { node = (task_completion_cb mongo amqp dump msg s.node).1 })
      -- The consumer uses the connection.
      exchange :
          (s : AtWork D DB Q) (conn : Q)
          → Event s (record s { node = record (s.node) { conn = conn } })
      stop :
          (s : AtWork D DB Q)
          → Event s (record s { node = record (s.node) { rabbitmq_running = false } })

    -- Any number of events, the last one outermost.
    pub data Events (s : AtWork D DB Q) : AtWork D DB Q → Type 0 where
      here : Events s s
      next : {t u : AtWork D DB Q} → Events s t → Event t u → Events s u
