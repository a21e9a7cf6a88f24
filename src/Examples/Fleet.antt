-- ===== src/Examples/Fleet.antt =====
-- A fleet of two robots, with a database and a broker that are lists: src/fms_fleet_server.
pub mod Cases
pub mod Work
pub mod World
use warehouse_fleet_manageme.Common.{
  ℕ, pos, ◌*◌, String, ◌≡◌, ◌≢◌, ◌↔◌, refl, Bool, true, false, ◌==ₛ◌, none, some, ◌⊎◌, inl, inr,
  ==ₛ_iff, arith, List, [], ◌∷◌, ◌++◌, All, if◌then◌else◌,
}
use warehouse_fleet_manageme.Common.Decimal.{to_string}
use warehouse_fleet_manageme.Common.TextMaps.{before, TextMap, find, IsSorted}
use warehouse_fleet_manageme.Float.{nought}
use warehouse_fleet_manageme.Float.Fixed.{Fixed, fixed_double, Fixed-IsIeee}
use warehouse_fleet_manageme.Messages.{
  RobotStatus, TaskAssignment, TaskCompletion, Pose, default_pose, default_assignment,
  default_completion, to_stamp,
}
use warehouse_fleet_manageme.Fleet.Effect.{returned}
use warehouse_fleet_manageme.Fleet.Allocator.{score, improves, scan, select_best_robot}
use warehouse_fleet_manageme.Fleet.Allocator.Best.{
  IsBest, IsNoBetter, select_best_robot-IsBest, select_best_robot-eq-none_iff,
}
use warehouse_fleet_manageme.Fleet.Store.{
  task_to_doc, insert_task, update_task_completion, find_task,
}
use warehouse_fleet_manageme.Fleet.Store.Memory.{Documents, memory, memory-IsMongo}
use warehouse_fleet_manageme.Fleet.Store.Lifecycle.{
  task_lifecycle, assigned_record, completed_record,
}
use warehouse_fleet_manageme.Fleet.Broker.{Amqp, Command, Reply, normal, connect, setup_topology}
use warehouse_fleet_manageme.Fleet.Broker.Topology.{IsBroker}
use warehouse_fleet_manageme.Fleet.Node.{
  CommandResult, Service, send_robot_command, FleetServer, Times, add_robots, stamp_assignment,
  robot_status_cb, submit_task, select_robot, dispatch_assignment,
}
use warehouse_fleet_manageme.Fleet.Node.Submit.{
  IsTracked, Takes, IsAnswered, submit_task_assigns, outgoing,
}
use warehouse_fleet_manageme.Fleet.Node.View.{IsWired}
use warehouse_fleet_manageme.Fleet.Node.Consume.{JsonLibrary, handle_message, rabbitmq_consume_loop}
use warehouse_fleet_manageme.Fleet.Node.Consume.Loop.{consume_loop_returns}
use warehouse_fleet_manageme.Fleet.Node.Consume.Settled.{IsSettled, handle_message_settles}
use warehouse_fleet_manageme.Fleet.Grpc.{
  SubmitTaskRequest, SubmitTaskResponse, task_of, submit_task_call,
}
use warehouse_fleet_manageme.Fleet.Grpc.Journey.{IsRecorded, task_journey}
use warehouse_fleet_manageme.Fleet.Grpc.Server.{
  Serving, GrpcServer, Wait, create, build_and_start, run_ends,
}
use warehouse_fleet_manageme.Fleet.Setup.{
  ServerParameters, Runtime, FleetProcess, default_parameters, grpc_address, new_node, start_broker,
  construct,
}
use warehouse_fleet_manageme.Fleet.Setup.Ready.{IsReady, construct-IsReady}

-- Whole numbers.
abbrev pub whole : ℕ → Fixed
whole n = some (pos (n * 100))

abbrev pose_at : ℕ → ℕ → Pose Fixed
pose_at x y = record (default_pose {D = Fixed}) {
  position = record { x = whole x; y = whole y; z = nought };
}

abbrev status_of : String → ℕ → ℕ → ℕ → ℕ → RobotStatus Fixed
status_of robot_id state x y soc = record {
  stamp = to_stamp 0;
  robot_id = robot_id;
  state = state;
  pose = pose_at x y;
  battery_soc = whole soc;
  current_task_id = "";
  status_message = "";
}

-- robot_1 has the shorter way and less charge; robot_3 is charging.
abbrev robots : TextMap (RobotStatus Fixed)
robots =
    ("robot_1", status_of "robot_1" 0 0 0 40)
    ∷ ("robot_2", status_of "robot_2" 0 5 0 100)
    ∷ ("robot_3", status_of "robot_3" 6 3 4 100)
    ∷ []

abbrev weight : Fixed
weight = some (pos 5)

abbrev task : TaskAssignment Fixed
task = record (default_assignment {D = Fixed}) {
  task_id = "task_7";
  pick_pose = pose_at 3 4;
  drop_pose = pose_at 9 9;
}

-- What the test broker was asked.
pub data Frame : Type 0 where
  command : Command → Frame
  publication : String → String → String → Frame
  acked : ℕ → Frame
  rejected : ℕ → Bool → Frame

abbrev fine : Reply
fine = record { reply_type = normal; timed_out = false }

abbrev pub broker : Amqp (List Frame)
broker = record {
  socket_new = λ q. (true, q);
  socket_open = λ host port q. (true, q);
  login = λ user password q. (fine, q);
  channel_open = λ q. (fine, q);
  close = λ q. q;
  send = λ c q. (fine, command c ∷ q);
  basic_publish =
      λ exchange routing_key mode body q. (true, publication exchange routing_key body ∷ q);
  consume_message = λ timeout q. (fine, record { delivery_tag = 1; body = "{}" }, q);
  basic_ack = λ tag q. acked tag ∷ q;
  basic_reject = λ tag requeue q. rejected tag requeue ∷ q;
}

-- Whether the broker was asked for it.
abbrev Asked : Command → List Frame → Type 0
Asked c [] = ⊥
Asked c (f ∷ q) = (f ≡ command c) ⊎ Asked c q

broker-IsBroker : IsBroker broker Asked
broker-IsBroker = record { sent_holds = λ c q e. inl refl; sent_keeps = λ c c' q h. inr h }

abbrev empty_server : FleetServer Fixed (Documents Fixed) (List Frame)
empty_server = record {
  num_robots = pos 3;
  soc_weight = weight;
  latest_status = [];
  robot_index = [];
  assignment_topics = [];
  fault_clients = [];
  db = [];
  conn = [];
  rabbitmq_running = true;
  published = [];
}

abbrev pub server : FleetServer Fixed (Documents Fixed) (List Frame)
server = record empty_server {
  latest_status = robots;
  robot_index = ("robot_1", 0) ∷ ("robot_2", 1) ∷ ("robot_3", 2) ∷ [];
}

abbrev pub times : Times
times = record { id = 12; stamp = 3000000000 }

pub server-IsTracked : IsTracked server
unfolding find
server-IsTracked = ((0, refl), ((1, refl), ((2, refl), tt)))

pub memory-Takes :
    (now : Times) (t : TaskAssignment Fixed) (db : Documents Fixed) → Takes memory now t db
unfolding insert_task
memory-Takes now t db id = (db ++ (("tasks", task_to_doc (outgoing now t id)) ∷ []), refl)

-- A JSON library that reads every text but the empty one, with the defaults.
abbrev json : JsonLibrary Fixed String
json = record {
  parse = λ body. if body ==ₛ "" then none else some body;
  value_string = λ j key default. some default;
  value_int = λ j key default. some default;
  value_float = λ j key default. some default;
  at_key = λ j key. some j;
  get_double = λ j. some (whole 3);
}

abbrev completion : TaskCompletion Fixed
completion = record (default_completion {D = Fixed}) {
  task_id = "task_7";
  robot_id = "robot_2";
  result = 1;
  duration_secs = whole 60;
  error_message = "lost";
}

abbrev pub order : SubmitTaskRequest Fixed
order = record {
  task_type = 0;
  pick_pose = record { x = whole 3; y = whole 4 };
  drop_pose = record { x = whole 9; y = whole 9 };
  payload_id = "box";
  priority = 1;
  deadline_secs = whole 300;
}

abbrev pub answer : SubmitTaskResponse
answer = record { accepted = true; task_id = "task_12"; robot_id = "robot_2"; message = "Assigned" }

abbrev pub after_order : FleetServer Fixed (Documents Fixed) (List Frame)
after_order = (submit_task_call memory times order server).1

pub order_accepted : submit_task_call memory times order server ≡ (returned answer, after_order)
unfolding submit_task_call submit_task select_robot dispatch_assignment select_best_robot scan
    improves score find insert_task to_string stamp_assignment
order_accepted = refl

abbrev report : TaskCompletion Fixed
report = record completion { task_id = "task_12" }

abbrev inject_fault : String
inject_fault = "inject_fault"

abbrev willing : String → Bool → Service
willing client value = record {
  ready = client ==ₛ "/robot_2/inject_fault";
  response = some (record { success = value; message = "Fault injected" });
}

abbrev wired_server : FleetServer Fixed (Documents Fixed) (List Frame)
wired_server = record server { fault_clients = ("robot_2", "/robot_2/inject_fault") ∷ [] }

abbrev parameters : ServerParameters Fixed
parameters = record (default_parameters {D = Fixed}) { num_robots = pos 2 }

abbrev started : FleetProcess Fixed (Documents Fixed) (List Frame)
started = record {
  node = (start_broker broker parameters (add_robots 1 2 (new_node parameters [] []))).1;
  grpc = create (grpc_address parameters.grpc_port);
}

-- A machine that refuses nothing.
abbrev pub runtime : Runtime
runtime = record { declares = returned tt; interfaces = returned tt; threads = returned tt }

started_returned :
    construct runtime (λ uri name. returned []) broker [] parameters ≡ returned started
unfolding construct start_broker default_parameters connect setup_topology
started_returned = refl
