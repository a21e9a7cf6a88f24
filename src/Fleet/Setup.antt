-- ===== src/Fleet/Setup.antt =====
-- How the fleet server starts and ends: the constructor and the destructor of fleet_server_node.cpp
-- and the process of fleet_server_main.cpp, src/fms_fleet_server. Opening a database is a
-- parameter.
pub mod Ready
pub mod Errors
pub mod Ends
use Prim.Native.String.{◌++◌}
use warehouse_fleet_manageme.Common.{
  ◌≡◌, ℕ, zero, suc, ◌+◌, ℤ, pos, negsuc, String, Bool, true, false, List, [], Option, none, some,
}
use warehouse_fleet_manageme.Common.Decimal.{to_string}
use warehouse_fleet_manageme.Float.{Double}
use warehouse_fleet_manageme.Fleet.Effect.{Result, returned, threw, M, pure, ◌>>=◌, ◌>>◌, continue}
use warehouse_fleet_manageme.Fleet.Broker.{Amqp, connect, setup_topology, disconnect}
use warehouse_fleet_manageme.Fleet.Grpc.Server.{GrpcServer, create, shutdown}
use warehouse_fleet_manageme.Fleet.Node.{FleetServer, add_robots, on_broker}

-- The parameters that the constructor declares.
pub record ServerParameters (D : Type 0) : Type 0 where
  pub num_robots : ℤ
  pub soc_weight : D
  pub mongo_uri : String
  pub mongo_db : String
  pub rabbitmq_host : String
  pub rabbitmq_port : ℤ
  pub rabbitmq_user : String
  pub rabbitmq_password : String
  pub grpc_port : ℤ

-- Which calls of rclcpp and of the standard library return in the constructor: those for the
-- parameters of the node and of the database; those for the subscriptions, publishers, clients and
-- the timer, and for the parameters of the broker; those for the two threads and the port.
pub record Runtime : Type 0 where
  pub declares : Result (Unit {0})
  pub interfaces : Result (Unit {0})
  pub threads : Result (Unit {0})

-- A call that may throw, and the code after it.
abbrev pub after_call : {A : Type 0} → Result (Unit {0}) → Result A → Result A
after_call threw r = threw
after_call (returned _) r = r

pub after_call_returned :
    {A : Type 0} (c : Result (Unit {0})) (r : Result A) (x : A)
    → after_call c r ≡ returned x
    → r ≡ returned x
after_call_returned threw r x e = cc
after_call_returned (returned _) r x e = e

-- The node and the server of its gRPC service.
pub record FleetProcess (D DB Q : Type 0) : Type 0 where
  pub node : FleetServer D DB Q
  pub grpc : GrpcServer

-- `std::to_string` of an `int`.
abbrev pub int_to_string : ℤ → String
int_to_string (pos n) = to_string n
int_to_string (negsuc n) = "-" ++ to_string (suc n)

-- The robot_rounds of `for (int i = 1; i <= n; ++i)`.
abbrev pub robot_rounds : ℤ → ℕ
robot_rounds (pos n) = n
robot_rounds (negsuc n) = 0

unfoldable pub default_parameters : {D : Type 0} ⦃d : Double D⦄ → ServerParameters D
default_parameters ⦃d⦄ = record {
  num_robots = pos 4;
  soc_weight = d.decimal 5 1;
  mongo_uri = "mongodb://localhost:27017";
  mongo_db = "fms";
  rabbitmq_host = "localhost";
  rabbitmq_port = pos 5672;
  rabbitmq_user = "guest";
  rabbitmq_password = "guest";
  grpc_port = pos 50051;
}

unfoldable pub grpc_address : ℤ → String
grpc_address grpc_port = "0.0.0.0:" ++ int_to_string grpc_port

module _ {D DB Q : Type 0} where
  -- The members before the body of the constructor, with the database opened and a connection that
  -- was not used.
  unfoldable pub new_node : ServerParameters D → DB → Q → FleetServer D DB Q
  new_node p db conn = record {
    num_robots = p.num_robots;
    soc_weight = p.soc_weight;
    latest_status = [];
    robot_index = [];
    assignment_topics = [];
    fault_clients = [];
    db = db;
    conn = conn;
    rabbitmq_running = false;
    published = [];
  }

  abbrev pub run_consumer : M (FleetServer D DB Q) (Unit {0})
  run_consumer s = (returned tt, record s { rabbitmq_running = true })

  -- The connection to the broker, its topology, and the start of the consumer.
  unfoldable pub start_broker : Amqp Q → ServerParameters D → M (FleetServer D DB Q) (Unit {0})
  start_broker amqp p = do
    on_broker (connect amqp p.rabbitmq_host p.rabbitmq_port p.rabbitmq_user p.rabbitmq_password)
    on_broker (setup_topology amqp)
    run_consumer

  abbrev serve :
      Runtime
      → ServerParameters D
      → Result (Unit {0}) × FleetServer D DB Q
      → Result (FleetProcess D DB Q)
  serve runtime p (returned _, s) =
      after_call runtime.threads
        (returned (record { node = s; grpc = create (grpc_address p.grpc_port) }))
  serve runtime p (threw, s) = threw

  abbrev opened :
      Runtime → Amqp Q → Q → ServerParameters D → Result DB → Result (FleetProcess D DB Q)
  opened runtime amqp conn p threw = threw
  opened runtime amqp conn p (returned db) = after_call runtime.interfaces (
      serve runtime p
        (start_broker amqp p (add_robots 1 (robot_rounds p.num_robots) (new_node p db conn))))

  -- `open_db` connects to a URI and takes the database of a name; `conn` is a new connection.
  unfoldable pub construct :
      Runtime
      → (String → String → Result DB)
      → Amqp Q
      → Q
      → ServerParameters D
      → Result (FleetProcess D DB Q)
  unfolding start_broker new_node grpc_address
  construct runtime open_db amqp conn p =
      after_call runtime.declares (opened runtime amqp conn p (open_db p.mongo_uri p.mongo_db))

  -- The destructor, and then those of the members. The consumer leaves its loop at the next test.
  unfoldable pub destruct : Amqp Q → FleetProcess D DB Q → FleetProcess D DB Q
  destruct amqp p = record {
    node = record (p.node) { rabbitmq_running = false; conn = disconnect amqp p.node.conn };
    grpc = shutdown p.grpc;
  }
