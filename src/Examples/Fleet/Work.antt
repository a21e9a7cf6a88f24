-- ===== src/Examples/Fleet/Work.antt =====
-- The theorems on the fleet server from its start on, at the fleet of the parent:
-- src/fms_fleet_server.
use warehouse_fleet_manageme.Common.{
  Bool, ◌⊎◌, arith, String, ◌≡◌, refl, true, some, List, [], ◌∷◌, All, ◌==ₛ◌,
}
use warehouse_fleet_manageme.Common.TextMaps.{find, assign}
use warehouse_fleet_manageme.Float.Fixed.{Fixed, fixed_double}
use warehouse_fleet_manageme.Messages.{RobotStatus, IsWire}
use warehouse_fleet_manageme.Fleet.Effect.{Result, returned, threw, M}
use warehouse_fleet_manageme.Common.Decimal.{to_string}
use warehouse_fleet_manageme.Fleet.Allocator.{score, improves, scan, select_best_robot}
use warehouse_fleet_manageme.Fleet.Store.{
  Fields, open_store, upsert_robot, insert_telemetry, insert_task,
}
use warehouse_fleet_manageme.Fleet.Store.Memory.{Documents, memory, memory-IsMongo}
use warehouse_fleet_manageme.Fleet.Node.{
  FleetServer, SubmitResult, robot_status_cb, submit_task, task_request_cb, select_robot,
  dispatch_assignment, stamp_assignment,
}
use warehouse_fleet_manageme.Fleet.Node.Consume.{handle_request}
use warehouse_fleet_manageme.Fleet.Node.Entry.{forget, with_settled, entries_agree}
use warehouse_fleet_manageme.Fleet.Node.Mirror.{IsMirrored, status, submitted, Served-IsMirrored}
use warehouse_fleet_manageme.Fleet.Grpc.Server.{
  create, build_and_start, finished, wait, shutdowns, run_ends,
}
use warehouse_fleet_manageme.Fleet.Setup.{FleetProcess, construct}
use warehouse_fleet_manageme.Fleet.Main.{
  ExitKind, aborted, IsSpin, Concludes, fleet_server_main, fleet_server_main_ends,
}
use warehouse_fleet_manageme.Fleet.System.Again.{submit_task_again}
use warehouse_fleet_manageme.Fleet.Setup.Ready.{IsReady, construct-IsReady}
use warehouse_fleet_manageme.Fleet.System.{AtWork, Events, here, next}
use warehouse_fleet_manageme.Fleet.System
use warehouse_fleet_manageme.Fleet.System.Serving.{IsDelivered}
use warehouse_fleet_manageme.Fleet.System.Started.{idle, published-IsDelivered}
use warehouse_fleet_manageme.Fleet.System.Entries.{Events-trans, entries-Goes}
use warehouse_fleet_manageme.Examples.Fleet.{
  runtime, Frame, Asked, broker, broker-IsBroker, json, empty_server, server, task, times, order,
  status_of, parameters, started, started_returned,
}

abbrev pub Server : Type 0
Server = FleetServer Fixed (Documents Fixed) (List Frame)

abbrev pub dump : Fields Fixed → String
dump doc = ""

abbrev second : RobotStatus Fixed
second = status_of "robot_2" 0 5 0 100

abbrev reported : FleetServer Fixed (Documents Fixed) (List Frame)
reported = (robot_status_cb memory second started.node).1

abbrev pub working : FleetServer Fixed (Documents Fixed) (List Frame)
working = (task_request_cb memory times task reported).1

-- A fleet that sent no status.
abbrev unheard : FleetServer Fixed (Documents Fixed) (List Frame)
unheard = record empty_server {
  robot_index = ("robot_1", 0) ∷ ("robot_2", 1) ∷ ("robot_3", 2) ∷ [];
}

task-IsWire : IsWire task
task-IsWire = record { task_type = omega arith; priority = omega arith; nanosec = omega arith }

pub worked : Events json memory broker dump (idle started.node) (idle working)
worked =
    Events-trans json memory broker dump (next here (System.status (idle started.node) second))
      ((entries-Goes json memory broker dump times task order [] [] reported task-IsWire).0)

construct-IsReady_example : IsReady broker Asked parameters started
construct-IsReady_example =
    construct-IsReady broker Asked broker-IsBroker parameters runtime (λ uri name. returned []) []
      started started_returned

run_ends_example :
    wait (shutdowns 1 (build_and_start (λ a. a ==ₛ "x") (shutdowns 2 (create "x")))) ≡ finished
run_ends_example = run_ends (λ a. a ==ₛ "x") "x" 2 1

entries_agree_example :
    let a = submit_task memory times task server in
    (task_request_cb memory times task server ≡ (forget a.0, a.1))
    × (handle_request json memory broker times 4 (some task) server
        ≡ with_settled json memory broker 4 a)
entries_agree_example = entries_agree json memory broker times 4 task server

published-IsDelivered_example :
    All (IsDelivered working) working.published
    × All (λ e. e.1.robot_id ≡ e.0) working.latest_status
published-IsDelivered_example =
    published-IsDelivered json memory broker dump parameters runtime (λ uri name. returned []) []
      started (idle working) started_returned worked

abbrev known : FleetServer Fixed (Documents Fixed) (List Frame)
known = (robot_status_cb memory second unheard).1

abbrev answered : SubmitResult
answered = record {
  accepted = true;
  task_id = "task_7";
  robot_id = "robot_2";
  message = "Assigned";
}

unheard-IsMirrored : IsMirrored memory unheard
unfolding find
unheard-IsMirrored id st e = cc

known-IsMirrored : IsMirrored memory known
unfolding robot_status_cb upsert_robot insert_telemetry
known-IsMirrored =
    Served-IsMirrored memory broker dump memory-IsMongo unheard known
      (status second unheard known refl) unheard-IsMirrored

known_submits :
    submit_task memory times task known
    ≡ (returned answered, (submit_task memory times task known).1)
unfolding submit_task select_robot dispatch_assignment select_best_robot scan improves score find
    insert_task to_string stamp_assignment robot_status_cb assign upsert_robot insert_telemetry
known_submits = refl

Served-IsMirrored_example : IsMirrored memory (submit_task memory times task known).1
Served-IsMirrored_example =
    Served-IsMirrored memory broker dump memory-IsMongo known
      (submit_task memory times task known).1 (submitted times task answered known _ known_submits)
      known-IsMirrored

abbrev once : FleetServer Fixed (Documents Fixed) (List Frame)
once = (submit_task memory times task known).1

abbrev twice : FleetServer Fixed (Documents Fixed) (List Frame)
twice = (submit_task memory times task once).1

once_submits : submit_task memory times task once ≡ (returned answered, twice)
unfolding submit_task select_robot dispatch_assignment select_best_robot scan improves score find
    insert_task to_string stamp_assignment robot_status_cb assign upsert_robot insert_telemetry
once_submits = refl

submit_task_again_example :
    (answered.accepted ≡ answered.accepted) × (answered.robot_id ≡ answered.robot_id)
submit_task_again_example =
    submit_task_again memory times times task answered answered known once twice known_submits
      once_submits

abbrev everywhere : String → Bool
everywhere address = true

abbrev client : String → Result (Unit {0})
client uri = returned tt

abbrev database : Unit {0} → String → Documents Fixed
database c name = []

-- A process that hears one status and ends.
abbrev hears : M Server (Unit {0})
hears s = (returned tt, (robot_status_cb memory second s).1)

hears-IsSpin : (node : Server) → IsSpin json memory broker dump parameters hears node
hears-IsSpin node = ([], next here (System.status (idle node) second))

abbrev exited : ExitKind Fixed (Documents Fixed) (List Frame)
exited = fleet_server_main runtime true (λ a. true) hears client database broker [] parameters

fleet_server_main_ends_example :
    ((construct runtime (open_store client database) broker [] parameters ≡ threw)
      × (exited ≡ aborted))
    ⊎ ((f : FleetProcess Fixed (Documents Fixed) (List Frame)) × (construct runtime
            (open_store client database)
            broker
            []
            parameters
          ≡ returned f)
        × Concludes json memory broker dump parameters true (λ a. true) (hears f.node) exited)
fleet_server_main_ends_example =
    fleet_server_main_ends json memory broker dump parameters runtime true (λ a. true) hears client
      database [] hears-IsSpin
