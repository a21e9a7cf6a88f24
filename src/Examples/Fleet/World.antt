-- ===== src/Examples/Fleet/World.antt =====
-- A fleet server and a robot that gets its task: src/fms_fleet_server and src/fms_robot_agent.
use mathlib.Core.List.{Memᴰ}
use mathlib.Core.List.Memᴰ.{head}
use warehouse_fleet_manageme.Common.{◌≡◌, refl, sym, subst, some, [], ◌∷◌, List}
use warehouse_fleet_manageme.Float.Fixed.{Fixed, fixed_double}
use warehouse_fleet_manageme.Messages.{TaskAssignment}
use warehouse_fleet_manageme.Fleet.Effect.{returned}
use warehouse_fleet_manageme.Fleet.Store.Memory.{Documents, memory}
use warehouse_fleet_manageme.Common.TextMaps.{find, assign, before}
use warehouse_fleet_manageme.Common.Decimal.{to_string}
use warehouse_fleet_manageme.Fleet.Allocator.{score, improves, scan, select_best_robot}
use warehouse_fleet_manageme.Fleet.Store.{upsert_robot, insert_telemetry, insert_task}
use warehouse_fleet_manageme.Fleet.Broker.{connect, setup_topology}
use warehouse_fleet_manageme.Fleet.Setup.{new_node, start_broker, default_parameters}
use warehouse_fleet_manageme.Fleet.Node.View.{get_elem?}
use warehouse_fleet_manageme.Fleet.Node.{
  add_robots, stamp_assignment, submit_task, task_request_cb, robot_status_cb, select_robot,
  dispatch_assignment,
}
use warehouse_fleet_manageme.Fleet.System.Started.{idle}
use warehouse_fleet_manageme.Robot.System.{request, assignment, call, start, Run, after, start_leaf}
use warehouse_fleet_manageme.Robot.System.Custody.{Keeps}
use warehouse_fleet_manageme.Robot.Tree.Served.{slots}
use warehouse_fleet_manageme.Warehouse.World.{
  World, Turns, here, next, work, deliver, IsOwn, tasks_addressed,
}
use warehouse_fleet_manageme.Examples.Fleet.{
  runtime, Frame, broker, json, parameters, started, started_returned, task, times,
}
use warehouse_fleet_manageme.Examples.Fleet.Work.{dump, working, worked}
use warehouse_fleet_manageme.Examples.Robot.{agent, new_run}
use warehouse_fleet_manageme.Examples.Played.{reachable}

abbrev launched : World Fixed (Documents Fixed) (List Frame)
launched = record {
  server = idle working;
  robot = record new_run {
    system = record (new_run.system) { agent = record agent { robot_name = "robot_2" } };
  };
}

abbrev sent : TaskAssignment Fixed
sent = stamp_assignment times (record task { robot_id = "robot_2" })

abbrev given : Run Fixed
given = record (launched.robot) { system = call (assignment sent) launched.robot.system }

abbrev taken : World Fixed (Documents Fixed) (List Frame)
taken = record launched { robot = after request (start_leaf request reachable given.system) }

-- The task went out to the second robot.
published :
    (working.published ≡ (1, sent) ∷ [])
    × (get_elem? working.assignment_topics 1 ≡ some "/robot_2/task_assignment")
unfolding task_request_cb robot_status_cb submit_task select_robot dispatch_assignment
    select_best_robot scan improves score find assign insert_task to_string stamp_assignment
    upsert_robot insert_telemetry start_broker default_parameters connect setup_topology add_robots
    new_node before
published = (refl, refl)

turned : Turns json memory broker dump "robot_2" launched taken
turned =
    next
      (next here
        (deliver sent (1, subst (Memᴰ (1, sent)) (sym published.0) (head refl), published.1)))
      (work taken.robot (start request reachable refl refl) refl)

tasks_addressed_example : Keeps (IsOwn working "robot_2") "robot_2" (slots taken.robot.system.agent)
tasks_addressed_example =
    tasks_addressed json memory broker dump parameters "robot_2" runtime (λ uri name. returned [])
      [] started launched taken started_returned worked
      (record {
        named = refl;
        no_current = refl;
        no_interrupted = refl;
        no_pending = refl;
        no_reports = refl;
      })
      turned
