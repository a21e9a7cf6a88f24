-- ===== src/Examples/Warehouse.antt =====
-- A fleet server with one of its robots, and the process of that robot: src/fms_fleet_server and
-- src/fms_robot_agent.
use warehouse_fleet_manageme.Common.{none, ◌≡◌, ◌⊎◌, refl, true, false, some, [], ◌∷◌, pos}
use warehouse_fleet_manageme.Float.{nought}
use warehouse_fleet_manageme.Common.TextMaps.{find}
use warehouse_fleet_manageme.Common.Decimal.{to_string}
use warehouse_fleet_manageme.Float.Fixed.{Fixed, fixed_double, Fixed-IsIeee}
use warehouse_fleet_manageme.Messages.{TaskAssignment, TaskCompletion}
use warehouse_fleet_manageme.Fleet.Effect.{returned}
use warehouse_fleet_manageme.Fleet.Allocator.{score, improves, scan, select_best_robot}
use warehouse_fleet_manageme.Fleet.Store.{update_task_completion, insert_task}
use warehouse_fleet_manageme.Fleet.Store.Memory.{Documents, memory, memory-IsMongo}
use warehouse_fleet_manageme.Fleet.Node.{
  submit_task, select_robot, dispatch_assignment, stamp_assignment, task_completion_cb,
}
use warehouse_fleet_manageme.Fleet.Node.Submit.{outgoing}
use warehouse_fleet_manageme.Fleet.Grpc.{submit_task_call, get_task_status_call, task_of}
use warehouse_fleet_manageme.Warehouse.{done}
use warehouse_fleet_manageme.Warehouse.Served.{order_served}
use warehouse_fleet_manageme.Examples.Tree.{Runs, Runs-IsEngine}
use warehouse_fleet_manageme.Examples.Played.Served.{served, served_run, served_ends}
use warehouse_fleet_manageme.Robot.Agent.{Agent, Publisher}
use warehouse_fleet_manageme.Robot.Agent.Lifecycle.{CallbackReturn, success, failure}
use warehouse_fleet_manageme.Robot.Main.{
  Transition, configure, Primary, unconfigured, inactive, active, finalized, Lifecycle, allows,
  target, IsManaged, Surroundings, start, finish,
}
use warehouse_fleet_manageme.Robot.System.{Run, here, next, outside, status_timer, call}
use warehouse_fleet_manageme.Robot.Main.Silent.{unloaded_silent}
use warehouse_fleet_manageme.Robot.Main.Live.{
  IsStarted, IsFinished, start-IsStarted, finish-IsFinished,
}
use warehouse_fleet_manageme.Examples.Fleet.{
  memory-Takes, broker, server, server-IsTracked, times, order, answer, after_order, order_accepted,
  whole,
}
use warehouse_fleet_manageme.Examples.Robot.{agent, new_run}

abbrev sent : TaskAssignment Fixed
sent = outgoing times (task_of order) "robot_2"

abbrev busy : Agent Fixed
busy = record agent {
  robot_name = "robot_2";
  current_task = some sent;
  completion_pub = Publisher.active;
}

order_published : after_order.published ≡ (1, sent) ∷ server.published
unfolding submit_task_call submit_task select_robot dispatch_assignment select_best_robot scan
    improves score find insert_task to_string stamp_assignment
order_published = refl

recorded :
    (msg : TaskCompletion Fixed)
    → (db : Documents Fixed) × (update_task_completion memory msg after_order.db
        ≡ (returned tt, db))
unfolding update_task_completion
recorded msg = (_, refl)

order_served_example :
    (msg : TaskCompletion Fixed) × ((served sent).last.system.agent.completions ≡ msg ∷ [])
    × (((get_task_status_call memory answer.task_id
            (task_completion_cb memory broker (λ doc. "") msg after_order).1).0
          ≡ returned (done answer msg))
        ⊎ ((served sent).last.system.agent.interrupted_task ≡ some sent))
order_served_example =
    order_served memory Fixed-IsIeee Runs Runs-IsEngine broker (λ doc. "") memory-IsMongo times
      order server after_order answer 1 sent (served sent).reach [] server-IsTracked
      (memory-Takes times (task_of order) []) order_accepted refl refl order_published recorded refl
      refl refl (served_run sent).1 (served_ends sent)

-- A library of managed nodes that keeps the primary state and nothing else.
abbrev after_callback : Transition → CallbackReturn → Primary → Primary
after_callback t success s = target t
after_callback t failure s = s

abbrev plain : Lifecycle Primary
plain = record {
  initial = unconfigured;
  primary = λ s. s;
  registered = allows;
  after = after_callback;
}

plain-unconfigured : (s : Primary) → allows configure s ≡ true → s ≡ unconfigured
plain-unconfigured unconfigured e = refl
plain-unconfigured inactive e = cc
plain-unconfigured active e = cc
plain-unconfigured finalized e = cc

plain-IsManaged : IsManaged plain
plain-IsManaged = record {
  starts = refl;
  registers = λ t s. refl;
  succeeds = λ t s e. refl;
  not_configured = plain-unconfigured;
}

abbrev surroundings : Surroundings Fixed
surroundings = record {
  facing = λ yaw. (nought, nought);
  parameters = record {
    robot_name = "robot_2";
    pick_duration_secs = whole 3;
    drop_duration_secs = whole 2;
    recovery_max_attempts = pos 3;
    initial_battery_soc = whole 100;
    charger_pose = [];
  };
  tree_loads = true;
  configured_at = 1;
  activated_at = 2;
}

abbrev fresh : Agent Fixed
fresh = record agent { has_timers = false; has_tree = false }

start-IsStarted_example : IsStarted plain true (start plain surroundings fresh)
start-IsStarted_example = start-IsStarted plain plain-IsManaged surroundings fresh refl refl

finish-IsFinished_example :
    IsFinished plain busy (finish plain surroundings true (record { state = active; agent = busy }))
finish-IsFinished_example =
    finish-IsFinished plain plain-IsManaged surroundings (record { state = active; agent = busy })
      refl

abbrev without_tree : Surroundings Fixed
without_tree = record surroundings { tree_loads = false }

abbrev deaf : Run Fixed
deaf = record new_run {
  system = record (new_run.system) { agent = (start plain without_tree fresh).agent };
}

abbrev ticked : Run Fixed
ticked = record deaf { system = call (status_timer 7 none) deaf.system }

unloaded_silent_example :
    (ticked.system.agent.statuses ≡ fresh.statuses)
    × (ticked.system.agent.completions ≡ fresh.completions)
unloaded_silent_example =
    unloaded_silent plain plain-IsManaged without_tree fresh {r = deaf} {r' = ticked} refl refl
      (next here (outside (status_timer 7 none) refl))
