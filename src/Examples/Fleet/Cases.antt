-- ===== src/Examples/Fleet/Cases.antt =====
-- The theorems on the fleet server at the fleet of the parent: src/fms_fleet_server.
use warehouse_fleet_manageme.Common.{
  pos, String, ◌≡◌, ◌≢◌, ◌↔◌, refl, false, ◌==ₛ◌, none, some, ==ₛ_iff, arith, List, [], ◌∷◌, All,
}
use warehouse_fleet_manageme.Float.Fixed.{Fixed, fixed_double, Fixed-IsIeee}
use warehouse_fleet_manageme.Fleet.Effect.{returned}
use warehouse_fleet_manageme.Fleet.Allocator.{score, improves, scan, select_best_robot}
use warehouse_fleet_manageme.Fleet.Allocator.Best.{
  IsBest, IsNoBetter, select_best_robot-IsBest, select_best_robot-eq-none_iff,
}
use warehouse_fleet_manageme.Fleet.Store.{
  task_to_doc, insert_task, update_task_completion, find_task,
}
use warehouse_fleet_manageme.Fleet.Store.Memory.{Documents, memory, memory-IsMongo}
use warehouse_fleet_manageme.Fleet.Store.Lifecycle.{
  task_lifecycle, assigned_record, completed_record,
}
use warehouse_fleet_manageme.Fleet.Node.{FleetServer}
use warehouse_fleet_manageme.Fleet.Node.Submit.{IsTracked, IsAnswered, submit_task_assigns}
use warehouse_fleet_manageme.Fleet.Node.Consume.{handle_message, rabbitmq_consume_loop}
use warehouse_fleet_manageme.Fleet.Node.Consume.Loop.{consume_loop_returns}
use warehouse_fleet_manageme.Fleet.Node.Consume.Settled.{IsSettled, handle_message_settles}
use warehouse_fleet_manageme.Fleet.Grpc.{task_of}
use warehouse_fleet_manageme.Fleet.Grpc.Journey.{IsRecorded, task_journey}
use warehouse_fleet_manageme.Examples.Fleet.{
  robots, weight, task, Frame, broker, server, times, server-IsTracked, memory-Takes, json,
  completion, order, answer, after_order, order_accepted, report,
}

submit_task_assigns_example : IsAnswered memory times task server
submit_task_assigns_example =
    submit_task_assigns memory Fixed-IsIeee times task server server-IsTracked
      (memory-Takes times task [])

select_best_robot-IsBest_example : IsBest task weight robots "robot_2" (some (pos 447))
unfolding select_best_robot scan improves score
select_best_robot-IsBest_example =
    select_best_robot-IsBest task weight Fixed-IsIeee robots "robot_2" (some (pos 447)) refl

select_best_robot-eq-none_iff_example :
    (select_best_robot robots task weight ≡ none)
    ↔ All (IsNoBetter task weight fixed_double.max) robots
select_best_robot-eq-none_iff_example =
    select_best_robot-eq-none_iff task weight Fixed-IsIeee robots
      (robot_named "robot_1" refl, (robot_named "robot_2" refl, (robot_named "robot_3" refl, tt)))
  where
    robot_named : (id : String) → (id ==ₛ "") ≡ false → id ≢ ""
    robot_named id h e = ground (arith, ==ₛ_iff id "")

handle_message_settles_example :
    (s' : FleetServer Fixed (Documents Fixed) (List Frame)) × (handle_message json memory broker
        times
        (some (record { delivery_tag = 1; body = "{}" }))
        server
      ≡ (returned tt, s'))
    × IsSettled json memory broker times (record { delivery_tag = 1; body = "{}" }) server s'
handle_message_settles_example =
    handle_message_settles json memory broker Fixed-IsIeee times
      (record { delivery_tag = 1; body = "{}" }) server server-IsTracked
      (λ request e. memory-Takes times request [])

consume_loop_returns_example :
    (s' : FleetServer Fixed (Documents Fixed) (List Frame)) × (rabbitmq_consume_loop json memory
        broker
        (times ∷ times ∷ [])
        server
      ≡ (returned tt, s'))
    × IsTracked s'
consume_loop_returns_example =
    consume_loop_returns json memory broker Fixed-IsIeee memory-Takes (times ∷ times ∷ []) server
      server-IsTracked

task_lifecycle_example :
    (find_task memory "task_7" ((("tasks", task_to_doc task) ∷ []))
      ≡ (returned (some (assigned_record task)), ("tasks", task_to_doc task) ∷ []))
    × (find_task memory "task_7"
          (update_task_completion memory completion (("tasks", task_to_doc task) ∷ [])).1
        ≡ (
          returned (some (completed_record task completion)),
          (update_task_completion memory completion (("tasks", task_to_doc task) ∷ [])).1,
        ))
task_lifecycle_example =
    task_lifecycle memory memory-IsMongo task completion [] (("tasks", task_to_doc task) ∷ [])
      (update_task_completion memory completion (("tasks", task_to_doc task) ∷ [])).1 refl refl
      (unfold insert_task in refl) (unfold update_task_completion in refl)

task_journey_example : IsRecorded memory broker (λ doc. "") answer report after_order
task_journey_example =
    task_journey memory broker (λ doc. "") Fixed-IsIeee memory-IsMongo times order server
      after_order answer report (update_task_completion memory report after_order.db).1
      server-IsTracked (memory-Takes times (task_of order) []) order_accepted refl refl refl
      (unfold update_task_completion in refl)
