-- ===== src/Warehouse/Served.antt =====
-- A task from its submission to its record, over the tree of the robot that does it:
-- src/fms_fleet_server and src/fms_robot_agent.
use warehouse_fleet_manageme.Common.{
  ℕ, String, ◌≡◌, refl, ap, ◌∙◌, true, ◌⊎◌, inl, inr, none, some, List, ◌∷◌,
}
use warehouse_fleet_manageme.Float.{Double, IsIeee}
use warehouse_fleet_manageme.Messages.{TaskAssignment, TaskCompletion}
use warehouse_fleet_manageme.Fleet.Names.{task_result_to_string}
use warehouse_fleet_manageme.Fleet.Effect.{returned}
use warehouse_fleet_manageme.Fleet.Store.{Fields, Mongo, IsMongo, one_field, update_task_completion}
use warehouse_fleet_manageme.Fleet.Broker.{Amqp}
use warehouse_fleet_manageme.Fleet.Node.{FleetServer, Times, task_completion_cb}
use warehouse_fleet_manageme.Fleet.Node.Submit.{IsTracked, Takes}
use warehouse_fleet_manageme.Fleet.Grpc.{
  SubmitTaskRequest, SubmitTaskResponse, task_of, submit_task_call, get_task_status_call,
}
use warehouse_fleet_manageme.Fleet.Grpc.Journey.{worked, task_journey}
use warehouse_fleet_manageme.Robot.Agent.{active}
use warehouse_fleet_manageme.Robot.Nodes.Status.{NodeStatus, success}
use warehouse_fleet_manageme.Robot.System.{Run, Reach}
use warehouse_fleet_manageme.Robot.Tree.{Tree, task_execution, History, IsEngine}
use warehouse_fleet_manageme.Robot.Tree.Played.{history, is_unhalted}
use warehouse_fleet_manageme.Robot.Tree.Served.{queue, IsSuccess}
use warehouse_fleet_manageme.Robot.Tree.Served.Task.{task_served}
use warehouse_fleet_manageme.Warehouse.{done, published-task_id}

module _ {D : Type 0} ⦃d : Double D⦄ where
  worked_success :
      (response : SubmitTaskResponse) (msg : TaskCompletion D)
      → IsSuccess msg
      → worked response msg ≡ done response msg
  unfolding task_result_to_string
  worked_success response msg (e, f) = rw (e, f) refl

module _ {D DB Q : Type 0} ⦃d : Double D⦄ (mongo : Mongo D DB) (laws : IsIeee D)
    (Ends : Tree → History → NodeStatus → Type 0) (engine : IsEngine Ends) where
  -- With numbers, a database and an engine that meet their laws, where each robot that sent a
  -- status has a publisher, the database takes the task and every completion and holds no task of
  -- its id: a task that `SubmitTask` accepts and that goes out, given to a robot that has no
  -- current task, that holds it first and whose publisher is active, is done when the tree of this
  -- robot finishes a task without halting a leaf. The robot then has published exactly one
  -- completion more, after which `GetTaskStatus` answers that the task is COMPLETED by the robot to
  -- which it was given, unless a low battery interrupted it and it waits in the robot.
  pub order_served :
      (amqp : Amqp Q) (dump : Fields D → String) (database : IsMongo mongo) (now : Times)
      (request : SubmitTaskRequest D) (s s1 : FleetServer D DB Q) (response : SubmitTaskResponse)
      (i : ℕ) (t : TaskAssignment D) {r r' : Run D} (h : Reach r r')
      (rest : List (TaskAssignment D))
      → IsTracked s
      → Takes mongo now (task_of request) s.db
      → submit_task_call mongo now request s ≡ (returned response, s1)
      → response.accepted ≡ true
      → mongo.find_one "tasks" (one_field "task_id" response.task_id) s.db ≡ (returned none, s.db)
      → s1.published ≡ (i, t) ∷ s.published
      → ((msg : TaskCompletion D)
          → (db'' : DB) × (update_task_completion mongo msg s1.db ≡ (returned tt, db'')))
      → r.system.agent.current_task ≡ none
      → queue r.system.agent.interrupted_task r.system.agent.pending_tasks ≡ t ∷ rest
      → r.system.agent.completion_pub ≡ active
      → is_unhalted h ≡ true
      → Ends task_execution (history h) success
      → (msg : TaskCompletion D) × (r'.system.agent.completions ≡ msg ∷ r.system.agent.completions)
        × (((get_task_status_call mongo response.task_id
                (task_completion_cb mongo amqp dump msg s1).1).0
              ≡ returned (done response msg))
            ⊎ (r'.system.agent.interrupted_task ≡ some t))
  order_served amqp dump database now request s s1 response i t h rest tracked takes e accepted
        absent p records free q on u w =
      let (id, _) =
        published-task_id mongo laws now request s s1 response i t tracked takes e accepted p in
      let (_, (msg, c, good, names)) = task_served Ends engine h t rest free q on u w in
      elim names [
        | inl (same, _) ↦
            let (db'', k) = records msg in
            let (_, finished) =
              task_journey mongo amqp dump laws database now request s s1 response msg db'' tracked
                takes e accepted absent (same ∙ id) k in
            (msg, c, inl (finished ∙ ap (λ x. returned x) (worked_success response msg good)))
        | inr (_, kept) ↦ (msg, c, inr kept)
      ]
