-- ===== src/Warehouse.antt =====
-- The fleet server and a robot together: what src/fms_fleet_server sends, src/fms_robot_agent does,
-- and what it reports.
pub mod Served
pub mod World
use warehouse_fleet_manageme.Common.{
  ℕ, pos, String, ◌≡◌, refl, sym, ap, ◌∙◌, true, none, some, List, ◌∷◌, inl, inr,
}
use warehouse_fleet_manageme.Float.{Double, IsIeee}
use warehouse_fleet_manageme.Messages.{TaskAssignment, TaskCompletion}
use warehouse_fleet_manageme.Fleet.Names.{task_result_to_string}
use warehouse_fleet_manageme.Fleet.Effect.{returned}
use warehouse_fleet_manageme.Fleet.Store.{Fields, Mongo, IsMongo, one_field, update_task_completion}
use warehouse_fleet_manageme.Fleet.Broker.{Amqp}
use warehouse_fleet_manageme.Fleet.Node.{FleetServer, Times, stamp_assignment, task_completion_cb}
use warehouse_fleet_manageme.Fleet.Node.Submit.{
  IsTracked, Takes, outgoing, refused, submit_task_assigns,
}
use warehouse_fleet_manageme.Fleet.Grpc.{
  SubmitTaskRequest, SubmitTaskResponse, GetTaskStatusResponse, task_of, submit_task_call,
  get_task_status_call,
}
use warehouse_fleet_manageme.Fleet.Grpc.Journey.{
  worked, submit_call_lem, response_unique, not_refused, task_journey,
}
use warehouse_fleet_manageme.Robot.Agent.{Agent, active}
use warehouse_fleet_manageme.Robot.Nodes.Report.{completion, tick}

same_head : {A : Type 0} {x y : A} {xs ys : List A} → x ∷ xs ≡ y ∷ ys → x ≡ y
same_head e = cc

module _ {D : Type 0} ⦃d : Double D⦄ where
  completion-task_id :
      (stamped ended : ℕ) (a : Agent D) (t : TaskAssignment D)
      → a.current_task ≡ some t
      → (completion stamped ended a).task_id ≡ t.task_id
  unfolding completion
  completion-task_id stamped ended a t e = rw e refl

  tick-completions :
      (stamped ended : ℕ) (a : Agent D)
      → a.completion_pub ≡ active
      → (tick stamped ended a).0.completions ≡ completion stamped ended a ∷ a.completions
  unfolding tick
  tick-completions stamped ended a e = rw e refl

  -- What the service answers for a task that a robot has done.
  abbrev pub done : SubmitTaskResponse → TaskCompletion D → GetTaskStatusResponse D
  done response msg = record {
    found = true;
    task_id = response.task_id;
    robot_id = response.robot_id;
    status = "COMPLETED";
    result = pos 0;
    duration_secs = msg.duration_secs;
    error_message = "";
  }

  worked-done :
      (response : SubmitTaskResponse) (stamped ended : ℕ) (a : Agent D) (t : TaskAssignment D)
      → a.current_task ≡ some t
      → worked response (completion stamped ended a) ≡ done response (completion stamped ended a)
  unfolding completion task_result_to_string
  worked-done response stamped ended a t e = rw e refl

module _ {D DB Q : Type 0} ⦃d : Double D⦄ (mongo : Mongo D DB) (laws : IsIeee D) where
  -- The task that went out has the id and the robot that were answered.
  pub published-task_id :
      (now : Times) (request : SubmitTaskRequest D) (s s1 : FleetServer D DB Q)
      (response : SubmitTaskResponse) (i : ℕ) (t : TaskAssignment D)
      → IsTracked s
      → Takes mongo now (task_of request) s.db
      → submit_task_call mongo now request s ≡ (returned response, s1)
      → response.accepted ≡ true
      → s1.published ≡ (i, t) ∷ s.published
      → (t.task_id ≡ response.task_id) × (t.robot_id ≡ response.robot_id)
  unfolding stamp_assignment
  published-task_id now request s s1 response i t tracked takes e accepted p =
      elim (submit_task_assigns mongo laws now (task_of request) s tracked takes) [
        | inl (_, r) ↦ absurd (
            not_refused response s s1 (sym e ∙ submit_call_lem mongo now request s s refused r)
              accepted)
        | inr (id, s', (best, j, db', _, _, _, q), r) ↦
            let c = sym e ∙ submit_call_lem mongo now request s s' _ r in
            let went : t ≡ outgoing now (task_of request) id =
              ap (λ x. x.1)
                (same_head (sym p ∙ ap (λ x. x.1.published) c ∙ ap (λ x. x.published) q)) in
            let answer = response_unique c in
            (
              ap (λ x. x.task_id) went ∙ sym (ap (λ x. x.task_id) answer),
              ap (λ x. x.robot_id) went ∙ sym (ap (λ x. x.robot_id) answer),
            )
      ]

  -- With numbers and a database that meet their laws, where each robot that sent a status has a
  -- publisher, the database takes the task and holds none of its id: a task that `SubmitTask`
  -- accepts goes out, with the id and to the robot that are answered, and when a robot whose
  -- current task it is reports it, on an active publisher, the robot publishes a completion after
  -- which, if the database takes it, `GetTaskStatus` answers that the task is COMPLETED by the
  -- robot to which it was given, in the time that the robot took.
  order_completed :
      (amqp : Amqp Q) (dump : Fields D → String) (database : IsMongo mongo) (now : Times)
      (request : SubmitTaskRequest D) (s s1 : FleetServer D DB Q) (response : SubmitTaskResponse)
      (i : ℕ) (t : TaskAssignment D) (a : Agent D) (stamped ended : ℕ) (db'' : DB)
      → IsTracked s
      → Takes mongo now (task_of request) s.db
      → submit_task_call mongo now request s ≡ (returned response, s1)
      → response.accepted ≡ true
      → mongo.find_one "tasks" (one_field "task_id" response.task_id) s.db ≡ (returned none, s.db)
      → s1.published ≡ (i, t) ∷ s.published
      → a.current_task ≡ some t
      → a.completion_pub ≡ active
      → update_task_completion mongo (completion stamped ended a) s1.db ≡ (returned tt, db'')
      → (t.task_id ≡ response.task_id)
        × (t.robot_id ≡ response.robot_id)
        × ((msg : TaskCompletion D) × ((tick stamped ended a).0.completions ≡ msg ∷ a.completions)
            × ((get_task_status_call mongo response.task_id
                  (task_completion_cb mongo amqp dump msg s1).1).0
                ≡ returned (done response msg)))
  order_completed amqp dump database now request s s1 response i t a stamped ended db'' tracked
        takes e accepted absent p current on u =
      let (id, robot) =
        published-task_id now request s s1 response i t tracked takes e accepted p in
      let (_, finished) =
        task_journey mongo amqp dump laws database now request s s1 response
          (completion stamped ended a) db'' tracked takes e accepted absent
          (completion-task_id stamped ended a t current ∙ id) u in
      (
        id,
        robot,
        (
          completion stamped ended a,
          tick-completions stamped ended a on,
          finished ∙ ap (λ r. returned r) (worked-done response stamped ended a t current),
        ),
      )
