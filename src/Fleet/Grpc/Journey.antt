-- ===== src/Fleet/Grpc/Journey.antt =====
-- A task from the gRPC call that submits it to its completion: fleet_grpc_server.cpp and
-- fleet_server_node.cpp of src/fms_fleet_server.
use warehouse_fleet_manageme.Common.{
  pos, String, ◌≡◌, ◌∙◌, sym, ap, true, Option, none, some, arith, inl, inr,
}
use warehouse_fleet_manageme.Float.{Double, nought, IsIeee}
use warehouse_fleet_manageme.Messages.{TaskAssignment, TaskCompletion}
use warehouse_fleet_manageme.Fleet.Names.{task_result_to_string}
use warehouse_fleet_manageme.Fleet.Effect.{Result, returned}
use warehouse_fleet_manageme.Fleet.Store.{
  Fields, TaskRecord, find_task, Mongo, IsMongo, one_field, update_task_completion,
}
use warehouse_fleet_manageme.Fleet.Store.Lifecycle.{
  task_lifecycle, assigned_record, completed_record,
}
use warehouse_fleet_manageme.Fleet.Broker.{Amqp, publish_failed}
use warehouse_fleet_manageme.Fleet.Node.{
  FleetServer, Times, SubmitResult, submit_task, get_task_status, task_completion_cb,
  stamp_assignment,
}
use warehouse_fleet_manageme.Fleet.Node.Submit.{
  IsTracked, Takes, IsAssigned, outgoing, submit_task_assigns, refused,
}
use warehouse_fleet_manageme.Fleet.Grpc.{
  SubmitTaskRequest, SubmitTaskResponse, GetTaskStatusResponse, task_of, submit_response,
  task_response, submit_task_call, get_task_status_call,
}

module _ {D DB Q : Type 0} ⦃d : Double D⦄ (mongo : Mongo D DB) (amqp : Amqp Q)
    (dump : Fields D → String) where
  -- The database after a completion, where the update does not throw.
  completion_db :
      (completion : TaskCompletion D) (s : FleetServer D DB Q) (db : DB)
      → update_task_completion mongo completion s.db ≡ (returned tt, db)
      → (task_completion_cb mongo amqp dump completion s).1.db ≡ db
  unfolding task_completion_cb publish_failed
  completion_db completion s db e = ground arith

module _ {D DB Q : Type 0} ⦃d : Double D⦄ (mongo : Mongo D DB) where
  pub submit_call_lem :
      (now : Times) (request : SubmitTaskRequest D) (s s' : FleetServer D DB Q) (r : SubmitResult)
      → submit_task mongo now (task_of request) s ≡ (returned r, s')
      → submit_task_call mongo now request s ≡ (returned (submit_response r), s')
  unfolding submit_task_call
  submit_call_lem now request s s' r e = rw e

  status_call_lem :
      (task_id : String) (s : FleetServer D DB Q) (r : Option (TaskRecord D))
      → find_task mongo task_id s.db ≡ (returned r, s.db)
      → get_task_status_call mongo task_id s ≡ (returned (task_response task_id r), s)
  unfolding get_task_status_call get_task_status
  status_call_lem task_id s r e = rw e

module _ {D : Type 0} ⦃d : Double D⦄ where
  -- What `GetTaskStatus` answers while the robot of an accepted task works, and afterwards.
  abbrev pub working : SubmitTaskResponse → GetTaskStatusResponse D
  working response = record {
    found = true;
    task_id = response.task_id;
    robot_id = response.robot_id;
    status = "ASSIGNED";
    result = pos 0;
    duration_secs = nought;
    error_message = "";
  }

  abbrev pub worked : SubmitTaskResponse → TaskCompletion D → GetTaskStatusResponse D
  worked response completion = record {
    found = true;
    task_id = response.task_id;
    robot_id = response.robot_id;
    status = task_result_to_string completion.result;
    result = pos completion.result;
    duration_secs = completion.duration_secs;
    error_message = completion.error_message;
  }

pub response_unique :
    {S : Type 0} {r r' : SubmitTaskResponse} {s s' : S}
    → ◌≡◌ {A = Result SubmitTaskResponse × S} (returned r, s) (returned r', s')
    → r ≡ r'
response_unique e = cc

pub not_refused :
    {S : Type 0} (r : SubmitTaskResponse) (s s' : S)
    → ◌≡◌ {A = Result SubmitTaskResponse × S}
        (returned r, s')
        (returned (submit_response refused), s)
    → ¬ (r.accepted ≡ true)
not_refused r s s' e accepted = cc (ap (λ r. r.accepted) (response_unique e))

module _ {D DB Q : Type 0} ⦃d : Double D⦄ (mongo : Mongo D DB) (amqp : Amqp Q)
    (dump : Fields D → String) where
  -- What `GetTaskStatus` answers before the completion of an accepted task, and after it.
  abbrev pub IsRecorded : SubmitTaskResponse → TaskCompletion D → FleetServer D DB Q → Type 0
  IsRecorded response completion s1 =
      (get_task_status_call mongo response.task_id s1 ≡ (returned (working response), s1))
      × ((get_task_status_call mongo response.task_id
            (task_completion_cb mongo amqp dump completion s1).1).0
          ≡ returned (worked response completion))

  module _ (laws : IsIeee D) (database : IsMongo mongo) where
    journey_of :
        (now : Times) (task : TaskAssignment D) (id : String) (s s1 : FleetServer D DB Q)
        (completion : TaskCompletion D) (db'' : DB)
        → IsAssigned mongo now task s id s1
        → mongo.find_one "tasks" (one_field "task_id" (outgoing now task id).task_id) s.db
          ≡ (returned none, s.db)
        → completion.task_id ≡ (outgoing now task id).task_id
        → update_task_completion mongo completion s1.db ≡ (returned tt, db'')
        → IsRecorded
            (record {
              accepted = true;
              task_id = (outgoing now task id).task_id;
              robot_id = id;
              message = "Assigned";
            })
            completion
            s1
    unfolding stamp_assignment task_response
    journey_of now task id s s1 completion db'' (best, i, db', b, f, g, e) absent same u =
        let stored : s1.db ≡ db' = ap (λ x. x.db) e in
        let (now_working, then_worked) =
          task_lifecycle mongo database (outgoing now task id) completion s.db db' db'' same absent
            g (rw (sym stored) u) in
        (
          status_call_lem mongo _ s1 (some (assigned_record (outgoing now task id)))
              (rw stored now_working),
          ap (λ r. r.0)
              (status_call_lem mongo _ (task_completion_cb mongo amqp dump completion s1).1
                (some (completed_record (outgoing now task id) completion))
                (rw (completion_db mongo amqp dump completion s1 db'' u) then_worked)),
        )

    -- Where each robot that sent a status has a publisher, the database takes the task, and it
    -- holds no task of the id that is answered: a task that `SubmitTask` accepts is answered by
    -- `GetTaskStatus` as ASSIGNED to the robot that was answered, and, after a completion of this
    -- id that the database takes, with the name, the code, the duration and the message of its
    -- result, still of that robot.
    pub task_journey :
        (now : Times) (request : SubmitTaskRequest D) (s s1 : FleetServer D DB Q)
        (response : SubmitTaskResponse) (completion : TaskCompletion D) (db'' : DB)
        → IsTracked s
        → Takes mongo now (task_of request) s.db
        → submit_task_call mongo now request s ≡ (returned response, s1)
        → response.accepted ≡ true
        → mongo.find_one "tasks" (one_field "task_id" response.task_id) s.db ≡ (returned none, s.db)
        → completion.task_id ≡ response.task_id
        → update_task_completion mongo completion s1.db ≡ (returned tt, db'')
        → IsRecorded response completion s1
    task_journey now request s s1 response completion db'' t takes e accepted absent same u =
        elim (submit_task_assigns mongo laws now (task_of request) s t takes) [
          | inl (_, r) ↦ absurd (
              not_refused response s s1 (sym e ∙ submit_call_lem mongo now request s s refused r)
                accepted)
          | inr (id, s', a, r) ↦
              let c = sym e ∙ submit_call_lem mongo now request s s' _ r in
              let answer = response_unique c in
              let state : s1 ≡ s' = ap (λ x. x.1) c in
              let name : (outgoing now (task_of request) id).task_id ≡ response.task_id =
                ap (λ r. r.task_id) (sym answer) in
              rw (answer, state)
                (journey_of now (task_of request) id s s' completion db'' a (rw name absent)
                  (rw name same) (rw (sym state) u))
        ]
