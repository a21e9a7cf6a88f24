-- ===== src/Fleet/Store/Lifecycle.antt =====
-- The record of a task from its assignment to its completion: mongo_store.cpp of
-- src/fms_fleet_server.
use warehouse_fleet_manageme.Common.{
  pos, String, ◌≡◌, ◌≢◌, refl, ◌∙◌, none, some, arith, false, ◌==ₛ◌, ==ₛ_iff,
}
use warehouse_fleet_manageme.Float.{Double, nought}
use warehouse_fleet_manageme.Messages.{TaskAssignment, TaskCompletion}
use warehouse_fleet_manageme.Fleet.Names.{task_result_to_string}
use warehouse_fleet_manageme.Fleet.Effect.{returned}
use warehouse_fleet_manageme.Fleet.Store.{
  text, int32, double, Fields, Mongo, IsMongo, TaskRecord, at, one_field, set_over, task_to_doc,
  completion_to_set, insert_task, update_task_completion, read_task, find_task,
}

not_id : (j : String) → (j ==ₛ "_id") ≡ false → j ≢ "_id"
not_id j h e = ground (arith, ==ₛ_iff j "_id")

module _ {D : Type 0} ⦃d : Double D⦄ where
  -- What `find_task` shall give for a task that was assigned, and for one that was completed.
  abbrev pub assigned_record : TaskAssignment D → TaskRecord D
  assigned_record task = record {
    task_id = task.task_id;
    robot_id = task.robot_id;
    status = "ASSIGNED";
    result = pos 0;
    duration_secs = nought;
    error_message = "";
  }

  abbrev pub completed_record : TaskAssignment D → TaskCompletion D → TaskRecord D
  completed_record task completion = record {
    task_id = task.task_id;
    robot_id = task.robot_id;
    status = task_result_to_string completion.result;
    result = pos completion.result;
    duration_secs = completion.duration_secs;
    error_message = completion.error_message;
  }

  -- The fields of a document that the records are read from.
  record IsAssigned (task : TaskAssignment D) (view : Fields D) : Type 0 where
    robot_id : at "robot_id" view ≡ some (text task.robot_id)
    status : at "status" view ≡ some (text "ASSIGNED")
    result : at "result" view ≡ none
    duration_secs : at "duration_secs" view ≡ none
    error_message : at "error_message" view ≡ none

  record IsCompleted (task : TaskAssignment D) (completion : TaskCompletion D) (view : Fields D)
      : Type 0 where
    robot_id : at "robot_id" view ≡ some (text task.robot_id)
    status : at "status" view ≡ some (text (task_result_to_string completion.result))
    result : at "result" view ≡ some (int32 (pos completion.result))
    duration_secs : at "duration_secs" view ≡ some (double completion.duration_secs)
    error_message : at "error_message" view ≡ some (text completion.error_message)

  task_to_doc-IsAssigned :
      (task : TaskAssignment D) (view : Fields D)
      → ((j : String) → j ≢ "_id" → at j view ≡ at j (task_to_doc task))
      → IsAssigned task view
  unfolding task_to_doc at
  task_to_doc-IsAssigned task view h = record {
    robot_id = h "robot_id" (not_id _ refl);
    status = h "status" (not_id _ refl);
    result = h "result" (not_id _ refl);
    duration_secs = h "duration_secs" (not_id _ refl);
    error_message = h "error_message" (not_id _ refl);
  }

  completion_to_set-IsCompleted :
      (task : TaskAssignment D) (completion : TaskCompletion D) (view view' : Fields D)
      → IsAssigned task view
      → ((j : String) → at j view' ≡ set_over (at j (completion_to_set completion)) (at j view))
      → IsCompleted task completion view'
  unfolding completion_to_set at
  completion_to_set-IsCompleted task completion view view' a h = record {
    robot_id = h "robot_id" ∙ a.robot_id;
    status = h "status";
    result = h "result";
    duration_secs = h "duration_secs";
    error_message = h "error_message";
  }

  module _ {DB : Type 0} (mongo : Mongo D DB) where
    read_assigned :
        (task : TaskAssignment D) (view : Fields D) (db : DB)
        → IsAssigned task view
        → read_task mongo task.task_id view db ≡ (returned (assigned_record task), db)
    unfolding read_task
    read_assigned task view db a =
        rw (a.robot_id, a.status, a.result, a.duration_secs, a.error_message)

    read_completed :
        (task : TaskAssignment D) (completion : TaskCompletion D) (view : Fields D) (db : DB)
        → IsCompleted task completion view
        → read_task mongo task.task_id view db ≡ (returned (completed_record task completion), db)
    unfolding read_task
    read_completed task completion view db a =
        rw (a.robot_id, a.status, a.result, a.duration_secs, a.error_message)

    module _ (laws : IsMongo mongo) where
      -- If no task of this id was stored, and the driver does not throw, `find_task` gives an
      -- ASSIGNED record of the robot once the task is inserted, and after its completion a record
      -- with the name of the result, its code, its duration and its message, still of the robot
      -- assigned.
      pub task_lifecycle :
          (task : TaskAssignment D) (completion : TaskCompletion D) (db db' db'' : DB)
          → completion.task_id ≡ task.task_id
          → mongo.find_one "tasks" (one_field "task_id" task.task_id) db ≡ (returned none, db)
          → insert_task mongo task db ≡ (returned tt, db')
          → update_task_completion mongo completion db' ≡ (returned tt, db'')
          → (find_task mongo task.task_id db' ≡ (returned (some (assigned_record task)), db'))
            × (find_task mongo task.task_id db''
                ≡ (returned (some (completed_record task completion)), db''))
      unfolding find_task insert_task update_task_completion completion_to_set
      task_lifecycle task completion db db' db'' e absent i u =
          let (view, found, same) =
            laws.find_inserted _ _ _ (task_to_doc task) db db' absent
              (unfold task_to_doc at in refl) i in
          let a = task_to_doc-IsAssigned task view same in
          let (view', found', over) =
            laws.find_updated _ _ _ (completion_to_set completion) view false db' db'' found
              (unfold completion_to_set at in refl) (rw e at u) in
          (
            rw (found, read_assigned task view db' a),
            rw (
              found',
              read_completed task completion view' db''
                  (completion_to_set-IsCompleted task completion view view' a over),
            ),
          )
