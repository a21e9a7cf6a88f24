-- ===== src/Fleet/Node/Mirror.antt =====
-- The collection of the robots beside the map of the robots: fleet_server_node.cpp and
-- mongo_store.cpp of src/fms_fleet_server.
use warehouse_fleet_manageme.Common.{
  String, ◌≡◌, ◌≢◌, refl, sym, ap, subst, ◌∙◌, Bool, true, false, ◌==ₛ◌, ==ₛ_iff, Option-cases,
  some, not, ◌==◌, inl, inr, arith, if◌then◌else◌,
}
use warehouse_fleet_manageme.Common.TextMaps.{TextMap, find, find-assign}
use warehouse_fleet_manageme.Float.{Double}
use warehouse_fleet_manageme.Messages.{RobotStatus, TaskAssignment, TaskCompletion, result_success}
use warehouse_fleet_manageme.Fleet.Effect.{returned}
use warehouse_fleet_manageme.Fleet.Allocator.{select_best_robot}
use warehouse_fleet_manageme.Fleet.Store.{
  Value, Fields, Mongo, IsMongo, at, one_field, robot_status_to_doc, upsert_robot, insert_telemetry,
  insert_task, update_task_completion,
}
use warehouse_fleet_manageme.Fleet.Broker.{Amqp, publish_failed}
use warehouse_fleet_manageme.Fleet.Node.{
  FleetServer, Times, select_robot, failure_doc, SubmitResult, robot_status_cb, submit_task,
  task_completion_cb,
}
use warehouse_fleet_manageme.Fleet.Node.View.{remembered}
use warehouse_fleet_manageme.Fleet.Node.Returns.{
  returned_twice, reported_returned, dispatch_returned, submitted_returned,
}

module _ {D DB : Type 0} (mongo : Mongo D DB) where
  -- The collection has a document of the robot, with the fields of the status.
  abbrev pub Shows : String → RobotStatus D → DB → Type 0
  Shows id status db =
      (view : Fields D) × (mongo.find_one "robots" (one_field "robot_id" id) db
        ≡ (returned (some view), db))
      × ((j : String) (v : Value D)
          → at j (robot_status_to_doc status) ≡ some v
          → at j view ≡ some v)

  -- The collection shows the last status of each robot.
  abbrev pub IsMirrored : {Q : Type 0} → FleetServer D DB Q → Type 0
  IsMirrored s =
      (id : String) (status : RobotStatus D)
      → find id s.latest_status ≡ some status
      → Shows id status s.db

  module _ (database : IsMongo mongo) where
    Shows-upserted :
        (msg : RobotStatus D) (db db' : DB)
        → upsert_robot mongo msg db ≡ (returned tt, db')
        → Shows msg.robot_id msg db'
    unfolding upsert_robot robot_status_to_doc at
    Shows-upserted msg db db' u =
        database.find_upserted "robots" "robot_id" msg.robot_id (robot_status_to_doc msg) db db'
          refl u

    Shows-other :
        (id : String) (status msg : RobotStatus D) (db db' : DB)
        → id ≢ msg.robot_id
        → upsert_robot mongo msg db ≡ (returned tt, db')
        → Shows id status db
        → Shows id status db'
    unfolding upsert_robot robot_status_to_doc at
    Shows-other id status msg db db' n u (view, found, fields) = (
      view,
      database.find_other "robots" "robot_id" id msg.robot_id (robot_status_to_doc msg) true
          (some view) db db' n refl found u,
      fields,
    )

    -- The document of a status that was found after an upsert.
    Shows-either :
        (mine : Bool) (id : String) (status msg : RobotStatus D) (m : TextMap (RobotStatus D))
        (db db' : DB)
        → (id ==ₛ msg.robot_id) ≡ mine
        → upsert_robot mongo msg db ≡ (returned tt, db')
        → (if mine then some msg else find id m) ≡ some status
        → (find id m ≡ some status → Shows id status db)
        → Shows id status db'
    Shows-either true id status msg m db db' h u f old =
        let same : msg ≡ status = cc f in
        let name : id ≡ msg.robot_id = ground (arith, ==ₛ_iff id msg.robot_id) in
        rw (name, sym same) (Shows-upserted msg db db' u)
    Shows-either false id status msg m db db' h u f old =
        Shows-other id status msg db db' (λ e. ground (arith, ==ₛ_iff id msg.robot_id)) u (old f)

    Shows-telemetry :
        (id : String) (status msg : RobotStatus D) (db db' : DB)
        → insert_telemetry mongo msg db ≡ (returned tt, db')
        → Shows id status db
        → Shows id status db'
    unfolding insert_telemetry
    Shows-telemetry id status msg db db' i (view, found, fields) = (
      view,
      database.find_inserted_elsewhere "robots" "telemetry" "robot_id" id (robot_status_to_doc msg)
          (some view) db db' (λ e. cc) found i,
      fields,
    )

    Shows-taken :
        (id : String) (status : RobotStatus D) (task : TaskAssignment D) (db db' : DB)
        → insert_task mongo task db ≡ (returned tt, db')
        → Shows id status db
        → Shows id status db'
    unfolding insert_task
    Shows-taken id status task db db' i (view, found, fields) = (
      view,
      database.find_inserted_elsewhere "robots" "tasks" "robot_id" id _ (some view) db db' (λ e. cc)
          found i,
      fields,
    )

    Shows-completed :
        (id : String) (status : RobotStatus D) (completion : TaskCompletion D) (db db' : DB)
        → update_task_completion mongo completion db ≡ (returned tt, db')
        → Shows id status db
        → Shows id status db'
    unfolding update_task_completion
    Shows-completed id status completion db db' u (view, found, fields) = (
      view,
      database.find_updated_elsewhere "robots" "tasks" "robot_id" id "task_id" completion.task_id _
          false (some view) db db' (λ e. cc) found u,
      fields,
    )

module _ {D DB Q : Type 0} ⦃d : Double D⦄ (mongo : Mongo D DB) where
  -- A call that returned.
  pub data Served (amqp : Amqp Q) (dump : Fields D → String)
      : FleetServer D DB Q → FleetServer D DB Q → Type 0 where
    status :
        (msg : RobotStatus D) (s s' : FleetServer D DB Q)
        → robot_status_cb mongo msg s ≡ (returned tt, s')
        → Served amqp dump s s'
    submitted :
        (now : Times) (t : TaskAssignment D) (a : SubmitResult) (s s' : FleetServer D DB Q)
        → submit_task mongo now t s ≡ (returned a, s')
        → Served amqp dump s s'
    completed :
        (msg : TaskCompletion D) (s s' : FleetServer D DB Q)
        → task_completion_cb mongo amqp dump msg s ≡ (returned tt, s')
        → Served amqp dump s s'

  module _ (amqp : Amqp Q) (dump : Fields D → String) (database : IsMongo mongo) where
    status-IsMirrored :
        (msg : RobotStatus D) (s s' : FleetServer D DB Q)
        → robot_status_cb mongo msg s ≡ (returned tt, s')
        → IsMirrored mongo s
        → IsMirrored mongo s'
    unfolding robot_status_cb
    status-IsMirrored msg s s' e m id st f =
        let (db', u, i, q) =
          returned_twice (insert_telemetry mongo msg) _ _ (remembered mongo msg s) s' e in
        rw q (
          Shows-telemetry mongo database id st msg _ db' i (
            Shows-either mongo database (id ==ₛ msg.robot_id) id st msg s.latest_status s.db _ refl
              (ap (λ r. (r, (upsert_robot mongo msg s.db).1)) u)
              (sym (find-assign msg.robot_id id msg s.latest_status)
                ∙ sym (ap (λ x. find id x.latest_status) q)
                ∙ f)
              (m id st)))

    submitted-IsMirrored :
        (now : Times) (t : TaskAssignment D) (a : SubmitResult) (s s' : FleetServer D DB Q)
        → submit_task mongo now t s ≡ (returned a, s')
        → IsMirrored mongo s
        → IsMirrored mongo s'
    unfolding submit_task select_robot
    submitted-IsMirrored now t a s s' e m id st f =
        elim (Option-cases (select_best_robot s.latest_status t s.soc_weight)) [
          | inl h ↦
              let same : s ≡ s' = ap (λ x. x.1) (rw h at e) in
              subst (IsMirrored mongo) same m id st f
          | inr ((name, best), h) ↦
              let (t', g) = submitted_returned mongo now t name best a s s' (rw h at e) in
              let (db', i, at_db, known) =
                dispatch_returned mongo now (record t { robot_id = name }) t' s s' g in
              rw at_db (
                Shows-taken mongo database id st _ s.db db' i
                  (m id st (sym (ap (find id) known) ∙ f)))
        ]

    completed-IsMirrored :
        (msg : TaskCompletion D) (s s' : FleetServer D DB Q)
        → task_completion_cb mongo amqp dump msg s ≡ (returned tt, s')
        → IsMirrored mongo s
        → IsMirrored mongo s'
    unfolding task_completion_cb
    completed-IsMirrored msg s s' e m id st f =
        let (u, at_db, known) =
          reported_returned (not (msg.result == result_success))
            (publish_failed amqp (dump (failure_doc msg))) _ _ s s' e in
        rw at_db (
          Shows-completed mongo database id st msg s.db _
            (ap (λ r. (r, (update_task_completion mongo msg s.db).1)) u)
            (m id st (sym (ap (find id) known) ∙ f)))

    -- Over a database that meets its laws, the collection of the robots keeps up with the map that
    -- the allocator reads: if it has for each robot the fields of the status in the map, it has
    -- them after every status, submission and completion that returns.
    pub Served-IsMirrored :
        (s s' : FleetServer D DB Q)
        → Served amqp dump s s'
        → IsMirrored mongo s
        → IsMirrored mongo s'
    Served-IsMirrored s s' (status msg _ _ e) m = status-IsMirrored msg s s' e m
    Served-IsMirrored s s' (submitted now t a _ _ e) m = submitted-IsMirrored now t a s s' e m
    Served-IsMirrored s s' (completed msg _ _ e) m = completed-IsMirrored msg s s' e m
