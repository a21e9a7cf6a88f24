-- ===== src/Fleet/Store.antt =====
-- The collections of the fleet server: mongo_store.hpp and mongo_store.cpp of src/fms_fleet_server.
-- The database is a parameter. Every operation holds the store's mutex, so each is one step.
pub mod Memory
pub mod Lifecycle
use warehouse_fleet_manageme.Common.{
  ℕ, ℤ, pos, String, ◌≡◌, ◌≢◌, Bool, true, false, ◌==ₛ◌, Option, none, some, List, [], ◌∷◌,
  if◌then◌else◌,
}
use warehouse_fleet_manageme.Float.{Double, nought}
use warehouse_fleet_manageme.Messages.{
  Position, Orientation, RobotStatus, TaskAssignment, TaskCompletion,
}
use warehouse_fleet_manageme.Fleet.Names.{
  robot_state_to_string, task_type_to_string, task_result_to_string,
}
use warehouse_fleet_manageme.Fleet.Effect.{Result, returned, threw, M, pure, lift, ◌>>=◌}

-- A BSON document, as the stream builder makes it.
mutual
  pub data Value (D : Type 0) : Type 0 where
    text : String → Value D
    int32 : ℤ → Value D
    int64 : ℤ → Value D
    double : D → Value D
    document : Fields D → Value D

  pub data Fields (D : Type 0) : Type 0 where
    end : Fields D
    field : String → Value D → Fields D → Fields D

-- The constructor of the store: a client of a URI, and the client's database of a name.
unfoldable pub open_store :
    {C DB : Type 0} → (String → Result C) → (C → String → DB) → String → String → Result DB
open_store client database uri db_name = elim (client uri) [
  | threw ↦ threw
  | returned c ↦ returned (database c db_name)
]

-- The calls of the driver. Each may throw.
pub record Mongo (D DB : Type 0) : Type 0 where
  pub insert_one : String → Fields D → M DB (Unit {0})
  -- The collection, the filter, what is set, and whether to insert where nothing fits.
  pub update_one : String → Fields D → Fields D → Bool → M DB (Unit {0})
  pub find_one : String → Fields D → M DB (Option (Fields D))

pub record TaskRecord (D : Type 0) : Type 0 where
  pub task_id : String
  pub robot_id : String
  pub status : String
  pub result : ℤ
  pub duration_secs : D
  pub error_message : String

module _ {D : Type 0} where
  -- `view[key]`.
  unfoldable pub at : String → Fields D → Option (Value D)
  at k end = none
  at k (field j v fs) = if k ==ₛ j then some v else at k fs

  abbrev pub one_field : String → String → Fields D
  one_field k v = field k (text v) end

  abbrev position_fields : Position D → Fields D
  position_fields p = field "x" (double p.x) (field "y" (double p.y) (field "z" (double p.z) end))

  abbrev orientation_fields : Orientation D → Fields D
  orientation_fields o =
      field "x" (double o.x)
        (field "y" (double o.y) (field "z" (double o.z) (field "w" (double o.w) end)))

  unfoldable pub robot_status_to_doc : RobotStatus D → Fields D
  robot_status_to_doc status = field "robot_id" (text status.robot_id) (
      field "state" (int32 (pos status.state)) (
        field "state_str" (text (robot_state_to_string status.state)) (
          field "battery_soc" (double status.battery_soc) (
            field "current_task_id" (text status.current_task_id) (
              field "status_message" (text status.status_message) (
                field "pose"
                  (document (
                    field "position" (document (position_fields status.pose.position)) (
                      field "orientation" (document (orientation_fields status.pose.orientation))
                        end)))
                  (field "stamp_sec" (int64 status.stamp.sec)
                    (field "stamp_nanosec" (int64 (pos status.stamp.nanosec)) end))))))))

  unfoldable pub task_to_doc : TaskAssignment D → Fields D
  task_to_doc task = field "task_id" (text task.task_id) (
      field "robot_id" (text task.robot_id) (
        field "task_type" (int32 (pos task.task_type)) (
          field "task_type_str" (text (task_type_to_string task.task_type)) (
            field "pick_pose" (document (position_fields task.pick_pose.position)) (
              field "drop_pose" (document (position_fields task.drop_pose.position)) (
                field "payload_id" (text task.payload_id) (
                  field "priority" (int32 (pos task.priority)) (
                    field "deadline_secs" (double task.deadline_secs) (
                      field "status" (text "ASSIGNED") (
                        field "assigned_stamp_sec" (int64 task.stamp.sec) (
                          field "assigned_stamp_nanosec" (int64 (pos task.stamp.nanosec))
                            end)))))))))))

  unfoldable pub completion_to_set : TaskCompletion D → Fields D
  completion_to_set completion = field "status" (text (task_result_to_string completion.result)) (
      field "result" (int32 (pos completion.result)) (
        field "duration_secs" (double completion.duration_secs) (
          field "error_message" (text completion.error_message) (
            field "completed_stamp_sec" (int64 completion.stamp.sec)
              (field "completed_stamp_nanosec" (int64 (pos completion.stamp.nanosec)) end)))))

  -- `if (view[key]) x = view[key].get_…().value`: absent leaves the default, and a value of another
  -- type throws.
  abbrev pub get_string : Option (Value D) → String → Result String
  get_string none default = returned default
  get_string (some (text s)) default = returned s
  get_string (some v) default = threw

  abbrev pub get_int32 : Option (Value D) → ℤ → Result ℤ
  get_int32 none default = returned default
  get_int32 (some (int32 n)) default = returned n
  get_int32 (some v) default = threw

  abbrev pub get_double : Option (Value D) → D → Result D
  get_double none default = returned default
  get_double (some (double x)) default = returned x
  get_double (some v) default = threw

module _ {D : Type 0} where
  -- The field of a document after `$set`.
  abbrev pub set_over : Option (Value D) → Option (Value D) → Option (Value D)
  set_over none old = old
  set_over (some v) old = some v

-- What the code relies on of the database. A document is found under a filter of one field with the
-- fields that it was inserted with, and perhaps an `_id`; an update changes the fields that are set
-- of the document that the same filter finds.
pub record IsMongo {D DB : Type 0} (mongo : Mongo D DB) : Type 0 where
  pub find_inserted :
      (c k x : String) (doc : Fields D) (db db' : DB)
      → mongo.find_one c (one_field k x) db ≡ (returned none, db)
      → at k doc ≡ some (text x)
      → mongo.insert_one c doc db ≡ (returned tt, db')
      → (view : Fields D) × (mongo.find_one c (one_field k x) db' ≡ (returned (some view), db'))
        × ((j : String) → j ≢ "_id" → at j view ≡ at j doc)
  pub find_updated :
      (c k x : String) (set view : Fields D) (upsert : Bool) (db db' : DB)
      → mongo.find_one c (one_field k x) db ≡ (returned (some view), db)
      → at k set ≡ none
      → mongo.update_one c (one_field k x) set upsert db ≡ (returned tt, db')
      → (view' : Fields D) × (mongo.find_one c (one_field k x) db' ≡ (returned (some view'), db'))
        × ((j : String) → at j view' ≡ set_over (at j set) (at j view))
  -- An upsert leaves a document that the filter finds, with the fields that are set.
  pub find_upserted :
      (c k x : String) (set : Fields D) (db db' : DB)
      → at k set ≡ some (text x)
      → mongo.update_one c (one_field k x) set true db ≡ (returned tt, db')
      → (view : Fields D) × (mongo.find_one c (one_field k x) db' ≡ (returned (some view), db'))
        × ((j : String) (v : Value D) → at j set ≡ some v → at j view ≡ some v)
  -- What changes one collection, or the document of one value, leaves what is found elsewhere.
  pub find_inserted_elsewhere :
      (c c' k x : String) (doc : Fields D) (r : Option (Fields D)) (db db' : DB)
      → c ≢ c'
      → mongo.find_one c (one_field k x) db ≡ (returned r, db)
      → mongo.insert_one c' doc db ≡ (returned tt, db')
      → mongo.find_one c (one_field k x) db' ≡ (returned r, db')
  pub find_updated_elsewhere :
      (c c' k x k' x' : String) (set : Fields D) (upsert : Bool) (r : Option (Fields D))
      (db db' : DB)
      → c ≢ c'
      → mongo.find_one c (one_field k x) db ≡ (returned r, db)
      → mongo.update_one c' (one_field k' x') set upsert db ≡ (returned tt, db')
      → mongo.find_one c (one_field k x) db' ≡ (returned r, db')
  pub find_other :
      (c k x y : String) (set : Fields D) (upsert : Bool) (r : Option (Fields D)) (db db' : DB)
      → x ≢ y
      → at k set ≡ some (text y)
      → mongo.find_one c (one_field k x) db ≡ (returned r, db)
      → mongo.update_one c (one_field k y) set upsert db ≡ (returned tt, db')
      → mongo.find_one c (one_field k x) db' ≡ (returned r, db')

module _ {D DB : Type 0} (mongo : Mongo D DB) where
  unfoldable pub upsert_robot : RobotStatus D → M DB (Unit {0})
  upsert_robot status =
      mongo.update_one "robots" (one_field "robot_id" status.robot_id) (robot_status_to_doc status)
        true

  unfoldable pub insert_telemetry : RobotStatus D → M DB (Unit {0})
  insert_telemetry status = mongo.insert_one "telemetry" (robot_status_to_doc status)

  unfoldable pub insert_task : TaskAssignment D → M DB (Unit {0})
  insert_task task = mongo.insert_one "tasks" (task_to_doc task)

  unfoldable pub update_task_completion : TaskCompletion D → M DB (Unit {0})
  update_task_completion completion =
      mongo.update_one "tasks" (one_field "task_id" completion.task_id)
        (completion_to_set completion) false

  module _ ⦃d : Double D⦄ where
    -- The record that a found document holds.
    unfoldable pub read_task : String → Fields D → M DB (TaskRecord D)
    read_task task_id view = do
      robot_id ← lift (get_string (at "robot_id" view) "")
      status ← lift (get_string (at "status" view) "")
      result ← lift (get_int32 (at "result" view) (pos 0))
      duration_secs ← lift (get_double (at "duration_secs" view) nought)
      error_message ← lift (get_string (at "error_message" view) "")
      pure (record {
        task_id = task_id;
        robot_id = robot_id;
        status = status;
        result = result;
        duration_secs = duration_secs;
        error_message = error_message;
      })

    abbrev pub read_found : String → Option (Fields D) → M DB (Option (TaskRecord D))
    read_found task_id none = pure none
    read_found task_id (some view) = do rec ← read_task task_id view; pure (some rec)

    unfoldable pub find_task : String → M DB (Option (TaskRecord D))
    unfolding read_task
    find_task task_id = do
      found ← mongo.find_one "tasks" (one_field "task_id" task_id)
      read_found task_id found
