-- ===== src/Fleet/Node/Consume/Wire.antt =====
-- The types of a task that is read from the queue: fleet_server_node.cpp of src/fms_fleet_server.
use warehouse_fleet_manageme.Common.{String, ◌≡◌, some, arith}
use warehouse_fleet_manageme.Float.{Double}
use warehouse_fleet_manageme.Messages.{TaskAssignment, IsWire}
use warehouse_fleet_manageme.Fleet.Node.Consume.{JsonLibrary, read_request}

module _ {D J : Type 0} ⦃d : Double D⦄ (library : JsonLibrary D J) where
  -- Whatever the library reads, the numbers of the task fit.
  pub read_request-IsWire :
      (body : String) (t : TaskAssignment D) → read_request library body ≡ some t → IsWire t
  unfolding read_request
  read_request-IsWire body t e = record {
    task_type = ground arith;
    priority = ground arith;
    nanosec = ground arith;
  }
