-- ===== src/Fleet/System/Started.antt =====
-- The fleet server from its constructor on: fleet_server_node.cpp of src/fms_fleet_server.
use warehouse_fleet_manageme.Common.{String, ◌≡◌, sym, subst, [], All}
use warehouse_fleet_manageme.Float.{Double}
use warehouse_fleet_manageme.Fleet.Effect.{Result, returned}
use warehouse_fleet_manageme.Fleet.Store.{Mongo, Fields}
use warehouse_fleet_manageme.Fleet.Broker.{Amqp}
use warehouse_fleet_manageme.Fleet.Node.{FleetServer}
use warehouse_fleet_manageme.Fleet.Node.Consume.{JsonLibrary}
use warehouse_fleet_manageme.Fleet.Setup.{
  ServerParameters, Runtime, FleetProcess, robot_rounds, new_node, construct,
}
use warehouse_fleet_manageme.Fleet.Setup.Ready.{
  consuming, tracking, tracking-IsWired, add_robots-statuses, construct-HasNode,
}
use warehouse_fleet_manageme.Fleet.System.{AtWork, Events}
use warehouse_fleet_manageme.Fleet.System.Serving.{IsDelivered, IsServing, Events-IsServing}

module _ {D DB Q : Type 0} where
  -- A node that took no call yet.
  abbrev pub idle : FleetServer D DB Q → AtWork D DB Q
  idle node = record { node = node; chosen = [] }

module _ {D DB Q : Type 0} (p : ServerParameters D) where
  tracking-IsServing :
      (db : DB) (conn after : Q) → IsServing (idle (consuming after (tracking p db conn)))
  unfolding new_node
  tracking-IsServing db conn after =
      let (e, f) = add_robots-statuses (robot_rounds p.num_robots) 1 (new_node p db conn) in
      record {
        wired = tracking-IsWired p db conn;
        sorted = rw e tt;
        own = rw e tt;
        wire_chosen = tt;
        wire_published = rw f tt;
        delivered = rw f tt;
      }

module _ {D DB Q J : Type 0} ⦃d : Double D⦄ (library : JsonLibrary D J) (mongo : Mongo D DB)
    (amqp : Amqp Q) (dump : Fields D → String) (p : ServerParameters D) where
  construct-IsServing :
      (runtime : Runtime) (open_db : String → String → Result DB) (conn : Q)
      (f : FleetProcess D DB Q) (s : AtWork D DB Q)
      → construct runtime open_db amqp conn p ≡ returned f
      → Events library mongo amqp dump (idle f.node) s
      → IsServing s
  construct-IsServing runtime open_db conn f s e es =
      let (db, before, after, _, h) = construct-HasNode amqp p runtime open_db conn f e in
      Events-IsServing library mongo amqp dump (idle f.node) s es
        (subst (λ n. IsServing (idle n)) (sym h) (tracking-IsServing p db conn after))

  -- From the constructor on, whatever calls come and however the choices and the dispatches of
  -- several tasks fall between each other, every task that was published left on the topic of the
  -- robot that it names, and each status is kept under the robot that sent it.
  pub published-IsDelivered :
      (runtime : Runtime) (open_db : String → String → Result DB) (conn : Q)
      (f : FleetProcess D DB Q) (s : AtWork D DB Q)
      → construct runtime open_db amqp conn p ≡ returned f
      → Events library mongo amqp dump (idle f.node) s
      → All (IsDelivered s.node) s.node.published
        × All (λ e. e.1.robot_id ≡ e.0) s.node.latest_status
  published-IsDelivered runtime open_db conn f s e es =
      let h = construct-IsServing runtime open_db conn f s e es in (h.delivered, h.own)
