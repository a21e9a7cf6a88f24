-- ===== src/Fleet/Setup/Ends.antt =====
-- The end of the fleet server's threads: fleet_server_node.cpp and fleet_grpc_server.cpp of
-- src/fms_fleet_server.
use warehouse_fleet_manageme.Common.{arith, ◌≡◌, refl, String, Bool, true, false, List, [], ◌∷◌}
use warehouse_fleet_manageme.Float.{Double}
use warehouse_fleet_manageme.Fleet.Effect.{Result, returned, threw}
use warehouse_fleet_manageme.Fleet.Store.{Mongo}
use warehouse_fleet_manageme.Fleet.Broker.{Amqp, disconnect}
use warehouse_fleet_manageme.Fleet.Node.{FleetServer, Times}
use warehouse_fleet_manageme.Fleet.Node.Consume.{JsonLibrary, rabbitmq_consume_loop}
use warehouse_fleet_manageme.Fleet.Grpc.Server.{create, build_and_start, finished, wait, shutdown}
use warehouse_fleet_manageme.Fleet.Setup.{
  ServerParameters, Runtime, after_call_returned, FleetProcess, grpc_address, serve, opened,
  construct, destruct,
}

module _ {D DB Q : Type 0} (amqp : Amqp Q) (p : ServerParameters D) where
  serve-grpc :
      (runtime : Runtime) (r : Result (Unit {0}) × FleetServer D DB Q) (f : FleetProcess D DB Q)
      → serve runtime p r ≡ returned f
      → f.grpc ≡ create (grpc_address p.grpc_port)
  serve-grpc runtime (returned x, s) f e = ground (arith, after_call_returned runtime.threads _ f e)
  serve-grpc runtime (threw, s) f e = cc

  -- The service is made for its address.
  pub construct-grpc :
      (runtime : Runtime) (open_db : String → String → Result DB) (conn : Q)
      (f : FleetProcess D DB Q)
      → construct runtime open_db amqp conn p ≡ returned f
      → f.grpc ≡ create (grpc_address p.grpc_port)
  unfolding construct
  construct-grpc runtime open_db conn f e =
      opened_db (open_db p.mongo_uri p.mongo_db) (after_call_returned runtime.declares _ f e)
    where
      opened_db :
          (r : Result DB)
          → opened runtime amqp conn p r ≡ returned f
          → f.grpc ≡ create (grpc_address p.grpc_port)
      opened_db threw e = cc
      opened_db (returned db) e =
          serve-grpc runtime _ f (after_call_returned runtime.interfaces _ f e)

module _ {D DB Q J : Type 0} ⦃d : Double D⦄ (library : JsonLibrary D J) (mongo : Mongo D DB)
    (amqp : Amqp Q) where
  stopped_loop :
      (readings : List Times) (s : FleetServer D DB Q)
      → s.rabbitmq_running ≡ false
      → rabbitmq_consume_loop library mongo amqp readings s ≡ (returned tt, s)
  unfolding rabbitmq_consume_loop
  stopped_loop [] s e = refl
  stopped_loop (now ∷ later) s e = rw e refl

  -- The destructor ends both threads that it joins, if the library of the service can listen and
  -- the server was built before: the consumer leaves its loop with no further message, and the wait
  -- of the service is over. The broker is left as `disconnect` leaves it.
  pub destruct_ends :
      (can_listen : String → Bool) (f : FleetProcess D DB Q) (readings : List Times)
      → can_listen f.grpc.address ≡ true
      → let built : FleetProcess D DB Q = record f { grpc = build_and_start can_listen f.grpc } in
        let ended = destruct amqp built in
        (rabbitmq_consume_loop library mongo amqp readings ended.node ≡ (returned tt, ended.node))
        × (wait ended.grpc ≡ finished)
        × (ended.node.conn ≡ disconnect amqp f.node.conn)
  unfolding destruct build_and_start wait shutdown
  destruct_ends can_listen f readings e = (stopped_loop readings _ refl, rw e refl, refl)
