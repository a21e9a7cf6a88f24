-- ===== src/Fleet/Main.antt =====
-- The process of the fleet server: fleet_server_main.cpp of src/fms_fleet_server. `rclcpp::spin` is a
-- parameter: what the calls that it and the other threads make do to the node until it returns, and
-- whether an exception leaves one of them. When the thread of the service builds its server is a
-- parameter too.
use warehouse_fleet_manageme.Common.{
  ◌≡◌, refl, sym, subst, ap, ◌∙◌, [], ◌⊎◌, inl, inr, String, Bool, true, false, not, Bool-cases,
  if◌then◌else◌, List, All, arith,
}
use warehouse_fleet_manageme.Float.{Double}
use warehouse_fleet_manageme.Messages.{TaskAssignment}
use warehouse_fleet_manageme.Fleet.Effect.{Result, returned, threw, M}
use warehouse_fleet_manageme.Fleet.Store.{Mongo, Fields, open_store}
use warehouse_fleet_manageme.Fleet.Broker.{Amqp, disconnect}
use warehouse_fleet_manageme.Fleet.Node.{FleetServer, Times}
use warehouse_fleet_manageme.Fleet.Node.Consume.{JsonLibrary, rabbitmq_consume_loop}
use warehouse_fleet_manageme.Fleet.Grpc.Server.{
  GrpcServer, create, build_and_start, Wait, blocked, finished, null_pointer, wait, shutdown,
}
use warehouse_fleet_manageme.Fleet.Setup.{
  ServerParameters, Runtime, FleetProcess, grpc_address, construct, destruct,
}
use warehouse_fleet_manageme.Fleet.Setup.Ends.{construct-grpc, destruct_ends}
use warehouse_fleet_manageme.Fleet.System.{Events}
use warehouse_fleet_manageme.Fleet.System.Serving.{IsDelivered}
use warehouse_fleet_manageme.Fleet.System.Started.{idle, published-IsDelivered}

-- How the process ends: by an exception that nothing catches or a null pointer, not at all, since
-- the destructor of the node waits for the thread of the service, or by `return 0`, with the node as
-- its destructor left it.
pub data ExitKind (D DB Q : Type 0) : Type 0 where
  aborted stuck : ExitKind D DB Q
  ended : FleetProcess D DB Q → ExitKind D DB Q

module _ {D DB Q : Type 0} ⦃d : Double D⦄ where
  -- The node and the service after the destructor. The thread of the service builds its server
  -- before the destructor shuts it down, or after.
  abbrev pub closed :
      Bool → (String → Bool) → Amqp Q → FleetServer D DB Q → GrpcServer → FleetProcess D DB Q
  closed true can_listen amqp s grpc =
      destruct amqp (record { node = s; grpc = build_and_start can_listen grpc })
  closed false can_listen amqp s grpc =
      let p = destruct amqp (record { node = s; grpc = grpc }) in
      record p { grpc = build_and_start can_listen p.grpc }

  -- The destructor joins the thread of the service.
  abbrev pub joined : FleetProcess D DB Q → Wait → ExitKind D DB Q
  joined p finished = ended p
  joined p blocked = stuck
  joined p null_pointer = aborted

  abbrev pub spun :
      Bool
      → (String → Bool)
      → Amqp Q
      → GrpcServer
      → Result (Unit {0}) × FleetServer D DB Q
      → ExitKind D DB Q
  spun built can_listen amqp grpc (threw, s) = aborted
  spun built can_listen amqp grpc (returned _, s) =
      let p = closed built can_listen amqp s grpc in joined p (wait p.grpc)

  abbrev exit_of :
      Bool
      → (String → Bool)
      → M (FleetServer D DB Q) (Unit {0})
      → Amqp Q
      → Result (FleetProcess D DB Q)
      → ExitKind D DB Q
  exit_of built can_listen spin amqp threw = aborted
  exit_of built can_listen spin amqp (returned f) = spun built can_listen amqp f.grpc (spin f.node)

  unfoldable pub fleet_server_main :
      {C : Type 0}
      → Runtime
      → Bool
      → (String → Bool)
      → M (FleetServer D DB Q) (Unit {0})
      → (String → Result C)
      → (C → String → DB)
      → Amqp Q
      → Q
      → ServerParameters D
      → ExitKind D DB Q
  fleet_server_main runtime built can_listen spin client database amqp conn p =
      exit_of built can_listen spin amqp
        (construct runtime (open_store client database) amqp conn p)

module _ {D DB Q J : Type 0} ⦃d : Double D⦄ (library : JsonLibrary D J) (mongo : Mongo D DB)
    (amqp : Amqp Q) (dump : Fields D → String) (p : ServerParameters D) where
  -- Until `spin` is left, the threads make calls of the node and nothing else.
  abbrev pub IsSpin : M (FleetServer D DB Q) (Unit {0}) → FleetServer D DB Q → Type 0
  IsSpin spin node =
      (chosen : List (TaskAssignment D)) × Events library mongo amqp dump (idle node)
        (record { node = (spin node).1; chosen = chosen })

  -- The process has ended as it should.
  pub record HasEnded (served : FleetServer D DB Q) (e : FleetProcess D DB Q) : Type 0 where
    pub delivered : All (IsDelivered e.node) e.node.published
    pub same_published : e.node.published ≡ served.published
    pub consumer_over :
        (readings : List Times)
        → rabbitmq_consume_loop library mongo amqp readings e.node ≡ (returned tt, e.node)
    pub service_over : wait e.grpc ≡ finished
    pub disconnected : e.node.conn ≡ disconnect amqp served.conn

  -- What becomes of a process whose node was constructed: it is aborted by an exception that leaves
  -- `spin` or where the service cannot listen, it does not end where the server of the service is
  -- built after its shutdown, and it ends otherwise.
  abbrev pub Concludes :
      Bool → (String → Bool) → Result (Unit {0}) × FleetServer D DB Q → ExitKind D DB Q → Type 0
  Concludes built can_listen served exit =
      (((served.0 ≡ threw) ⊎ (can_listen (grpc_address p.grpc_port) ≡ false)) × (exit ≡ aborted))
      ⊎ (((served.0 ≡ returned tt)
            × (can_listen (grpc_address p.grpc_port) ≡ true)
            × (built ≡ false)
            × (exit ≡ stuck))
          ⊎ ((served.0 ≡ returned tt)
              × (can_listen (grpc_address p.grpc_port) ≡ true)
              × (built ≡ true)
              × ((e : FleetProcess D DB Q) × (exit ≡ ended e) × HasEnded served.1 e)))

  ended_node :
      (can_listen : String → Bool) (s : FleetServer D DB Q) (grpc : GrpcServer)
      → can_listen grpc.address ≡ true
      → All (IsDelivered s) s.published
      → HasEnded s (closed true can_listen amqp s grpc)
  ended_node can_listen s grpc l h =
      let over : List Times → _ = λ readings.
        destruct_ends library mongo amqp can_listen (record { node = s; grpc = grpc }) readings l in
      unfold destruct in
      record {
        delivered = h;
        same_published = refl;
        consumer_over = λ readings. (over readings).0;
        service_over = (over []).1;
        disconnected = refl;
      }

  -- The join of the thread, in the order of the two threads.
  closed-wait :
      (built : Bool) (can_listen : String → Bool) (s : FleetServer D DB Q) (address : String)
      → wait (closed built can_listen amqp s (create address)).grpc
        ≡ (if not (can_listen address) then null_pointer else if built then finished else blocked)
  unfolding destruct build_and_start wait shutdown create
  closed-wait true can_listen s address = ground arith
  closed-wait false can_listen s address = ground arith

  spun-Concludes :
      (built : Bool) (can_listen : String → Bool) (served : Result (Unit {0}) × FleetServer D DB Q)
      → All (IsDelivered served.1) served.1.published
      → Concludes built can_listen served
          (spun built can_listen amqp (create (grpc_address p.grpc_port)) served)
  unfolding create
  spun-Concludes built can_listen (threw, s) h = inl (inl refl, refl)
  spun-Concludes true can_listen (returned _, s) h =
      let address = grpc_address p.grpc_port in
      let e = closed true can_listen amqp s (create address) in
      let w = closed-wait true can_listen s address in
      elim (Bool-cases (can_listen address)) [
        | inl l ↦
            let over : wait e.grpc ≡ finished = w ∙ rw l refl in
            inr (inr (refl, l, refl, (e, ap (joined e) over, ended_node can_listen s _ l h)))
        | inr l ↦
            let null : wait e.grpc ≡ null_pointer = w ∙ rw l refl in inl (inr l, ap (joined e) null)
      ]
  spun-Concludes false can_listen (returned _, s) h =
      let address = grpc_address p.grpc_port in
      let e = closed false can_listen amqp s (create address) in
      let w = closed-wait false can_listen s address in
      elim (Bool-cases (can_listen address)) [
        | inl l ↦
            let waits : wait e.grpc ≡ blocked = w ∙ rw l refl in
            inr (inl (refl, l, refl, ap (joined e) waits))
        | inr l ↦
            let null : wait e.grpc ≡ null_pointer = w ∙ rw l refl in inl (inr l, ap (joined e) null)
      ]

  -- The process of the fleet server is aborted where the constructor of its node throws. Where it
  -- returns and the threads make only calls of the node: the process is aborted exactly if an
  -- exception leaves `spin` or another thread, or the service cannot listen at its address; else it
  -- never ends if the thread of the service builds its server only after the destructor has shut it
  -- down; else it ends, every task that was published had left on the topic of the robot that it
  -- names, the consumer takes no further message, the thread of the service is over, and the broker
  -- is left as `disconnect` leaves it.
  pub fleet_server_main_ends :
      {C : Type 0} (runtime : Runtime) (built : Bool) (can_listen : String → Bool)
      (spin : M (FleetServer D DB Q) (Unit {0})) (client : String → Result C)
      (database : C → String → DB) (conn : Q)
      → ((node : FleetServer D DB Q) → IsSpin spin node)
      → let exit = fleet_server_main runtime built can_listen spin client database amqp conn p in
        ((construct runtime (open_store client database) amqp conn p ≡ threw) × (exit ≡ aborted))
        ⊎ ((f : FleetProcess D DB Q) × (construct runtime (open_store client database) amqp conn p
              ≡ returned f)
            × Concludes built can_listen (spin f.node) exit)
  unfolding fleet_server_main
  fleet_server_main_ends runtime built can_listen spin client database conn calls = by_result _ refl
    where
      made : Result (FleetProcess D DB Q)
      made = construct runtime (open_store client database) amqp conn p

      by_result :
          (r : Result (FleetProcess D DB Q))
          → made ≡ r
          → ((made ≡ threw) × (exit_of built can_listen spin amqp made ≡ aborted))
            ⊎ ((f : FleetProcess D DB Q) × (made ≡ returned f)
                × Concludes built can_listen
                    (spin f.node)
                    (exit_of built can_listen spin amqp made))
      by_result threw e = inl (e, ap (exit_of built can_listen spin amqp) e)
      by_result (returned f) e =
          let (chosen, calls_made) = calls f.node in
          let (h, _) =
            published-IsDelivered library mongo amqp dump p runtime (open_store client database)
              conn f (record { node = (spin f.node).1; chosen = chosen }) e calls_made in
          let grpc = construct-grpc amqp p runtime (open_store client database) conn f e in
          inr (
            f,
            e,
            subst (Concludes built can_listen (spin f.node))
                (sym (
                  ap (exit_of built can_listen spin amqp) e
                  ∙ ap (λ g. spun built can_listen amqp g (spin f.node)) grpc))
                (spun-Concludes built can_listen (spin f.node) h),
          )
