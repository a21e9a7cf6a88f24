-- ===== src/Fleet/Setup/Ready.antt =====
-- A fleet server that was constructed: fleet_server_node.cpp of src/fms_fleet_server.
use text.Mathlib.TextLemmas.{append_cancel_left}
use warehouse_fleet_manageme.Common.{
  ℕ, zero, suc, ◌+◌, ◌-◌, ◌≤◌, ◌<◌, ◌≡◌, refl, sym, ap, subst, ◌∙◌, String, Bool, true, ==ₛ_iff,
  ◌&&◌, ltb, leb, some, arith, if◌then◌else◌,
}
use warehouse_fleet_manageme.Common.Decimal.{to_string, to_string_inj}
use warehouse_fleet_manageme.Common.TextMaps.{TextMap, find, assign, find-assign}
use warehouse_fleet_manageme.Fleet.Effect.{Result, returned, threw, ◌>>=◌}
use warehouse_fleet_manageme.Fleet.Broker.{Amqp, Command, setup_topology}
use warehouse_fleet_manageme.Fleet.Broker.Topology.{IsBroker, IsRouted, setup_topology_routes}
use warehouse_fleet_manageme.Fleet.Node.{FleetServer, robot_name, add_robots, on_broker}
use warehouse_fleet_manageme.Fleet.Node.Submit.{IsTracked}
use warehouse_fleet_manageme.Fleet.Node.View.{IsWired, add_robots-IsWired}
use warehouse_fleet_manageme.Fleet.Setup.{
  ServerParameters, Runtime, after_call_returned, FleetProcess, robot_rounds, run_consumer,
  new_node, start_broker, serve, opened, construct,
}

robot_name_inj : (m n : ℕ) → robot_name m ≡ robot_name n → m ≡ n
robot_name_inj m n e = to_string_inj m n (append_cancel_left "robot_" (to_string m) (to_string n) e)

-- The number lies among the `left` numbers from `i` on.
abbrev is_among : ℕ → ℕ → ℕ → Bool
is_among i left k = leb i k && ltb k (i + left)

find-assign_robot :
    (left i k : ℕ) (m : TextMap ℕ)
    → (if is_among (suc i) left k
        then some (k - 1)
        else find (robot_name k) (assign (robot_name i) (i - 1) m))
      ≡ (if is_among i (suc left) k then some (k - 1) else find (robot_name k) m)
find-assign_robot left i k m = ground (
  arith,
  find-assign (robot_name i) (robot_name k) (i - 1) m,
  ==ₛ_iff (robot_name k) (robot_name i),
  robot_name_inj k i,
)

module _ {D DB Q : Type 0} where
  add_robots-find :
      (left i k : ℕ) (s : FleetServer D DB Q)
      → find (robot_name k) (add_robots i left s).robot_index
        ≡ (if is_among i left k then some (k - 1) else find (robot_name k) s.robot_index)
  unfolding add_robots
  add_robots-find zero i k s = ground arith
  add_robots-find (suc left) i k s =
      add_robots-find left (suc i) k _ ∙ find-assign_robot left i k s.robot_index

module _ {D DB Q : Type 0} where
  -- The node with this connection, and with its consumer running.
  abbrev pub consuming : Q → FleetServer D DB Q → FleetServer D DB Q
  consuming conn s = record s { conn = conn; rabbitmq_running = true }

module _ {D DB Q : Type 0} (amqp : Amqp Q) where
  set_up_returned :
      (r : Result (Unit {0}) × Q) (s s' : FleetServer D DB Q)
      → (on_broker (λ _. r) >>= λ _. run_consumer) s ≡ (returned tt, s')
      → (conn : Q) × (r ≡ (returned tt, conn)) × (s' ≡ consuming conn s)
  set_up_returned (threw, q) s s' e = cc
  set_up_returned (returned _, q) s s' e = (q, refl, sym (ap (λ x. x.1) e))

  start_broker_returned :
      (p : ServerParameters D) (r : Result (Unit {0}) × Q) (s s' : FleetServer D DB Q)
      → (on_broker (λ _. r) >>= λ _. on_broker (setup_topology amqp) >>= λ _. run_consumer) s
        ≡ (returned tt, s')
      → (before conn : Q) × (r ≡ (returned tt, before))
        × (setup_topology amqp before ≡ (returned tt, conn))
        × (s' ≡ consuming conn s)
  start_broker_returned p (threw, q) s s' e = cc
  start_broker_returned p (returned _, q) s s' e =
      let (conn, g, h) = set_up_returned (setup_topology amqp q) (record s { conn = q }) s' e in
      (q, conn, refl, g, h)

-- What a server that was constructed promises: its robots have their numbers, each with a publisher
-- on its own topic and its own service, no status is known, the broker routes, and the consumer
-- runs.
pub record IsReady {D DB Q : Type 0} (amqp : Amqp Q) (Holds : Command → Q → Type 0)
    (p : ServerParameters D) (f : FleetProcess D DB Q) : Type 0 where
  pub named :
      (k : ℕ)
      → 0 < k
      → k ≤ robot_rounds p.num_robots
      → find (robot_name k) f.node.robot_index ≡ some (k - 1)
  pub wired : IsWired f.node
  pub tracked : IsTracked f.node
  pub routed : IsRouted amqp Holds f.node.conn
  pub consuming : f.node.rabbitmq_running ≡ true

module _ {D DB Q : Type 0} where
  -- The loop adds no status and publishes nothing.
  pub add_robots-statuses :
      (left i : ℕ) (s : FleetServer D DB Q)
      → ((add_robots i left s).latest_status ≡ s.latest_status)
        × ((add_robots i left s).published ≡ s.published)
  unfolding add_robots
  add_robots-statuses zero i s = (refl, refl)
  add_robots-statuses (suc left) i s = add_robots-statuses left (suc i) _

module _ {D DB Q : Type 0} (p : ServerParameters D) where
  abbrev pub tracking : DB → Q → FleetServer D DB Q
  tracking db conn = add_robots 1 (robot_rounds p.num_robots) (new_node p db conn)

  tracking-named :
      (db : DB) (conn : Q) (k : ℕ)
      → 0 < k
      → k ≤ robot_rounds p.num_robots
      → find (robot_name k) (tracking db conn).robot_index ≡ some (k - 1)
  unfolding new_node find
  tracking-named db conn k lo hi =
      ground (arith, add_robots-find (robot_rounds p.num_robots) 1 k (new_node p db conn))

  pub tracking-IsWired : (db : DB) (conn : Q) → IsWired (tracking db conn)
  unfolding new_node find
  tracking-IsWired db conn =
      add_robots-IsWired (robot_rounds p.num_robots) 1 (new_node p db conn) refl (λ id i e. cc)

  tracking-IsTracked : (db : DB) (conn : Q) → IsTracked (tracking db conn)
  unfolding new_node
  tracking-IsTracked db conn =
      rw ((add_robots-statuses (robot_rounds p.num_robots) 1 (new_node p db conn)).0) tt

module _ {D DB Q : Type 0} (amqp : Amqp Q) (p : ServerParameters D) where
  abbrev node_or : FleetServer D DB Q → Result (FleetProcess D DB Q) → FleetServer D DB Q
  node_or s threw = s
  node_or s (returned f) = f.node

  -- What the code went through: the database it opened, and the broker before and after its
  -- topology.
  abbrev pub HasNode : Q → FleetProcess D DB Q → Type 0
  HasNode conn f =
      (db : DB) × (before after : Q) × (setup_topology amqp before ≡ (returned tt, after))
      × (f.node ≡ consuming after (tracking p db conn))

  serve-HasNode :
      (runtime : Runtime) (db : DB) (conn : Q) (x : Result (Unit {0}) × FleetServer D DB Q)
      (f : FleetProcess D DB Q)
      → start_broker amqp p (tracking p db conn) ≡ x
      → serve runtime p x ≡ returned f
      → HasNode conn f
  unfolding start_broker
  serve-HasNode runtime db conn (threw, s) f h e = cc
  serve-HasNode runtime db conn (returned _, s) f h e =
      let (before, after, _, g, q) = start_broker_returned amqp p _ (tracking p db conn) s h in
      (db, before, after, g, sym (ap (node_or s) (after_call_returned runtime.threads _ f e)) ∙ q)

  opened-HasNode :
      (runtime : Runtime) (conn : Q) (r : Result DB) (f : FleetProcess D DB Q)
      → opened runtime amqp conn p r ≡ returned f
      → HasNode conn f
  opened-HasNode runtime conn threw f e = cc
  opened-HasNode runtime conn (returned db) f e =
      serve-HasNode runtime db conn _ f refl (after_call_returned runtime.interfaces _ f e)

  pub construct-HasNode :
      (runtime : Runtime) (open_db : String → String → Result DB) (conn : Q)
      (f : FleetProcess D DB Q)
      → construct runtime open_db amqp conn p ≡ returned f
      → HasNode conn f
  unfolding construct
  construct-HasNode runtime open_db conn f e =
      opened-HasNode runtime conn (open_db p.mongo_uri p.mongo_db) f
        (after_call_returned runtime.declares _ f e)

module _ {D DB Q : Type 0} (amqp : Amqp Q) (Holds : Command → Q → Type 0)
    (laws : IsBroker amqp Holds) (p : ServerParameters D) where
  consuming-IsReady :
      (db : DB) (conn before after : Q) (f : FleetProcess D DB Q)
      → setup_topology amqp before ≡ (returned tt, after)
      → f.node ≡ consuming after (tracking p db conn)
      → IsReady amqp Holds p f
  consuming-IsReady db conn before after f e h = record {
    named =
        λ k lo hi. ap (λ s. find (robot_name k) s.robot_index) h ∙ tracking-named p db conn k lo hi;
    wired = subst IsWired (sym h) (tracking-IsWired p db conn);
    tracked = subst IsTracked (sym h) (tracking-IsTracked p db conn);
    routed =
        subst (IsRouted amqp Holds) (sym (ap (λ s. s.conn) h))
          (setup_topology_routes amqp Holds laws before after e);
    consuming = ap (λ s. s.rabbitmq_running) h;
  }

  -- Over a broker that keeps what it was asked for, a server that was constructed is ready: the
  -- robots 1 to `num_robots` have the publishers 0 and on, each on the topic of its own robot and
  -- with the service of its own robot, no robot that sent a status is without a publisher, the
  -- queues are bound, and the consumer runs.
  pub construct-IsReady :
      (runtime : Runtime) (open_db : String → String → Result DB) (conn : Q)
      (f : FleetProcess D DB Q)
      → construct runtime open_db amqp conn p ≡ returned f
      → IsReady amqp Holds p f
  construct-IsReady runtime open_db conn f e =
      let (db, before, after, g, h) = construct-HasNode amqp p runtime open_db conn f e in
      consuming-IsReady db conn before after f g h
