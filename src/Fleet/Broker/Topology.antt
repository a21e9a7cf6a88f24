-- ===== src/Fleet/Broker/Topology.antt =====
-- The queues that the client of the broker sets up: rabbitmq_client.cpp of src/fms_fleet_server.
use warehouse_fleet_manageme.Common.{
  String, ◌≡◌, refl, sym, ◌∙◌, ap, subst, All, Bool, true, false, not, if◌then◌else◌, List, [], ◌∷◌,
}
use warehouse_fleet_manageme.Fleet.Effect.{Result, returned, threw, M, pure, throw, continue}
use warehouse_fleet_manageme.Fleet.Broker.{
  Command, exchange_declare, queue_declare, queue_bind, basic_consume, Amqp, is_normal, check_reply,
  request, dlx_entries, setup_topology, publish, publish_failed,
}

-- What the code relies on of a broker: what a request with a normal reply set up holds from then
-- on.
pub record IsBroker {Q : Type 0} (amqp : Amqp Q) (Holds : Command → Q → Type 0) : Type 0 where
  pub sent_holds :
      (c : Command) (q : Q)
      → is_normal (amqp.send c q).0.reply_type ≡ true
      → Holds c (amqp.send c q).1
  pub sent_keeps : (c c' : Command) (q : Q) → Holds c q → Holds c (amqp.send c' q).1

module _ {Q : Type 0} (amqp : Amqp Q) where
  -- Requests one after the other, up to the first without a normal reply.
  abbrev request_all : List Command → M Q (Unit {0})
  request_all [] q = (returned tt, q)
  request_all (c ∷ []) q = request amqp c q
  request_all (c ∷ c' ∷ cs) q = continue (request amqp c q) (λ _. request_all (c' ∷ cs))

  passed :
      (b : Bool) (k : M Q (Unit {0})) (q q' : Q)
      → continue ((if not b then throw else pure tt) q) (λ _. k) ≡ (returned tt, q')
      → (b ≡ true) × (k q ≡ (returned tt, q'))
  passed true k q q' e = (refl, e)
  passed false k q q' e = cc

  drop_pure : (r : Result (Unit {0}) × Q) → r ≡ continue r (λ _ q. (returned tt, q))
  drop_pure (returned _, q) = refl
  drop_pure (threw, q) = refl

  request_all-cons :
      (c : Command) (cs : List Command) (q : Q)
      → request_all (c ∷ cs) q ≡ continue (request amqp c q) (λ _. request_all cs)
  request_all-cons c [] q = drop_pure _
  request_all-cons c (c' ∷ cs) q = refl

  request_returned :
      (c : Command) (cs : List Command) (q q' : Q)
      → request_all (c ∷ cs) q ≡ (returned tt, q')
      → (is_normal (amqp.send c q).0.reply_type ≡ true)
        × (request_all cs (amqp.send c q).1 ≡ (returned tt, q'))
  unfolding check_reply
  request_returned c cs q q' e =
      passed (is_normal (amqp.send c q).0.reply_type) (request_all cs) (amqp.send c q).1 q'
        (sym (request_all-cons c cs q) ∙ e)

  -- The requests of `setup_topology`, in their order.
  abbrev topology : List Command
  topology =
      exchange_declare "tasks.dlx" "direct" true
      ∷ queue_declare "tasks.failed" true []
      ∷ queue_bind "tasks.failed" "tasks.dlx" "failed"
      ∷ exchange_declare "tasks" "direct" true
      ∷ queue_declare "tasks.incoming" true dlx_entries
      ∷ queue_bind "tasks.incoming" "tasks" "incoming"
      ∷ basic_consume "tasks.incoming" false
      ∷ []

  setup_topology_lem : (q : Q) → setup_topology amqp q ≡ request_all topology q
  unfolding setup_topology check_reply
  setup_topology_lem q = refl

  abbrev pub IsRouted : (Command → Q → Type 0) → Q → Type 0
  IsRouted Holds q =
      Holds (queue_bind "tasks.incoming" "tasks" "incoming") q
      × Holds (basic_consume "tasks.incoming" false) q
      × ((exchange routing_key : String) × Holds
            (queue_declare "tasks.incoming" true (
              ("x-dead-letter-exchange", exchange)
              ∷ ("x-dead-letter-routing-key", routing_key)
              ∷ []))
            q
          × Holds (exchange_declare exchange "direct" true) q
          × Holds (queue_bind "tasks.failed" exchange routing_key) q
          × ((body : String) (r : Q)
              → publish_failed amqp body r ≡ publish amqp exchange routing_key body r))

  module _ (Holds : Command → Q → Type 0) (laws : IsBroker amqp Holds) where
    request_all_keeps :
        (c : Command) (cs : List Command) (q q' : Q)
        → Holds c q
        → request_all cs q ≡ (returned tt, q')
        → Holds c q'
    request_all_keeps c [] q q' h e = subst (Holds c) (ap (λ r. r.1) e) h
    request_all_keeps c (c' ∷ cs) q q' h e =
        request_all_keeps c cs _ q' (laws.sent_keeps c c' q h) (request_returned c' cs q q' e).1

    request_all_holds :
        (cs : List Command) (q q' : Q)
        → request_all cs q ≡ (returned tt, q')
        → All (λ c. Holds c q') cs
    request_all_holds [] q q' e = tt
    request_all_holds (c ∷ cs) q q' e =
        let (normal, rest) = request_returned c cs q q' e in
        (
          request_all_keeps c cs _ q' (laws.sent_holds c q normal) rest,
          request_all_holds cs _ q' rest,
        )

    -- Where `setup_topology` returns, the queue tasks.incoming is bound to the exchange tasks and
    -- is consumed with acknowledgements; and the exchange and the key that its rejected messages go
    -- by, and that `publish_failed` publishes by, are bound to the queue tasks.failed.
    pub setup_topology_routes :
        (q q' : Q) → setup_topology amqp q ≡ (returned tt, q') → IsRouted Holds q'
    unfolding publish_failed
    setup_topology_routes q q' e =
        let (dlx, (_, (bound, (_, (incoming, (bind, (consume, _))))))) =
          request_all_holds topology q q' (sym (setup_topology_lem q) ∙ e) in
        (bind, consume, ("tasks.dlx", "failed", incoming, dlx, bound, λ body r. refl))
