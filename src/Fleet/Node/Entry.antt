-- ===== src/Fleet/Node/Entry.antt =====
-- The three ways in which the node takes a task: a call of the gRPC service, a message of the topic
-- /fleet/task_request and a message of the queue tasks.incoming. fleet_server_node.cpp of
-- src/fms_fleet_server.
use warehouse_fleet_manageme.Common.{
  ℕ, String, ◌≡◌, refl, false, Option, none, some, ◌⊎◌, inl, inr, if◌then◌else◌,
}
use warehouse_fleet_manageme.Float.{Double}
use warehouse_fleet_manageme.Messages.{TaskAssignment}
use warehouse_fleet_manageme.Fleet.Effect.{Result, returned, threw}
use warehouse_fleet_manageme.Fleet.Store.{Mongo}
use warehouse_fleet_manageme.Fleet.Broker.{Amqp, ack, reject}
use warehouse_fleet_manageme.Fleet.Allocator.{select_best_robot}
use warehouse_fleet_manageme.Fleet.Node.{
  FleetServer, SubmitResult, Times, select_robot, dispatch_assignment, submit_to, submit_task,
  request_to, task_request_cb,
}
use warehouse_fleet_manageme.Fleet.Node.Consume.{JsonLibrary, assign_message, handle_request}

-- Whether the call returned.
abbrev pub forget : {A : Type 0} → Result A → Result (Unit {0})
forget (returned a) = returned tt
forget threw = threw

module _ {A S : Type 0} where
  pub outcomes :
      (x : Result A × S)
      → ((a : A) × (s : S) × (x ≡ (returned a, s))) ⊎ ((s : S) × (x ≡ (threw, s)))
  outcomes (returned a, s) = inl (a, s, refl)
  outcomes (threw, s) = inr (s, refl)

module _ {D DB Q J : Type 0} ⦃d : Double D⦄ (library : JsonLibrary D J) (mongo : Mongo D DB)
    (amqp : Amqp Q) where
  -- The connection once the message is settled by this answer of `submit_task`.
  abbrev settled : ℕ → Result SubmitResult → Q → Q
  settled tag threw q = q
  settled tag (returned r) q =
      if r.accepted then (ack amqp tag q).1 else (reject amqp tag false q).1

  abbrev pub with_settled :
      ℕ → Result SubmitResult × FleetServer D DB Q → Result (Unit {0}) × FleetServer D DB Q
  with_settled tag (r, s) = (forget r, record s { conn = settled tag r s.conn })

  assign_agrees :
      (now : Times) (tag : ℕ) (request : TaskAssignment D) (best : Option (String × D))
      (s : FleetServer D DB Q)
      → let a = submit_to mongo now request best s in
        (request_to mongo now request best s ≡ (forget a.0, a.1))
        × (assign_message library mongo amqp now tag request best s ≡ with_settled tag a)
  unfolding assign_message ack reject
  assign_agrees now tag request none s = (refl, refl)
  assign_agrees now tag request (some (id, score)) s =
      elim (outcomes (dispatch_assignment mongo now (record request { robot_id = id }) s)) [
        | inl (t, s', e) ↦ rw e (refl, refl)
        | inr (s', e) ↦ rw e (refl, refl)
      ]

  -- The topic, the queue and the service take a task in the same way. Each returns exactly if the
  -- others do, and leaves the same robots, database and published tasks; the queue's message is
  -- acknowledged where the service would accept the task, rejected without a requeue where it would
  -- refuse it, and left unsettled where it would throw.
  pub entries_agree :
      (now : Times) (tag : ℕ) (request : TaskAssignment D) (s : FleetServer D DB Q)
      → let a = submit_task mongo now request s in
        (task_request_cb mongo now request s ≡ (forget a.0, a.1))
        × (handle_request library mongo amqp now tag (some request) s ≡ with_settled tag a)
  unfolding submit_task task_request_cb handle_request select_robot
  entries_agree now tag request s =
      assign_agrees now tag request (select_best_robot s.latest_status request s.soc_weight) s
