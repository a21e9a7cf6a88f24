-- ===== src/Fleet/System/Entries.antt =====
-- The calls that take a task as events of the fleet server: fleet_server_node.cpp and
-- fleet_grpc_server.cpp of src/fms_fleet_server.
use warehouse_fleet_manageme.Common.{
  ℕ, String, ◌≡◌, refl, Bool, true, false, Option, none, some, List, [], ◌∷◌, inl, inr,
  Option-cases, if◌then◌else◌,
}
use warehouse_fleet_manageme.Float.{Double}
use warehouse_fleet_manageme.Messages.{TaskAssignment, IsWire}
use warehouse_fleet_manageme.Fleet.Effect.{Result, returned, threw, pure, continue}
use warehouse_fleet_manageme.Fleet.Allocator.{select_best_robot}
use warehouse_fleet_manageme.Fleet.Store.{Mongo, Fields}
use warehouse_fleet_manageme.Fleet.Broker.{Amqp, Message, consume_incoming}
use warehouse_fleet_manageme.Fleet.Node.{
  FleetServer, SubmitResult, Times, on_broker, select_robot, dispatch_assignment, submit_to,
  submit_task, task_request_cb,
}
use warehouse_fleet_manageme.Fleet.Node.Entry.{outcomes, entries_agree}
use warehouse_fleet_manageme.Fleet.Node.Consume.{
  JsonLibrary, read_request, handle_request, handle_message, caught, consume_once,
  rabbitmq_consume_loop,
}
use warehouse_fleet_manageme.Fleet.Grpc.{
  SubmitTaskRequest, submit_response, task_of, submit_task_call,
}
use warehouse_fleet_manageme.Fleet.System.{
  AtWork, Incoming, from_topic, from_queue, from_service, choose, dispatch, exchange, Events, here,
  next,
}

module _ {D DB Q : Type 0} ⦃d : Double D⦄ (mongo : Mongo D DB) where
  pub submit_to-dispatch :
      (now : Times) (t : TaskAssignment D) (id : String) (best : D) (s : FleetServer D DB Q)
      → (submit_to mongo now t (some (id, best)) s).1
        ≡ (dispatch_assignment mongo now (record t { robot_id = id }) s).1
  submit_to-dispatch now t id best s =
      elim (outcomes (dispatch_assignment mongo now (record t { robot_id = id }) s)) [
        | inl (a, s', e) ↦ rw e refl
        | inr (s', e) ↦ rw e refl
      ]

module _ {D DB Q J : Type 0} ⦃d : Double D⦄ (library : JsonLibrary D J) (mongo : Mongo D DB)
    (amqp : Amqp Q) (dump : Fields D → String) where
  -- From a node to another, with the same tasks chosen and not dispatched.
  abbrev pub Goes : List (TaskAssignment D) → FleetServer D DB Q → FleetServer D DB Q → Type 0
  Goes chosen s s' =
      Events library mongo amqp dump (record { node = s; chosen = chosen })
        (record { node = s'; chosen = chosen })

  pub Events-trans :
      {s t u : AtWork D DB Q}
      → Events library mongo amqp dump s t
      → Events library mongo amqp dump t u
      → Events library mongo amqp dump s u
  Events-trans es here = es
  Events-trans es (next fs f) = next (Events-trans es fs) f

  submit_task-Goes :
      (now : Times) (t : TaskAssignment D) (chosen : List (TaskAssignment D))
      (s : FleetServer D DB Q)
      → Incoming library t
      → Goes chosen s (submit_task mongo now t s).1
  unfolding submit_task select_robot
  submit_task-Goes now t chosen s r =
      elim (Option-cases (select_best_robot s.latest_status t s.soc_weight)) [
        | inl e ↦ rw e here
        | inr ((id, best), e) ↦
            rw (e, submit_to-dispatch mongo now t id best s)
              (next (next here (choose (record { node = s; chosen = chosen }) t id best r e))
                (dispatch s now [] chosen (record t { robot_id = id })))
      ]

  answered-Goes :
      (chosen : List (TaskAssignment D)) (s : FleetServer D DB Q)
      (x : Result SubmitResult × FleetServer D DB Q)
      → Goes chosen s x.1
      → Goes chosen s (continue x (λ r. pure (submit_response r))).1
  answered-Goes chosen s (returned r, s') es = es
  answered-Goes chosen s (threw, s') es = es

  exchange-Goes :
      (chosen : List (TaskAssignment D)) (s s' : FleetServer D DB Q) (conn : Q)
      → Goes chosen s s'
      → Goes chosen s (record s' { conn = conn })
  exchange-Goes chosen s s' conn es =
      next es (exchange (record { node = s'; chosen = chosen }) conn)

  handle_request-Goes :
      (now : Times) (tag : ℕ) (r : Option (TaskAssignment D)) (body : String)
      (chosen : List (TaskAssignment D)) (s : FleetServer D DB Q)
      → read_request library body ≡ r
      → Goes chosen s (handle_request library mongo amqp now tag r s).1
  unfolding handle_request
  handle_request-Goes now tag none body chosen s e = exchange-Goes chosen s s _ here
  handle_request-Goes now tag (some t) body chosen s e =
      rw ((entries_agree library mongo amqp now tag t s).1)
        (exchange-Goes chosen s _ _ (submit_task-Goes now t chosen s (from_queue body t e)))

  caught_message-Goes :
      (now : Times) (m : Option Message) (chosen : List (TaskAssignment D)) (s : FleetServer D DB Q)
      → Goes chosen s (handle_message library mongo amqp now m s).1
  unfolding handle_message
  caught_message-Goes now none chosen s = here
  caught_message-Goes now (some m) chosen s =
      handle_request-Goes now m.delivery_tag (read_request library m.body) m.body chosen s refl

  received-Goes :
      (now : Times) (chosen : List (TaskAssignment D)) (s : FleetServer D DB Q)
      (x : Result (Option Message) × Q)
      → Goes chosen s (caught library mongo amqp now (on_broker (λ _. x) s)).1
  received-Goes now chosen s (returned m, conn) =
      Events-trans (exchange-Goes chosen s s conn here)
        (caught_message-Goes now m chosen (record s { conn = conn }))
  received-Goes now chosen s (threw, conn) = exchange-Goes chosen s s conn here

  consume_once-Goes :
      (now : Times) (chosen : List (TaskAssignment D)) (s : FleetServer D DB Q)
      → Goes chosen s (consume_once library mongo amqp now s).1
  unfolding consume_once
  consume_once-Goes now chosen s = received-Goes now chosen s (consume_incoming amqp 1 s.conn)

  looped :
      (on : Bool) (chosen : List (TaskAssignment D)) (s : FleetServer D DB Q)
      (x : Result (Unit {0}) × FleetServer D DB Q)
      → Goes chosen s x.1
      → Goes chosen s (if on then x else (returned tt, s)).1
  looped true chosen s x es = es
  looped false chosen s x es = here

  onward-Goes :
      (later : List Times) (chosen : List (TaskAssignment D)) (s : FleetServer D DB Q)
      (x : Result (Unit {0}) × FleetServer D DB Q)
      → ((s' : FleetServer D DB Q)
          → Goes chosen s' (rabbitmq_consume_loop library mongo amqp later s').1)
      → Goes chosen s x.1
      → Goes chosen s (continue x (λ _. rabbitmq_consume_loop library mongo amqp later)).1
  onward-Goes later chosen s (returned _, s') rest es = Events-trans es (rest s')
  onward-Goes later chosen s (threw, s') rest es = es

  rabbitmq_consume_loop-Goes :
      (readings : List Times) (chosen : List (TaskAssignment D)) (s : FleetServer D DB Q)
      → Goes chosen s (rabbitmq_consume_loop library mongo amqp readings s).1
  unfolding rabbitmq_consume_loop
  rabbitmq_consume_loop-Goes [] chosen s = here
  rabbitmq_consume_loop-Goes (now ∷ later) chosen s = looped s.rabbitmq_running chosen s _ (
      onward-Goes later chosen s (consume_once library mongo amqp now s)
        (rabbitmq_consume_loop-Goes later chosen) (consume_once-Goes now chosen s))

  -- Each way in which a task enters, a message of the topic whose numbers fit, a call of the
  -- service and the loop of the consumer, is a sequence of events of the node, also where it throws.
  pub entries-Goes :
      (now : Times) (msg : TaskAssignment D) (request : SubmitTaskRequest D) (readings : List Times)
      (chosen : List (TaskAssignment D)) (s : FleetServer D DB Q)
      → IsWire msg
      → Goes chosen s (task_request_cb mongo now msg s).1
        × Goes chosen s (submit_task_call mongo now request s).1
        × Goes chosen s (rabbitmq_consume_loop library mongo amqp readings s).1
  unfolding submit_task_call
  entries-Goes now msg request readings chosen s w = (
    rw ((entries_agree library mongo amqp now 0 msg s).0)
        (submit_task-Goes now msg chosen s (from_topic msg w)),
    answered-Goes chosen s (submit_task mongo now (task_of request) s)
        (submit_task-Goes now (task_of request) chosen s (from_service request)),
    rabbitmq_consume_loop-Goes readings chosen s,
  )
