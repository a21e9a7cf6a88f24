-- ===== src/Fleet/System/Serving.antt =====
-- What holds of the fleet server at all times: fleet_server_node.cpp of src/fms_fleet_server.
use Prim.Native.String.{◌++◌ as ◌++ₛ◌}
use warehouse_fleet_manageme.Common.{
  ℕ, String, ◌≡◌, refl, ◌==◌, not, Bool, true, false, some, List, [], ◌∷◌, ◌++◌, All, All-middle,
  Option-cases, ◌⊎◌, inl, inr, arith, if◌then◌else◌,
}
use warehouse_fleet_manageme.Common.TextMaps.{find, IsSorted, assign-IsSorted}
use warehouse_fleet_manageme.Float.{Double}
use warehouse_fleet_manageme.Messages.{
  RobotStatus, TaskAssignment, TaskCompletion, result_success, IsWire,
}
use warehouse_fleet_manageme.Fleet.Effect.{M, Result, returned, threw, pure, ◌>>=◌, continue}
use warehouse_fleet_manageme.Fleet.Store.{Mongo, Fields, insert_task, update_task_completion}
use warehouse_fleet_manageme.Fleet.Broker.{Amqp, publish_failed}
use warehouse_fleet_manageme.Fleet.Node.{
  FleetServer, Times, failure_doc, on_store, on_broker, stamp_assignment, dispatch_assignment,
  robot_status_cb, task_completion_cb,
}
use warehouse_fleet_manageme.Fleet.Node.View.{IsWired, get_elem?, robot_status_cb_lem, All-assign}
use warehouse_fleet_manageme.Fleet.Node.Consume.{JsonLibrary}
use warehouse_fleet_manageme.Fleet.Node.Consume.Wire.{read_request-IsWire}
use warehouse_fleet_manageme.Fleet.Grpc.{SubmitTaskRequest, task_of}
use warehouse_fleet_manageme.Fleet.System.{
  AtWork, Incoming, from_topic, from_queue, from_service, Event, choose, dispatch, status,
  completion, exchange, stop, Events, here, next,
}

module _ {D DB Q : Type 0} where
  -- What left under an index left on the topic of its own robot.
  abbrev pub IsDelivered : FleetServer D DB Q → ℕ × TaskAssignment D → Type 0
  IsDelivered s (i, t) =
      get_elem? s.assignment_topics i ≡ some ("/" ++ₛ (t.robot_id ++ₛ "/task_assignment"))

  pub record IsServing (s : AtWork D DB Q) : Type 0 where
    pub wired : IsWired s.node
    pub sorted : IsSorted s.node.latest_status
    -- Each status is kept under its own robot.
    pub own : All (λ e. e.1.robot_id ≡ e.0) s.node.latest_status
    pub wire_chosen : All IsWire s.chosen
    pub wire_published : All (λ p. IsWire p.1) s.node.published
    pub delivered : All (IsDelivered s.node) s.node.published

  -- The database, the connection and the flag of the consumer do not matter to it.
  kept :
      (s : AtWork D DB Q) (db : DB) (conn : Q) (running : Bool)
      → IsServing s
      → IsServing
          (record s { node = record (s.node) { db = db; conn = conn; rabbitmq_running = running } })
  kept s db conn running h = record {
    wired = h.wired;
    sorted = h.sorted;
    own = h.own;
    wire_chosen = h.wire_chosen;
    wire_published = h.wire_published;
    delivered = h.delivered;
  }

module _ {D : Type 0} ⦃d : Double D⦄ where
  stamp-IsWire : (now : Times) (t : TaskAssignment D) → IsWire t → IsWire (stamp_assignment now t)
  unfolding stamp_assignment
  stamp-IsWire now t w = record {
    task_type = w.task_type;
    priority = w.priority;
    nanosec = ground arith;
  }

  addressed : (t : TaskAssignment D) (id : String) → IsWire t → IsWire (record t { robot_id = id })
  addressed t id w = record { task_type = w.task_type; priority = w.priority; nanosec = w.nanosec }

  task_of-IsWire : (r : SubmitTaskRequest D) → IsWire (task_of r)
  unfolding task_of
  task_of-IsWire r = record {
    task_type = ground arith;
    priority = ground arith;
    nanosec = ground arith;
  }

module _ {D J : Type 0} ⦃d : Double D⦄ (library : JsonLibrary D J) where
  Incoming-IsWire : (t : TaskAssignment D) → Incoming library t → IsWire t
  Incoming-IsWire t (from_topic _ w) = w
  Incoming-IsWire t (from_queue body _ e) = read_request-IsWire library body t e
  Incoming-IsWire _ (from_service r) = task_of-IsWire r

module _ {D DB Q : Type 0} ⦃d : Double D⦄ (mongo : Mongo D DB) where
  inserted :
      (t : TaskAssignment D) (s : FleetServer D DB Q) (r : Result (Unit {0}) × DB)
      → ((on_store (λ _. r) >>= (λ _. pure t)) s).1 ≡ record s { db = r.1 }
  inserted t s (returned _, db) = refl
  inserted t s (threw, db) = refl

  -- A dispatch throws before it changes anything, or publishes the task under the index of its
  -- robot.
  pub dispatched :
      (now : Times) (t : TaskAssignment D) (s : FleetServer D DB Q)
      → ((dispatch_assignment mongo now t s).1 ≡ s)
        ⊎ ((i : ℕ) × (db : DB) × (find t.robot_id s.robot_index ≡ some i)
            × ((dispatch_assignment mongo now t s).1
                ≡ record s { published = (i, stamp_assignment now t) ∷ s.published; db = db }))
  unfolding dispatch_assignment stamp_assignment
  dispatched now t s = elim (Option-cases (find t.robot_id s.robot_index)) [
    | inl e ↦ inl (rw e refl)
    | inr (i, e) ↦ inr (
      i,
      (insert_task mongo (stamp_assignment now t) s.db).1,
      e,
      rw e (
          inserted (stamp_assignment now t)
            (record s { published = (i, stamp_assignment now t) ∷ s.published })
            (insert_task mongo (stamp_assignment now t) s.db)),
    )
  ]

  reported :
      (failed : Bool) (report : M Q (Unit {0})) (r : Result (Unit {0})) (db : DB)
      (s : FleetServer D DB Q)
      → (db' : DB) × (conn : Q) × ((continue
            (r, record s { db = db })
            (λ _. if failed then on_broker report else pure tt)).1
          ≡ record s { db = db'; conn = conn })
  reported true report (returned _) db s = (db, (report s.conn).1, refl)
  reported false report (returned _) db s = (db, s.conn, refl)
  reported failed report threw db s = (db, s.conn, refl)

  pub completed :
      (amqp : Amqp Q) (dump : Fields D → String) (msg : TaskCompletion D) (s : FleetServer D DB Q)
      → (db : DB) × (conn : Q) × ((task_completion_cb mongo amqp dump msg s).1
          ≡ record s { db = db; conn = conn })
  unfolding task_completion_cb
  completed amqp dump msg s =
      reported (not (msg.result == result_success)) (publish_failed amqp (dump (failure_doc msg)))
        (update_task_completion mongo msg s.db).0 (update_task_completion mongo msg s.db).1 s

module _ {A : Type 0} where
  -- All of a list, without one of its elements.
  All-without :
      (P : A → Type 0) (front back : List A) (a : A)
      → All P (front ++ (a ∷ back))
      → All P (front ++ back)
  All-without P [] back a h = h.1
  All-without P (x ∷ front) back a h = (h.0, All-without P front back a h.1)

module _ {D DB Q : Type 0} ⦃d : Double D⦄ (mongo : Mongo D DB) where
  dispatch-IsServing :
      (node : FleetServer D DB Q) (now : Times) (front back : List (TaskAssignment D))
      (t : TaskAssignment D)
      → IsServing (record { node = node; chosen = front ++ (t ∷ back) })
      → IsServing
          (record { node = (dispatch_assignment mongo now t node).1; chosen = front ++ back })
  unfolding stamp_assignment
  dispatch-IsServing node now front back t h = elim (dispatched mongo now t node) [
    | inl e ↦ rw e (record {
      wired = h.wired;
      sorted = h.sorted;
      own = h.own;
      wire_chosen = All-without IsWire front back t h.wire_chosen;
      wire_published = h.wire_published;
      delivered = h.delivered;
    })
    | inr (i, db, f, e) ↦ record {
      wired = rw e h.wired;
      sorted = rw e h.sorted;
      own = rw e h.own;
      wire_chosen = All-without IsWire front back t h.wire_chosen;
      wire_published =
          rw e (stamp-IsWire now t (All-middle IsWire front back h.wire_chosen), h.wire_published);
      delivered = rw e ((h.wired t.robot_id i f).0, h.delivered);
    }
  ]

  status-IsServing :
      (s : AtWork D DB Q) (msg : RobotStatus D)
      → IsServing s
      → IsServing (record s { node = (robot_status_cb mongo msg s.node).1 })
  status-IsServing s msg h =
      let (db, e) = robot_status_cb_lem mongo msg s.node in
      record {
        wired = rw e h.wired;
        sorted = rw e (assign-IsSorted msg.robot_id msg s.node.latest_status h.sorted);
        own =
            rw e (
              All-assign (λ e. e.1.robot_id ≡ e.0) msg.robot_id msg s.node.latest_status refl
                h.own);
        wire_chosen = h.wire_chosen;
        wire_published = rw e h.wire_published;
        delivered = rw e h.delivered;
      }

module _ {D DB Q J : Type 0} ⦃d : Double D⦄ (library : JsonLibrary D J) (mongo : Mongo D DB)
    (amqp : Amqp Q) (dump : Fields D → String) where
  Event-IsServing :
      (s t : AtWork D DB Q) → Event library mongo amqp dump s t → IsServing s → IsServing t
  Event-IsServing s _ (choose _ t id best r e) h = record {
    wired = h.wired;
    sorted = h.sorted;
    own = h.own;
    wire_chosen = (addressed t id (Incoming-IsWire library t r), h.wire_chosen);
    wire_published = h.wire_published;
    delivered = h.delivered;
  }
  Event-IsServing _ _ (dispatch node now front back t) h =
      dispatch-IsServing mongo node now front back t h
  Event-IsServing s _ (status _ msg) h = status-IsServing mongo s msg h
  Event-IsServing s _ (completion _ msg) h =
      let (db, conn, e) = completed mongo amqp dump msg s.node in
      rw e (kept s db conn s.node.rabbitmq_running h)
  Event-IsServing s _ (exchange _ conn) h = kept s s.node.db conn s.node.rabbitmq_running h
  Event-IsServing s _ (stop _) h = kept s s.node.db s.node.conn false h

  pub Events-IsServing :
      (s t : AtWork D DB Q) → Events library mongo amqp dump s t → IsServing s → IsServing t
  Events-IsServing s _ here h = h
  Events-IsServing s t (next {t = u} es e) h = Event-IsServing u t e (Events-IsServing s u es h)
