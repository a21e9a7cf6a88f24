-- ===== src/Fleet/Node/Consume/Settled.antt =====
-- What becomes of a message of the queue tasks.incoming: fleet_server_node.cpp of
-- src/fms_fleet_server.
use warehouse_fleet_manageme.Common.{
  ℕ, String, ◌≡◌, refl, false, none, some, ◌∷◌, Option-cases, ◌⊎◌, inl, inr,
}
use warehouse_fleet_manageme.Common.TextMaps.{find}
use warehouse_fleet_manageme.Float.{Double, IsIeee}
use warehouse_fleet_manageme.Messages.{TaskAssignment}
use warehouse_fleet_manageme.Fleet.Effect.{returned}
use warehouse_fleet_manageme.Fleet.Allocator.{select_best_robot}
use warehouse_fleet_manageme.Fleet.Allocator.Best.{select_best_robot-IsBest}
use warehouse_fleet_manageme.Fleet.Store.{Mongo, insert_task}
use warehouse_fleet_manageme.Fleet.Broker.{Amqp, Message, ack, reject}
use warehouse_fleet_manageme.Fleet.Node.{FleetServer, Times, select_robot}
use warehouse_fleet_manageme.Fleet.Node.Submit.{
  IsTracked, Takes, IsAssigned, outgoing, best_tracked, dispatch_lem,
}
use warehouse_fleet_manageme.Fleet.Node.Consume.{
  JsonLibrary, read_request, assign_message, handle_request, handle_message,
}

module _ {D J DB Q : Type 0} ⦃d : Double D⦄ (library : JsonLibrary D J) (mongo : Mongo D DB)
    (amqp : Amqp Q) where
  abbrev pub acked : ℕ → FleetServer D DB Q → FleetServer D DB Q
  acked tag s = record s { conn = amqp.basic_ack tag s.conn }

  abbrev pub rejected : ℕ → FleetServer D DB Q → FleetServer D DB Q
  rejected tag s = record s { conn = amqp.basic_reject tag false s.conn }

  handle_unread :
      (now : Times) (tag : ℕ) (s : FleetServer D DB Q)
      → handle_request library mongo amqp now tag none s ≡ (returned tt, rejected tag s)
  unfolding handle_request reject
  handle_unread now tag s = refl

  handle_refused :
      (now : Times) (tag : ℕ) (request : TaskAssignment D) (s : FleetServer D DB Q)
      → select_best_robot s.latest_status request s.soc_weight ≡ none
      → handle_request library mongo amqp now tag (some request) s ≡ (returned tt, rejected tag s)
  unfolding handle_request assign_message reject select_robot
  handle_refused now tag request s e = rw e

  handle_assigned :
      (now : Times) (tag : ℕ) (request : TaskAssignment D) (s : FleetServer D DB Q) (id : String)
      (best : D) (i : ℕ) (db' : DB)
      → select_best_robot s.latest_status request s.soc_weight ≡ some (id, best)
      → find id s.robot_index ≡ some i
      → insert_task mongo (outgoing now request id) s.db ≡ (returned tt, db')
      → handle_request library mongo amqp now tag (some request) s ≡ (
        returned tt,
        acked tag (record s { published = (i, outgoing now request id) ∷ s.published; db = db' }),
      )
  unfolding handle_request assign_message ack select_robot
  handle_assigned now tag request s id best i db' e f g =
      rw (e, dispatch_lem mongo now (record request { robot_id = id }) s i db' f g)

  -- The message cannot be read, or no robot can be chosen for its task; or the task went to the
  -- best robot and the database, and the message is acknowledged.
  abbrev pub IsSettled : Times → Message → FleetServer D DB Q → FleetServer D DB Q → Type 0
  IsSettled now message s s' =
      ((read_request library message.body ≡ none) × (s' ≡ rejected message.delivery_tag s))
      ⊎ ((request : TaskAssignment D) × (read_request library message.body ≡ some request)
          × (((select_best_robot s.latest_status request s.soc_weight ≡ none)
                × (s' ≡ rejected message.delivery_tag s))
              ⊎ ((id : String) × (assigned : FleetServer D DB Q) × IsAssigned mongo now request s id
                    assigned
                  × (s' ≡ acked message.delivery_tag assigned))))

  module _ (laws : IsIeee D) where
    -- Where each robot that sent a status has a publisher and the database takes the task, a
    -- message of the queue is settled once, without an exception. A message that cannot be read,
    -- and one for whose task no robot can be chosen, is rejected and not put back, and nothing else
    -- changes. Any other task goes to the best robot and to the database, and its message is
    -- acknowledged.
    pub handle_message_settles :
        (now : Times) (message : Message) (s : FleetServer D DB Q)
        → IsTracked s
        → ((request : TaskAssignment D)
            → read_request library message.body ≡ some request
            → Takes mongo now request s.db)
        → (s' : FleetServer D DB Q) × (handle_message library mongo amqp now (some message) s
            ≡ (returned tt, s'))
          × IsSettled now message s s'
    unfolding handle_message
    handle_message_settles now message s t takes =
        elim (Option-cases (read_request library message.body)) [
          | inl e ↦ (
            rejected message.delivery_tag s,
            rw e (handle_unread now message.delivery_tag s),
            inl (e, refl),
          )
          | inr (request, e) ↦
              elim (Option-cases (select_best_robot s.latest_status request s.soc_weight)) [
                | inl f ↦ (
                  rejected message.delivery_tag s,
                  rw e (handle_refused now message.delivery_tag request s f),
                  inr (request, e, inl (f, refl)),
                )
                | inr ((id, best), f) ↦
                    let (i, g) = best_tracked mongo laws request s id best t f in
                    let (db', h) = takes request e id in
                    let sent : FleetServer D DB Q = record s {
                      published = (i, outgoing now request id) ∷ s.published;
                      db = db';
                    } in
                    (
                      acked message.delivery_tag sent,
                      rw e (handle_assigned now message.delivery_tag request s id best i db' f g h),
                      inr (
                        request,
                        e,
                        inr (
                          id,
                          sent,
                          (
                            best,
                            i,
                            db',
                            select_best_robot-IsBest request s.soc_weight laws s.latest_status id
                                best f,
                            g,
                            h,
                            refl,
                          ),
                          refl,
                        ),
                      ),
                    )
              ]
        ]
