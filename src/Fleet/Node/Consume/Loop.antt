-- ===== src/Fleet/Node/Consume/Loop.antt =====
-- The consumer thread as a whole: fleet_server_node.cpp of src/fms_fleet_server.
use warehouse_fleet_manageme.Common.{
  ◌≡◌, refl, ap, ◌∙◌, Bool, true, false, Option, none, some, List, [], ◌∷◌, Bool-cases,
  if◌then◌else◌, inl, inr,
}
use warehouse_fleet_manageme.Float.{Double, IsIeee}
use warehouse_fleet_manageme.Messages.{TaskAssignment}
use warehouse_fleet_manageme.Fleet.Effect.{Result, returned, threw, continue}
use warehouse_fleet_manageme.Fleet.Store.{Mongo}
use warehouse_fleet_manageme.Fleet.Broker.{Amqp, Message, consume_incoming}
use warehouse_fleet_manageme.Fleet.Node.{FleetServer, Times, sent}
use warehouse_fleet_manageme.Fleet.Node.Submit.{IsTracked, Takes}
use warehouse_fleet_manageme.Fleet.Node.Consume.{
  JsonLibrary, handle_message, caught, consume_once, rabbitmq_consume_loop,
}
use warehouse_fleet_manageme.Fleet.Node.Consume.Settled.{IsSettled, handle_message_settles}

if-true : {A : Type 0} (x y : A) (b : Bool) → b ≡ true → (if b then x else y) ≡ x
if-true x y true e = refl
if-true x y false e = cc

if-false : {A : Type 0} (x y : A) (b : Bool) → b ≡ false → (if b then x else y) ≡ y
if-false x y true e = cc
if-false x y false e = refl

module _ {D DB Q : Type 0} where
  -- The two servers know the same robots.
  record IsSameView (s s' : FleetServer D DB Q) : Type 0 where
    statuses : s'.latest_status ≡ s.latest_status
    index : s'.robot_index ≡ s.robot_index

  IsSameView-IsTracked : {s s' : FleetServer D DB Q} → IsSameView s s' → IsTracked s → IsTracked s'
  IsSameView-IsTracked {s} {s'} v t = rw (v.statuses, v.index) t

module _ {D J DB Q : Type 0} ⦃d : Double D⦄ (library : JsonLibrary D J) (mongo : Mongo D DB)
    (amqp : Amqp Q) where
  IsSettled-IsSameView :
      (now : Times) (message : Message) (s s' : FleetServer D DB Q)
      → IsSettled library mongo amqp now message s s'
      → IsSameView s s'
  IsSettled-IsSameView now message s s' (inl (_, e)) = record {
    statuses = ap (λ x. x.latest_status) e;
    index = ap (λ x. x.robot_index) e;
  }
  IsSettled-IsSameView now message s s' (inr (_, _, inl (_, e))) = record {
    statuses = ap (λ x. x.latest_status) e;
    index = ap (λ x. x.robot_index) e;
  }
  IsSettled-IsSameView now message s s' (inr (_, _, inr (_, _, (_, _, _, _, _, _, f), e))) =
      record {
        statuses = ap (λ x. x.latest_status) e ∙ ap (λ x. x.latest_status) f;
        index = ap (λ x. x.robot_index) e ∙ ap (λ x. x.robot_index) f;
      }

  module _ (laws : IsIeee D)
      (takes : (now : Times) (request : TaskAssignment D) (db : DB)
        → Takes mongo now request db) where
    caught_returns :
        (now : Times) (r : Result (Option Message) × Q) (s : FleetServer D DB Q)
        → IsTracked s
        → (s' : FleetServer D DB Q) × (caught library mongo amqp now (sent r s) ≡ (returned tt, s'))
          × IsSameView s s'
    unfolding handle_message
    caught_returns now (threw, q) s t =
        (record s { conn = q }, refl, record { statuses = refl; index = refl })
    caught_returns now (returned none, q) s t =
        (record s { conn = q }, refl, record { statuses = refl; index = refl })
    caught_returns now (returned (some message), q) s t =
        let (s', e, settled) =
          handle_message_settles library mongo amqp laws now message (record s { conn = q }) t
            (λ request _. takes now request s.db) in
        let v = IsSettled-IsSameView now message (record s { conn = q }) s' settled in
        (s', e, record { statuses = v.statuses; index = v.index })

    consume_once_returns :
        (now : Times) (s : FleetServer D DB Q)
        → IsTracked s
        → (s' : FleetServer D DB Q) × (consume_once library mongo amqp now s ≡ (returned tt, s'))
          × IsSameView s s'
    unfolding consume_once
    consume_once_returns now s t = caught_returns now (consume_incoming amqp 1 s.conn) s t

    -- Where each robot that sent a status has a publisher and the database takes every task, no
    -- exception ends the consumer, whatever the broker delivers and for however many rounds, and
    -- each robot that sent a status still has a publisher.
    pub consume_loop_returns :
        (times : List Times) (s : FleetServer D DB Q)
        → IsTracked s
        → (s' : FleetServer D DB Q) × (rabbitmq_consume_loop library mongo amqp times s
            ≡ (returned tt, s'))
          × IsTracked s'
    unfolding rabbitmq_consume_loop
    consume_loop_returns [] s t = (s, refl, t)
    consume_loop_returns (now ∷ later) s t = elim (Bool-cases s.rabbitmq_running) [
      | inl e ↦
          let (s1, c, v) = consume_once_returns now s t in
          let (s', h, t') = consume_loop_returns later s1 (IsSameView-IsTracked v t) in
          (
            s',
            if-true _ _ s.rabbitmq_running e
                ∙ ap (λ r. continue r (λ _. rabbitmq_consume_loop library mongo amqp later)) c
                ∙ h,
            t',
          )
      | inr e ↦ (s, if-false _ _ s.rabbitmq_running e, t)
    ]
