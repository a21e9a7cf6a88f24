-- ===== src/Fleet/Node/Consume.antt =====
-- The consumer of the queue tasks.incoming: fleet_server_node.cpp of src/fms_fleet_server. The JSON
-- library is a parameter.
pub mod Settled
pub mod Loop
pub mod Wire
use warehouse_fleet_manageme.Common.{
  ℕ, ◌%◌, List, [], ◌∷◌, ℤ, pos, negsuc, String, Bool, true, false, Option, none, some, ◌-◌,
  if◌then◌else◌,
}
use warehouse_fleet_manageme.Float.{Double, nought}
use warehouse_fleet_manageme.Messages.{
  Position, Pose, TaskAssignment, default_assignment, default_pose,
}
use warehouse_fleet_manageme.Fleet.Effect.{
  Result, returned, threw, M, pure, throw, ◌>>=◌, ◌>>◌, continue,
}
use warehouse_fleet_manageme.Fleet.Store.{Mongo}
use warehouse_fleet_manageme.Fleet.Broker.{Amqp, Message, consume_incoming, ack, reject}
use warehouse_fleet_manageme.Fleet.Node.{
  FleetServer, Times, on_broker, select_robot, dispatch_assignment,
}

-- A JSON library; `none` is an exception.
pub record JsonLibrary (D J : Type 0) : Type 0 where
  pub parse : String → Option J
  -- `json.value(key, default)`.
  pub value_string : J → String → String → Option String
  pub value_int : J → String → ℤ → Option ℤ
  pub value_float : J → String → D → Option D
  -- `json.at(key)` and `get<double>()`.
  pub at_key : J → String → Option J
  pub get_double : J → Option D

infixl 5 ◌>>=ₒ◌
abbrev ◌>>=ₒ◌ : {A B : Type 0} → Option A → (A → Option B) → Option B
none >>=ₒ f = none
some a >>=ₒ f = f a

-- The conversion of an `int` to `uint8_t`.
abbrev pub to_uint8 : ℤ → ℕ
to_uint8 (pos n) = n % 256
to_uint8 (negsuc n) = 255 - n % 256

module _ {D J : Type 0} (library : JsonLibrary D J) where
  abbrev coordinate : J → String → String → Option D
  coordinate json name axis =
      library.at_key json name >>=ₒ λ point. library.at_key point axis >>=ₒ library.get_double

  module _ ⦃d : Double D⦄ where
    abbrev pub pose_at : D → D → Pose D
    pose_at x y = record (default_pose {D = D}) { position = record { x = x; y = y; z = nought } }

    -- The body of the `try`: a task, or an exception.
    unfoldable pub read_request : String → Option (TaskAssignment D)
    read_request body = library.parse body >>=ₒ λ json.
        library.value_string json "task_id" "" >>=ₒ λ task_id.
        library.value_int json "task_type" (pos 0) >>=ₒ λ task_type.
        coordinate json "pick" "x" >>=ₒ λ pick_x. coordinate json "pick" "y" >>=ₒ λ pick_y.
        coordinate json "drop" "x" >>=ₒ λ drop_x. coordinate json "drop" "y" >>=ₒ λ drop_y.
        library.value_int json "priority" (pos 1) >>=ₒ λ priority.
        library.value_float json "deadline_secs" (d.decimal 3000 1) >>=ₒ λ deadline_secs.
        some (record (default_assignment {D = D}) {
          task_id = task_id;
          task_type = to_uint8 task_type;
          pick_pose = pose_at pick_x pick_y;
          drop_pose = pose_at drop_x drop_y;
          priority = to_uint8 priority;
          deadline_secs = deadline_secs;
        })

  module _ {DB Q : Type 0} ⦃d : Double D⦄ (mongo : Mongo D DB) (amqp : Amqp Q) where
    -- What follows the choice of a robot.
    unfoldable pub assign_message :
        Times → ℕ → TaskAssignment D → Option (String × D) → M (FleetServer D DB Q) (Unit {0})
    assign_message now tag request none = on_broker (reject amqp tag false)
    assign_message now tag request (some (best_robot, best_score)) = do
      assignment ← dispatch_assignment mongo now (record request { robot_id = best_robot })
      on_broker (ack amqp tag)

    unfoldable pub handle_request :
        Times → ℕ → Option (TaskAssignment D) → M (FleetServer D DB Q) (Unit {0})
    unfolding select_robot assign_message
    handle_request now tag none = on_broker (reject amqp tag false)
    handle_request now tag (some request) = do
      best ← select_robot request
      assign_message now tag request best

    unfoldable pub handle_message : Times → Option Message → M (FleetServer D DB Q) (Unit {0})
    unfolding read_request handle_request
    handle_message now none = pure tt
    handle_message now (some message) =
        handle_request now message.delivery_tag (read_request message.body)

    -- An exception of `consume_incoming` is logged; one of the rest is not caught.
    abbrev pub caught :
        Times
        → Result (Option Message) × FleetServer D DB Q
        → Result (Unit {0}) × FleetServer D DB Q
    caught now (returned message, s) = handle_message now message s
    caught now (threw, s) = (returned tt, s)

    unfoldable pub consume_once : Times → M (FleetServer D DB Q) (Unit {0})
    unfolding handle_message
    consume_once now s = caught now (on_broker (consume_incoming amqp 1) s)

    -- The loop, for at most as many rounds as there are readings of the clock.
    unfoldable pub rabbitmq_consume_loop : List Times → M (FleetServer D DB Q) (Unit {0})
    rabbitmq_consume_loop [] s = (returned tt, s)
    rabbitmq_consume_loop (now ∷ later) s =
        let rest = continue (consume_once now s) (λ _. rabbitmq_consume_loop later) in
        if s.rabbitmq_running then rest else (returned tt, s)
