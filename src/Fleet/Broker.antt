-- ===== src/Fleet/Broker.antt =====
-- The task broker: rabbitmq_client.hpp and rabbitmq_client.cpp of src/fms_fleet_server. The calls
-- of rabbitmq-c on a connection are parameters.
pub mod Topology
use warehouse_fleet_manageme.Common.{
  ℕ, ℤ, String, Bool, true, false, not, ◌&&◌, Option, none, some, List, [], ◌∷◌, if◌then◌else◌,
}
use warehouse_fleet_manageme.Fleet.Effect.{Result, returned, M, pure, throw, ◌>>=◌, ◌>>◌, continue}

pub data ReplyType : Type 0 where
  no_reply normal library_exception server_exception : ReplyType

pub record Reply : Type 0 where
  pub reply_type : ReplyType
  -- `library_error == AMQP_STATUS_TIMEOUT`.
  pub timed_out : Bool

pub record Message : Type 0 where
  pub delivery_tag : ℕ
  pub body : String

-- A request on the channel. The flags that are not here are 0 in every call.
pub data Command : Type 0 where
  -- name, type, durable
  exchange_declare : String → String → Bool → Command
  -- name, durable, arguments
  queue_declare : String → Bool → List (String × String) → Command
  -- queue, exchange, routing key
  queue_bind : String → String → String → Command
  -- queue, no_ack
  basic_consume : String → Bool → Command

pub record Amqp (Q : Type 0) : Type 0 where
  -- `amqp_tcp_socket_new` and `amqp_socket_open` succeed.
  pub socket_new : Q → Bool × Q
  pub socket_open : String → ℤ → Q → Bool × Q
  pub login : String → String → Q → Reply × Q
  pub channel_open : Q → Reply × Q
  pub close : Q → Q
  -- A request and its `amqp_get_rpc_reply`.
  pub send : Command → Q → Reply × Q
  -- Exchange, routing key, delivery mode, body; whether the status is OK.
  pub basic_publish : String → String → ℕ → String → Q → Bool × Q
  pub consume_message : ℕ → Q → Reply × Message × Q
  pub basic_ack : ℕ → Q → Q
  pub basic_reject : ℕ → Bool → Q → Q

abbrev pub is_normal : ReplyType → Bool
is_normal normal = true
is_normal _ = false

abbrev pub is_library_exception : ReplyType → Bool
is_library_exception library_exception = true
is_library_exception _ = false

unfoldable pub check_reply : {Q : Type 0} → Reply → M Q (Unit {0})
check_reply reply = if not (is_normal reply.reply_type) then throw else pure tt

abbrev pub check_status : {Q : Type 0} → Bool → M Q (Unit {0})
check_status ok = if not ok then throw else pure tt

-- A call of the library that cannot fail as such.
abbrev pub run_call : {Q A : Type 0} → (Q → A × Q) → M Q A
run_call f q = (returned (f q).0, (f q).1)

abbrev pub dlx_entries : List (String × String)
dlx_entries = ("x-dead-letter-exchange", "tasks.dlx") ∷ ("x-dead-letter-routing-key", "failed") ∷ []

abbrev pub received : {Q : Type 0} → Reply → Message → M Q (Option Message)
received reply message =
    if not (is_normal reply.reply_type)
    then if is_library_exception reply.reply_type && reply.timed_out then pure none else throw
    else pure (some message)

module _ {Q : Type 0} (amqp : Amqp Q) where
  unfoldable pub connect : String → ℤ → String → String → M Q (Unit {0})
  unfolding check_reply
  connect host port user password = do
    socket ← run_call amqp.socket_new
    check_status socket
    opened ← run_call (amqp.socket_open host port)
    check_status opened
    logged_in ← run_call (amqp.login user password)
    check_reply logged_in
    channel ← run_call amqp.channel_open
    check_reply channel

  unfoldable pub disconnect : Q → Q
  disconnect q = amqp.close q

  abbrev pub request : Command → M Q (Unit {0})
  request c = do reply ← run_call (amqp.send c); check_reply reply

  unfoldable pub setup_topology : M Q (Unit {0})
  unfolding check_reply
  setup_topology = do
    request (exchange_declare "tasks.dlx" "direct" true)
    request (queue_declare "tasks.failed" true [])
    request (queue_bind "tasks.failed" "tasks.dlx" "failed")
    request (exchange_declare "tasks" "direct" true)
    request (queue_declare "tasks.incoming" true dlx_entries)
    request (queue_bind "tasks.incoming" "tasks" "incoming")
    request (basic_consume "tasks.incoming" false)

  unfoldable pub publish : String → String → String → M Q (Unit {0})
  publish exchange routing_key body = do
    sent ← run_call (amqp.basic_publish exchange routing_key 2 body)
    check_status sent

  unfoldable pub publish_failed : String → M Q (Unit {0})
  unfolding publish
  publish_failed json_body = publish "tasks.dlx" "failed" json_body

  -- `none` is `false`, a timeout.
  unfoldable pub consume_incoming : ℕ → M Q (Option Message)
  consume_incoming timeout_sec q =
      let (reply, message, q') = amqp.consume_message timeout_sec q in received reply message q'

  unfoldable pub ack : ℕ → M Q (Unit {0})
  ack delivery_tag q = (returned tt, amqp.basic_ack delivery_tag q)

  unfoldable pub reject : ℕ → Bool → M Q (Unit {0})
  reject delivery_tag requeue q = (returned tt, amqp.basic_reject delivery_tag requeue q)
