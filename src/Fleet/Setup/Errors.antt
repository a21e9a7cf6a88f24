-- ===== src/Fleet/Setup/Errors.antt =====
-- When the client of the broker can be made: rabbitmq_client.cpp of src/fms_fleet_server.
use warehouse_fleet_manageme.Common.{ℤ, String, ◌≡◌, ◌↔◌, true, arith}
use warehouse_fleet_manageme.Fleet.Effect.{returned}
use warehouse_fleet_manageme.Fleet.Broker.{Amqp, is_normal, check_reply, connect}

module _ {Q : Type 0} (amqp : Amqp Q) where
  -- The four calls, in their order.
  abbrev IsConnected : String → ℤ → String → String → Q → Type 0
  IsConnected host port user password q =
      let socket = amqp.socket_new q in
      let opened = amqp.socket_open host port socket.1 in
      let logged_in = amqp.login user password opened.1 in
      let channel = amqp.channel_open logged_in.1 in
      (socket.0 ≡ true)
      × (opened.0 ≡ true)
      × (is_normal logged_in.0.reply_type ≡ true)
      × (is_normal channel.0.reply_type ≡ true)

  -- The client of the broker is constructed exactly if the socket is made and opened, and the login
  -- and the channel, each on what the calls before it left, have normal replies.
  connect-eq-returned_iff :
      (host : String) (port : ℤ) (user password : String) (q : Q)
      → ((connect amqp host port user password q).0 ≡ returned tt)
        ↔ IsConnected host port user password q
  unfolding connect check_reply
  connect-eq-returned_iff host port user password q = (ground arith, ground arith)
