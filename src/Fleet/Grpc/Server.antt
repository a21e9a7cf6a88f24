-- ===== src/Fleet/Grpc/Server.antt =====
-- The start and the end of the gRPC service: fleet_grpc_server.hpp and fleet_grpc_server.cpp of
-- src/fms_fleet_server. Whether the library can listen at an address is a parameter.
use warehouse_fleet_manageme.Common.{
  ℕ, zero, suc, ◌≡◌, refl, String, Bool, true, false, Option, none, some, ◌==◌, not, arith,
  if◌then◌else◌,
}

-- A server that was built serves until it is shut down.
pub data Serving : Type 0 where
  serving shut_down : Serving

pub record GrpcServer : Type 0 where
  pub address : String
  -- `server_`.
  pub server : Option Serving

unfoldable pub create : String → GrpcServer
create address = record { address = address; server = none }

-- `run` up to the wait. `BuildAndStart` gives no server where it cannot listen.
unfoldable pub build_and_start : (String → Bool) → GrpcServer → GrpcServer
build_and_start can_listen g = record g {
  server = if can_listen g.address then some serving else none;
}

-- What `server_->Wait()` does, the rest of `run`. Without a server the pointer is null.
pub data Wait : Type 0 where
  blocked finished null_pointer : Wait

abbrev wait_for : Option Serving → Wait
wait_for none = null_pointer
wait_for (some serving) = blocked
wait_for (some shut_down) = finished

unfoldable pub wait : GrpcServer → Wait
wait g = wait_for g.server

abbrev shut : Option Serving → Option Serving
shut none = none
shut (some s) = some shut_down

unfoldable pub shutdown : GrpcServer → GrpcServer
shutdown g = record g { server = shut g.server }

-- A number of calls of `shutdown`.
unfoldable pub shutdowns : ℕ → GrpcServer → GrpcServer
shutdowns zero g = g
shutdowns (suc n) g = shutdowns n (shutdown g)

shutdowns-create : (n : ℕ) (address : String) → shutdowns n (create address) ≡ create address
unfolding shutdowns shutdown create
shutdowns-create zero address = refl
shutdowns-create (suc n) address = shutdowns-create n address

shutdowns_again :
    (n : ℕ) (address : String)
    → shutdowns n (record { address = address; server = some shut_down })
      ≡ record { address = address; server = some shut_down }
unfolding shutdowns shutdown
shutdowns_again zero address = refl
shutdowns_again (suc n) address = shutdowns_again n address

shutdowns_absent :
    (n : ℕ) (address : String)
    → shutdowns n (record { address = address; server = none })
      ≡ record { address = address; server = none }
unfolding shutdowns shutdown
shutdowns_absent zero address = refl
shutdowns_absent (suc n) address = shutdowns_absent n address

wait-shutdowns :
    (listens : Bool) (later : ℕ) (address : String)
    → wait (
        shutdowns later
          (record { address = address; server = if listens then some serving else none }))
      ≡ (if not listens then null_pointer else if later == 0 then blocked else finished)
unfolding wait shutdowns shutdown
wait-shutdowns false later address = rw (shutdowns_absent later address)
wait-shutdowns true zero address = refl
wait-shutdowns true (suc later) address = rw (shutdowns_again later address) (ground arith)

-- `run` ends exactly if the library can listen and `shutdown` is called after the server is built.
-- Calls before that are lost: then `run` blocks. Where the library cannot listen, `run` follows a
-- null pointer, whatever the calls.
pub run_ends :
    (can_listen : String → Bool) (address : String) (before later : ℕ)
    → wait (shutdowns later (build_and_start can_listen (shutdowns before (create address)))) ≡ (
        if not (can_listen address) then null_pointer else if later == 0 then blocked else finished)
unfolding build_and_start create
run_ends can_listen address before later =
    rw (shutdowns-create before address) (wait-shutdowns (can_listen address) later address)
