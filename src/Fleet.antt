-- ===== src/Fleet.antt =====
-- The fleet server: src/fms_fleet_server.
pub mod Allocator
pub mod Names
pub mod Effect
pub mod Store
pub mod Broker
pub mod Node
pub mod Grpc
pub mod Setup
pub mod System
pub mod Main
