-- ===== src/Examples.antt =====
-- The theorems at concrete inputs: src/fms_robot_agent and src/fms_fleet_server.
pub mod Fleet
pub mod Robot
pub mod Warehouse
pub mod Tree
pub mod Played
