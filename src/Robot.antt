-- ===== src/Robot.antt =====
-- The robot agent: src/fms_robot_agent.
pub mod Fsm
pub mod Battery
pub mod Agent
pub mod Nodes
pub mod System
pub mod Main
pub mod Tree
