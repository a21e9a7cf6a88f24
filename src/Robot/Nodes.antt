-- ===== src/Robot/Nodes.antt =====
-- The leaves of the behavior tree: bt_nodes of src/fms_robot_agent. A call of a leaf is a function
-- of the leaf's own fields and the node's, and gives both anew with the status it returns.
pub mod RequestTask
pub mod Navigate
pub mod Recovery
pub mod Execute
pub mod Report
pub mod Charge
pub mod Status
