-- ===== src/Robot/Nodes/Status.antt =====
-- What a call of a leaf returns, and the state that a leaf shares with the callbacks of a goal.
use warehouse_fleet_manageme.Common.{ℕ}

-- `BT::NodeStatus`, of a leaf that was ticked.
pub data NodeStatus : Type 0 where
  running success failure : NodeStatus

-- A state behind a `shared_ptr`. The leaf is its one owner, and the callbacks of a goal hold a
-- `weak_ptr`: they find it only while the leaf still holds the state of that goal.
pub record Shared (S : Type 0) : Type 0 where
  pub goal : ℕ
  pub state : S
