-- ===== src/Robot/Tree/Possible/Engine.antt =====
-- A run of TaskExecution in which all goes well: bt_xml/robot_agent.xml of src/fms_robot_agent.
use warehouse_fleet_manageme.Common.{ℕ, suc, [], ◌∷◌, ◌++◌}
use warehouse_fleet_manageme.Robot.Nodes.Status.{NodeStatus, success}
use warehouse_fleet_manageme.Robot.System.{
  Leaf, Leg, pick, drop, to_leg, request, report, nav, execute,
}
use warehouse_fleet_manageme.Robot.Tree.{
  Tree, leaf, sequence, fallback, retry_until_successful, Children, no_child, child, nav_retry,
  task_execution, History,
}

abbrev pub leg_leaves : Leg → History
leg_leaves l = (nav (to_leg l), success) ∷ (execute l, success) ∷ []

-- The leaves of a task in which every drive arrives.
abbrev pub all_succeed : History
all_succeed =
    (request, success) ∷ (leg_leaves pick ++ (leg_leaves drop ++ ((report, success) ∷ [])))

-- What the tree relies on of the engine for a run in which all goes well: a leaf may succeed, a
-- sequence goes on to the next child, and a fallback and a retry end with a first child that
-- succeeds.
pub record Admits (Ends : Tree → History → NodeStatus → Type 0) : Type 0 where
  pub leaf_succeeds : (l : Leaf) → Ends (leaf l) ((l, success) ∷ []) success
  pub sequence_over : Ends (sequence no_child) [] success
  pub sequence_on :
      (t : Tree) (ts : Children) (h1 h2 : History) (r : NodeStatus)
      → Ends t h1 success
      → Ends (sequence ts) h2 r
      → Ends (sequence (child t ts)) (h1 ++ h2) r
  pub fallback_first :
      (t : Tree) (ts : Children) (h : History)
      → Ends t h success
      → Ends (fallback (child t ts)) h success
  pub retry_first :
      (n : ℕ) (t : Tree) (h : History)
      → Ends t h success
      → Ends (retry_until_successful (suc n) t) h success

module _ (Ends : Tree → History → NodeStatus → Type 0) (engine : Admits Ends) where
  open engine use {leaf_succeeds, sequence_over, sequence_on, fallback_first, retry_first}

  leg-admitted : (l : Leg) → Ends (nav_retry 3 l) ((nav (to_leg l), success) ∷ []) success
  leg-admitted l = retry_first 2 _ _ (fallback_first _ _ _ (leaf_succeeds (nav (to_leg l))))

  pub all_succeed-admitted : Ends task_execution all_succeed success
  all_succeed-admitted = sequence_on _ _ (_ ∷ []) _ success (leaf_succeeds request) (
      sequence_on _ _ (_ ∷ []) _ success (leg-admitted pick) (
        sequence_on _ _ (_ ∷ []) _ success (leaf_succeeds (execute pick)) (
          sequence_on _ _ (_ ∷ []) _ success (leg-admitted drop) (
            sequence_on _ _ (_ ∷ []) _ success (leaf_succeeds (execute drop))
              (sequence_on _ _ (_ ∷ []) _ success (leaf_succeeds report) sequence_over)))))
