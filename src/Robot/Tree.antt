-- ===== src/Robot/Tree.antt =====
-- The behavior tree of a robot: bt_xml/robot_agent.xml of src/fms_robot_agent. The engine that runs
-- it is a parameter.
pub mod Course
pub mod Played
pub mod States
pub mod Outcome
pub mod Served
pub mod Possible
pub mod Idle
pub mod Charged
pub mod Rounds
pub mod Ports
use warehouse_fleet_manageme.Common.{ℕ, zero, suc, ◌≡◌, ◌⊎◌, List, [], ◌∷◌, ◌++◌}
use warehouse_fleet_manageme.Robot.Nodes.Status.{NodeStatus, success, failure}
use warehouse_fleet_manageme.Robot.System.{
  Leg, pick, drop, Leaf, battery_ok, request, charge, report, nav, recovery, execute, to_charger,
  to_leg,
}

mutual
  pub data Tree : Type 0 where
    leaf : Leaf → Tree
    inverter : Tree → Tree
    retry_until_successful : ℕ → Tree → Tree
    sequence fallback reactive_fallback : Children → Tree

  pub data Children : Type 0 where
    no_child : Children
    child : Tree → Children → Children

abbrev pub charge_when_low : Tree
charge_when_low = sequence (
    child (inverter (leaf battery_ok))
      (child (leaf (nav to_charger)) (child (leaf charge) no_child)))

-- NavToPickRetry and NavToDropRetry, with a number of attempts.
abbrev pub nav_retry : ℕ → Leg → Tree
nav_retry attempts l =
    retry_until_successful attempts
      (fallback (child (leaf (nav (to_leg l))) (child (leaf (recovery l)) no_child)))

abbrev pub task_execution : Tree
task_execution = sequence (
    child (leaf request) (
      child (nav_retry 3 pick) (
        child (leaf (execute pick))
          (child (nav_retry 3 drop) (child (leaf (execute drop)) (child (leaf report) no_child))))))

abbrev pub robot_agent_main : Tree
robot_agent_main = reactive_fallback (child charge_when_low (child task_execution no_child))

-- The leaves that ended, in their order, each with its result.
abbrev pub History : Type 0
History = List (Leaf × NodeStatus)

-- What the tree relies on of the engine, for a subtree that is ticked until it ends and is never
-- halted. `Ends t h r`: the leaves of the history end in this order, and then the subtree ends with
-- the result.
pub record IsEngine (Ends : Tree → History → NodeStatus → Type 0) : Type 0 where
  pub leaf_ends : (l : Leaf) (h : History) (r : NodeStatus) → Ends (leaf l) h r → h ≡ (l, r) ∷ []
  pub inverter_ends :
      (t : Tree) (h : History) (r : NodeStatus)
      → Ends (inverter t) h r
      → (Ends t h success × (r ≡ failure)) ⊎ (Ends t h failure × (r ≡ success))
  -- A sequence ends with its first child that fails, and a fallback with its first that succeeds.
  pub sequence_empty :
      (h : History) (r : NodeStatus) → Ends (sequence no_child) h r → (h ≡ []) × (r ≡ success)
  pub sequence_child :
      (t : Tree) (ts : Children) (h : History) (r : NodeStatus)
      → Ends (sequence (child t ts)) h r
      → (Ends t h failure × (r ≡ failure))
        ⊎ ((h1 h2 : History) × Ends t h1 success × Ends (sequence ts) h2 r × (h ≡ h1 ++ h2))
  pub fallback_empty :
      (h : History) (r : NodeStatus) → Ends (fallback no_child) h r → (h ≡ []) × (r ≡ failure)
  pub fallback_child :
      (t : Tree) (ts : Children) (h : History) (r : NodeStatus)
      → Ends (fallback (child t ts)) h r
      → (Ends t h success × (r ≡ success))
        ⊎ ((h1 h2 : History) × Ends t h1 failure × Ends (fallback ts) h2 r × (h ≡ h1 ++ h2))
  -- A child that fails is started again while attempts are left.
  pub retry_over :
      (t : Tree) (h : History) (r : NodeStatus)
      → Ends (retry_until_successful zero t) h r
      → (h ≡ []) × (r ≡ failure)
  pub retry_again :
      (n : ℕ) (t : Tree) (h : History) (r : NodeStatus)
      → Ends (retry_until_successful (suc n) t) h r
      → (Ends t h success × (r ≡ success))
        ⊎ ((h1 h2 : History) × Ends t h1 failure
            × Ends (retry_until_successful n t) h2 r
            × (h ≡ h1 ++ h2))
