-- ===== src/Robot/Tree/Played.antt =====
-- The leaves that end while the robot runs: bt_xml/robot_agent.xml over the steps of the robot, in
-- src/fms_robot_agent.
use warehouse_fleet_manageme.Common.{Bool, true, false, not, ◌&&◌, [], ◌∷◌, ◌++◌}
use warehouse_fleet_manageme.Float.{Double}
use warehouse_fleet_manageme.Robot.Nodes.Status.{NodeStatus, running, success, failure}
use warehouse_fleet_manageme.Robot.System.{
  Leaf, nav, to_charger, start_leaf, tick_leaf, Run, outside, start, tick, halt, preempt, Reach,
  here, next,
}
use warehouse_fleet_manageme.Robot.Tree.{History}

-- What a call of a leaf adds to the history.
abbrev pub ended : Leaf → NodeStatus → History
ended l running = []
ended l success = (l, success) ∷ []
ended l failure = (l, failure) ∷ []

abbrev pub is_running : NodeStatus → Bool
is_running running = true
is_running success = false
is_running failure = false

module _ {D : Type 0} ⦃d : Double D⦄ where
  -- The leaves that ended, without the drive to the charger that was tried over a leaf and failed.
  abbrev pub history : {r r' : Run D} → Reach r r' → History
  history here = []
  history (next h (outside e p)) = history h
  history (next {s = r} h (start l i q p)) = history h ++ ended l (start_leaf l i r.system).1
  history (next {s = r} h (tick l i q p)) = history h ++ ended l (tick_leaf l i r.system).1
  history (next h (halt l q p)) = history h
  history (next h (preempt l i w q p)) = history h

  -- No leaf was halted: neither by the engine, nor since the drive to the charger ran over it.
  abbrev pub is_unhalted : {r r' : Run D} → Reach r r' → Bool
  is_unhalted here = true
  is_unhalted (next h (outside e p)) = is_unhalted h
  is_unhalted (next h (start l i q p)) = is_unhalted h
  is_unhalted (next h (tick l i q p)) = is_unhalted h
  is_unhalted (next h (halt l q p)) = false
  is_unhalted (next {s = r} h (preempt l i w q p)) =
      is_unhalted h && not (is_running (start_leaf (nav to_charger) i r.system).1)
