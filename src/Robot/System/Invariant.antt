-- ===== src/Robot/System/Invariant.antt =====
-- Invariants of the node of a robot over all its steps: src/fms_robot_agent.
use warehouse_fleet_manageme.Float.{Double}
use warehouse_fleet_manageme.Robot.Agent.{Agent}
use warehouse_fleet_manageme.Robot.Nodes.Status.{NodeStatus, running, success, failure}
use warehouse_fleet_manageme.Robot.System.{
  Leaf, nav, to_charger, Inputs, System, Outside, call, start_leaf, tick_leaf, halt_leaf, preempted,
  preempt, Run, after_system, Step, outside, start, tick, halt, Reach, here, next,
}

-- A property of the node that every call keeps.
pub record IsInvariant {D : Type 0} ⦃d : Double D⦄ (P : Agent D → Type 0) : Type 0 where
  pub on_call : (e : Outside D) (s : System D) → P s.agent → P (call e s).agent
  pub on_start : (l : Leaf) (i : Inputs) (s : System D) → P s.agent → P (start_leaf l i s).0.agent
  pub on_tick : (l : Leaf) (i : Inputs) (s : System D) → P s.agent → P (tick_leaf l i s).0.agent
  pub on_halt : (l : Leaf) (s : System D) → P s.agent → P (halt_leaf l s).agent

module _ {D : Type 0} ⦃d : Double D⦄ (P : Agent D → Type 0) (kept : IsInvariant P) where
  preempted_kept :
      (l : Leaf) (t : System D × NodeStatus) → P t.0.agent → P (preempted l t).system.agent
  preempted_kept l (s, running) v = kept.on_halt l s v
  preempted_kept l (s, success) v = v
  preempted_kept l (s, failure) v = v

  step_kept : {r r' : Run D} → Step r r' → P r.system.agent → P r'.system.agent
  step_kept {r} (outside e p) v = rw p (kept.on_call e r.system v)
  step_kept {r} (start l i q p) v =
      rw (p, after_system l (start_leaf l i r.system)) (kept.on_start l i r.system v)
  step_kept {r} (tick l i q p) v =
      rw (p, after_system l (tick_leaf l i r.system)) (kept.on_tick l i r.system v)
  step_kept {r} (halt l q p) v = rw p (kept.on_halt l r.system v)
  step_kept {r} (preempt l i w q p) v = rw p (
      preempted_kept l (start_leaf (nav to_charger) i r.system)
        (kept.on_start (nav to_charger) i r.system v))

  -- Any steps keep it.
  pub reach_kept : {r r' : Run D} → P r.system.agent → Reach r r' → P r'.system.agent
  reach_kept v here = v
  reach_kept v (next h st) = step_kept st (reach_kept v h)
