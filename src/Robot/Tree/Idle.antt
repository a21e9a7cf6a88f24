-- ===== src/Robot/Tree/Idle.antt =====
-- A robot that works in IDLE: bt_xml/robot_agent.xml and robot_fsm.cpp of src/fms_robot_agent.
use warehouse_fleet_manageme.Common.{
  ◌≡◌, ◌≢◌, subst, ap, ◌∙◌, Bool, true, false, Option, none, some, [], ◌∷◌, All, arith,
}
use warehouse_fleet_manageme.Float.{Double}
use warehouse_fleet_manageme.Robot.Fsm.{RobotState, idle, process, run}
use warehouse_fleet_manageme.Robot.Nodes.Status.{NodeStatus}
use warehouse_fleet_manageme.Robot.System.{Leaf, request, charge, Run, Reach}
use warehouse_fleet_manageme.Robot.Tree.{History}
use warehouse_fleet_manageme.Robot.Tree.Played.{history, is_unhalted}
use warehouse_fleet_manageme.Robot.Tree.States.{begun, Moves, Leads, Reach-IsAt}

-- Only a task and a charge take the machine out of IDLE.
abbrev leaves_idle : Leaf → Bool
leaves_idle request = true
leaves_idle charge = true
leaves_idle _ = false

abbrev pub IsWork : Leaf × NodeStatus → Type 0
IsWork e = leaves_idle e.0 ≡ false

work-Moves :
    (l : Leaf) (r : NodeStatus) (t : RobotState)
    → leaves_idle l ≡ false
    → Moves l r idle t
    → t ≡ idle
unfolding run process
work-Moves l r t w m = ground arith

work-Leads : (h : History) (t : RobotState) → All IsWork h → Leads h idle t → t ≡ idle
work-Leads [] t v e = e
work-Leads (x ∷ h) t (w, v) (u, m, e) =
    work-Leads h t v (subst (λ s. Leads h s t) (work-Moves x.0 x.1 u w m) e)

begun-idle : (o : Option Leaf) → o ≢ some charge → run idle (begun o) ≡ idle
unfolding run process
begun-idle o n = ground arith

module _ {D : Type 0} ⦃d : Double D⦄ where
  -- While no leaf is halted, a robot that was IDLE and ran no leaf stays IDLE through every drive,
  -- recovery, pick, drop and report, also while such a leaf runs: only RequestTask and ChargeBattery
  -- take it out of IDLE.
  pub idle_kept :
      {r r' : Run D} (h : Reach r r')
      → r.active ≡ none
      → r.system.agent.fsm ≡ idle
      → is_unhalted h ≡ true
      → All IsWork (history h)
      → r'.active ≢ some charge
      → r'.system.agent.fsm ≡ idle
  idle_kept {r} {r'} h e f u w n =
      let (m, a, k, _) = Reach-IsAt h e u in
      let led = subst (λ s. Leads (history h) s m) f a in
      k
      ∙ ap (λ s. run s (begun r'.active)) (work-Leads (history h) m w led)
      ∙ begun-idle r'.active n
