-- ===== src/Robot/System.antt =====
-- The robot as a whole: the node, the leaves of bt_xml/robot_agent.xml and the calls that reach
-- them, in src/fms_robot_agent. All timers and the tree share one callback group, and the callbacks
-- of the action clients hold a leaf's mutex, so each call is one step. Which step comes next is
-- open: the tree engine starts a leaf when none runs, ticks the leaf that runs, and may halt it.
pub mod Invariant
pub mod Exclusive
pub mod Reports
pub mod Quiet
pub mod Power
pub mod Ledger
pub mod Custody
use warehouse_fleet_manageme.Common.{
  String, ℕ, ◌≡◌, refl, Bool, true, false, ℤ, pos, Option, none, some,
}
use warehouse_fleet_manageme.Float.{Double}
use warehouse_fleet_manageme.Messages.{Pose, PoseStamped, TaskAssignment}
use warehouse_fleet_manageme.Robot.Agent.{Agent}
use warehouse_fleet_manageme.Robot.Agent.Callbacks.{
  task_assignment_cb, fault_service_cb, battery_update_cb, status_publish_cb,
}
use warehouse_fleet_manageme.Robot.Nodes.Status.{NodeStatus, running, success, failure}
use warehouse_fleet_manageme.Robot.Nodes.RequestTask.{Clock}
use warehouse_fleet_manageme.Robot.Nodes.RequestTask
use warehouse_fleet_manageme.Robot.Nodes.Navigate.{
  NavNode, ResultCode, goal_response_callback, result_callback,
}
use warehouse_fleet_manageme.Robot.Nodes.Navigate
use warehouse_fleet_manageme.Robot.Nodes.Recovery.{
  RecoveryNode, Servers, spin_result_callback, backup_result_callback,
}
use warehouse_fleet_manageme.Robot.Nodes.Recovery
use warehouse_fleet_manageme.Robot.Nodes.Execute.{ExecuteNode}
use warehouse_fleet_manageme.Robot.Nodes.Execute
use warehouse_fleet_manageme.Robot.Nodes.Report
use warehouse_fleet_manageme.Robot.Nodes.Charge

-- The two legs of a task, and the three leaves that drive.
pub data Leg : Type 0 where
  pick drop : Leg

pub data Drive : Type 0 where
  to_charger : Drive
  to_leg : Leg → Drive

pub data Leaf : Type 0 where
  battery_ok request charge report : Leaf
  nav : Drive → Leaf
  recovery execute : Leg → Leaf

pub record System (D : Type 0) : Type 0 where
  pub agent : Agent D
  pub nav_charger : NavNode
  pub nav_pick : NavNode
  pub nav_drop : NavNode
  pub recover_pick : RecoveryNode
  pub recover_drop : RecoveryNode
  pub do_pick : ExecuteNode D
  pub do_drop : ExecuteNode D

-- What a leaf reads from outside while it runs.
pub record Inputs : Type 0 where
  pub now : ℕ
  pub later : ℕ
  pub clock : Clock
  pub nav_ready : Bool
  pub servers : Servers

-- A call from outside the tree.
pub data Outside (D : Type 0) : Type 0 where
  assignment : TaskAssignment D → Outside D
  inject_fault : Bool → Outside D
  battery_timer : ℕ → Outside D
  status_timer : ℕ → Option (Pose D) → Outside D
  goal_response : Drive → ℕ → Option ℕ → Outside D
  nav_result : Drive → ℕ → ResultCode → Outside D
  spin_result backup_result : Leg → ℕ → ResultCode → Outside D

abbrev pub operation_port : Leg → String
operation_port pick = "pick"
operation_port drop = "drop"

abbrev pub max_attempts_port : ℤ
max_attempts_port = pos 3

module _ {D : Type 0} where
  abbrev pub nav_of : Drive → System D → NavNode
  nav_of to_charger s = s.nav_charger
  nav_of (to_leg pick) s = s.nav_pick
  nav_of (to_leg drop) s = s.nav_drop

  abbrev pub set_nav : Drive → NavNode → System D → System D
  set_nav to_charger n s = record s { nav_charger = n }
  set_nav (to_leg pick) n s = record s { nav_pick = n }
  set_nav (to_leg drop) n s = record s { nav_drop = n }

  abbrev pub recover_of : Leg → System D → RecoveryNode
  recover_of pick s = s.recover_pick
  recover_of drop s = s.recover_drop

  abbrev pub set_recover : Leg → RecoveryNode → System D → System D
  set_recover pick n s = record s { recover_pick = n }
  set_recover drop n s = record s { recover_drop = n }

  abbrev pub execute_of : Leg → System D → ExecuteNode D
  execute_of pick s = s.do_pick
  execute_of drop s = s.do_drop

  abbrev pub set_execute : Leg → ExecuteNode D → System D → System D
  set_execute pick n s = record s { do_pick = n }
  set_execute drop n s = record s { do_drop = n }

  abbrev pub set_agent : Agent D → System D → System D
  set_agent a s = record s { agent = a }

  -- The ports of the leaves in robot_agent.xml.
  abbrev pub goal_port : Drive → Agent D → Option (PoseStamped D)
  goal_port to_charger a = a.blackboard.charger_pose
  goal_port (to_leg pick) a = a.blackboard.pick_pose
  goal_port (to_leg drop) a = a.blackboard.drop_pose

  abbrev pub duration_port : Leg → Agent D → D
  duration_port pick a = a.blackboard.pick_duration
  duration_port drop a = a.blackboard.drop_duration

module _ {D : Type 0} ⦃d : Double D⦄ where
  unfoldable pub call : Outside D → System D → System D
  call (assignment msg) s = set_agent (task_assignment_cb msg s.agent) s
  call (inject_fault value) s = set_agent (fault_service_cb value s.agent).0 s
  call (battery_timer now) s = set_agent (battery_update_cb now s.agent) s
  call (status_timer now transform) s = set_agent (status_publish_cb now transform s.agent) s
  call (goal_response v goal handle) s =
      set_nav v (goal_response_callback goal handle (nav_of v s)) s
  call (nav_result v goal code) s = set_nav v (result_callback goal code (nav_of v s)) s
  call (spin_result l goal code) s =
      set_recover l (spin_result_callback goal code (recover_of l s)) s
  call (backup_result l goal code) s =
      set_recover l (backup_result_callback goal code (recover_of l s)) s

  unfoldable pub start_leaf : Leaf → Inputs → System D → System D × NodeStatus
  start_leaf battery_ok i s = (s, Charge.battery_ok (some (d.decimal 200 1)) s.agent)
  start_leaf request i s =
      let (a, status) = RequestTask.on_start i.clock s.agent in (set_agent a s, status)
  start_leaf charge i s = let (a, status) = Charge.on_start s.agent in (set_agent a s, status)
  start_leaf report i s =
      let (a, status) = Report.tick i.now i.later s.agent in (set_agent a s, status)
  start_leaf (nav v) i s =
      let (n, a, status) =
        Navigate.on_start (goal_port v s.agent) i.nav_ready i.now (nav_of v s) s.agent in
      (set_agent a (set_nav v n s), status)
  start_leaf (recovery l) i s =
      let (n, a, status) = Recovery.on_start i.servers (recover_of l s) s.agent in
      (set_agent a (set_recover l n s), status)
  start_leaf (execute l) i s =
      let (n, a, status) =
        Execute.on_start (some (duration_port l s.agent)) i.now (execute_of l s) s.agent in
      (set_agent a (set_execute l n s), status)

  -- The two leaves that are done at once are never found running.
  unfoldable pub tick_leaf : Leaf → Inputs → System D → System D × NodeStatus
  tick_leaf battery_ok i s = (s, failure)
  tick_leaf report i s = (s, failure)
  tick_leaf request i s =
      let (a, status) = RequestTask.on_running i.clock s.agent in (set_agent a s, status)
  tick_leaf charge i s = let (a, status) = Charge.on_running s.agent in (set_agent a s, status)
  tick_leaf (nav v) i s =
      let (n, a, status) = Navigate.on_running (nav_of v s) s.agent in
      (set_agent a (set_nav v n s), status)
  tick_leaf (recovery l) i s =
      let (n, a, status) =
        Recovery.on_running (some max_attempts_port) i.servers (recover_of l s) s.agent in
      (set_agent a (set_recover l n s), status)
  tick_leaf (execute l) i s =
      let (n, a, status) =
        Execute.on_running (some (operation_port l)) i.now (execute_of l s) s.agent in
      (set_agent a (set_execute l n s), status)

  unfoldable pub halt_leaf : Leaf → System D → System D
  halt_leaf battery_ok s = s
  halt_leaf report s = s
  halt_leaf request s = set_agent (RequestTask.on_halted s.agent) s
  halt_leaf charge s = set_agent (Charge.on_halted s.agent) s
  halt_leaf (nav v) s =
      let (n, a) = Navigate.on_halted (nav_of v s) s.agent in set_agent a (set_nav v n s)
  halt_leaf (recovery l) s = set_recover l (Recovery.on_halted (recover_of l s)) s
  halt_leaf (execute l) s = set_execute l (Execute.on_halted (execute_of l s)) s

-- The system, and the leaf that returned RUNNING last.
pub record Run (D : Type 0) : Type 0 where
  pub system : System D
  pub active : Option Leaf

abbrev pub after : {D : Type 0} → Leaf → System D × NodeStatus → Run D
after l (s, running) = record { system = s; active = some l }
after l (s, success) = record { system = s; active = none }
after l (s, failure) = record { system = s; active = none }

pub after_system : {D : Type 0} (l : Leaf) (t : System D × NodeStatus) → (after l t).system ≡ t.0
after_system l (s, running) = refl
after_system l (s, success) = refl
after_system l (s, failure) = refl

-- The leaves of the branch `TaskExecution` that can be found running.
abbrev pub is_work : Leaf → Bool
is_work request = true
is_work (nav (to_leg l)) = true
is_work (recovery l) = true
is_work (execute l) = true
is_work _ = false

module _ {D : Type 0} ⦃d : Double D⦄ where
  -- The way to the charger was started over a leaf that runs, and then that leaf was halted. The
  -- engine may halt it before as well: that is a halt and then a start.
  abbrev pub preempted : Leaf → System D × NodeStatus → Run D
  preempted l (s, running) = record { system = halt_leaf l s; active = some (nav to_charger) }
  preempted l (s, success) = record { system = s; active = some l }
  preempted l (s, failure) = record { system = s; active = some l }

pub data Step {D : Type 0} ⦃d : Double D⦄ (r r' : Run D) : Type 0 where
  outside : (e : Outside D) → r' ≡ record r { system = call e r.system } → Step r r'
  start :
      (l : Leaf) (i : Inputs) → r.active ≡ none → r' ≡ after l (start_leaf l i r.system) → Step r r'
  tick :
      (l : Leaf) (i : Inputs)
      → r.active ≡ some l
      → r' ≡ after l (tick_leaf l i r.system)
      → Step r r'
  halt :
      (l : Leaf)
      → r.active ≡ some l
      → r' ≡ record { system = halt_leaf l r.system; active = none }
      → Step r r'
  preempt :
      (l : Leaf) (i : Inputs)
      → is_work l ≡ true
      → r.active ≡ some l
      → r' ≡ preempted l (start_leaf (nav to_charger) i r.system)
      → Step r r'

pub data Reach {D : Type 0} ⦃d : Double D⦄ (r : Run D) : Run D → Type 0 where
  here : Reach r r
  next : {s t : Run D} → Reach r s → Step s t → Reach r t
