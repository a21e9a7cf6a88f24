-- ===== src/Robot/Tree/Possible/Charged.antt =====
-- The battery while its timer is silent: battery_ok.cpp and the steps of a robot, in
-- src/fms_robot_agent.
use warehouse_fleet_manageme.Common.{◌≡◌, refl, ap, ◌∙◌, Bool, true, false, ◌&&◌, some, arith}
use warehouse_fleet_manageme.Float.{Double}
use warehouse_fleet_manageme.Robot.Agent.{Agent}
use warehouse_fleet_manageme.Robot.Agent.Callbacks.{
  task_assignment_cb, fault_service_cb, status_publish_cb,
}
use warehouse_fleet_manageme.Robot.Nodes.Status.{success}
use warehouse_fleet_manageme.Robot.Nodes.RequestTask
use warehouse_fleet_manageme.Robot.Nodes.Navigate
use warehouse_fleet_manageme.Robot.Nodes.Recovery
use warehouse_fleet_manageme.Robot.Nodes.Execute
use warehouse_fleet_manageme.Robot.Nodes.Report
use warehouse_fleet_manageme.Robot.Nodes.Charge.{battery_ok}
use warehouse_fleet_manageme.Robot.Nodes.Charge
use warehouse_fleet_manageme.Robot.System.{
  Leaf, request, charge, report, nav, recovery, execute, Inputs, System, Outside, assignment,
  inject_fault, battery_timer, status_timer, goal_response, nav_result, spin_result, backup_result,
  call, start_leaf, tick_leaf, Run, after_system, outside, start, tick, halt, preempt, Reach, here,
  next,
}

abbrev pub is_silent : {D : Type 0} → Outside D → Bool
is_silent (battery_timer now) = false
is_silent _ = true

module _ {D : Type 0} ⦃d : Double D⦄ where
  -- No leaf is halted, none is started over another, and the timer of the battery does not come.
  abbrev pub is_timeless : {r r' : Run D} → Reach r r' → Bool
  is_timeless here = true
  is_timeless (next h (outside e p)) = is_timeless h && is_silent e
  is_timeless (next h (start l i q p)) = is_timeless h
  is_timeless (next h (tick l i q p)) = is_timeless h
  is_timeless (next h (halt l q p)) = false
  is_timeless (next h (preempt l i w q p)) = false

  -- BatteryOK, with the threshold of the tree, succeeds.
  abbrev pub IsCharged : Agent D → Type 0
  IsCharged a = battery_ok (some (d.decimal 200 1)) a ≡ success

  -- It does so before and after each of the steps.
  abbrev pub StaysCharged : {r r' : Run D} → Reach r r' → Type 0
  StaysCharged {r} here = IsCharged r.system.agent
  StaysCharged {r' = r'} (next h st) = StaysCharged h × IsCharged r'.system.agent

  call-battery :
      (e : Outside D) (s : System D)
      → is_silent e ≡ true
      → (call e s).agent.battery ≡ s.agent.battery
  unfolding call task_assignment_cb fault_service_cb status_publish_cb
  call-battery (assignment msg) s q = ground arith
  call-battery (inject_fault value) s q = ground arith
  call-battery (battery_timer now) s q = cc
  call-battery (status_timer now transform) s q = ground arith
  call-battery (goal_response w goal handle) s q = ground arith
  call-battery (nav_result w goal code) s q = ground arith
  call-battery (spin_result l goal code) s q = ground arith
  call-battery (backup_result l goal code) s q = ground arith

  start-battery :
      (l : Leaf) (i : Inputs) (s : System D) → (start_leaf l i s).0.agent.battery ≡ s.agent.battery
  unfolding start_leaf
  start-battery Leaf.battery_ok i s = refl
  start-battery request i s = unfold RequestTask.on_start in ground arith
  start-battery charge i s = unfold Charge.on_start in ground arith
  start-battery report i s = unfold Report.tick in ground arith
  start-battery (nav w) i s = unfold Navigate.on_start in ground arith
  start-battery (recovery l) i s = unfold Recovery.on_start in ground arith
  start-battery (execute l) i s = unfold Execute.on_start in ground arith

  tick-battery :
      (l : Leaf) (i : Inputs) (s : System D) → (tick_leaf l i s).0.agent.battery ≡ s.agent.battery
  unfolding tick_leaf
  tick-battery Leaf.battery_ok i s = refl
  tick-battery report i s = refl
  tick-battery request i s = unfold RequestTask.on_running in ground arith
  tick-battery charge i s = unfold Charge.on_running in ground arith
  tick-battery (nav w) i s = unfold Navigate.on_running in ground arith
  tick-battery (recovery l) i s = unfold Recovery.on_running in ground arith
  tick-battery (execute l) i s = unfold Execute.on_running in ground arith

  Reach-battery :
      {r r' : Run D} (h : Reach r r')
      → is_timeless h ≡ true
      → r'.system.agent.battery ≡ r.system.agent.battery
  Reach-battery here e = refl
  Reach-battery (next {s = s} h (outside c p)) e =
      ap (λ x. x.system.agent.battery) p
      ∙ call-battery c s.system (ground arith)
      ∙ Reach-battery h (ground arith)
  Reach-battery (next {s = s} h (start l i q p)) e =
      ap (λ x. x.system.agent.battery) p
      ∙ ap (λ x. x.agent.battery) (after_system l (start_leaf l i s.system))
      ∙ start-battery l i s.system
      ∙ Reach-battery h e
  Reach-battery (next {s = s} h (tick l i q p)) e =
      ap (λ x. x.system.agent.battery) p
      ∙ ap (λ x. x.agent.battery) (after_system l (tick_leaf l i s.system))
      ∙ tick-battery l i s.system
      ∙ Reach-battery h e
  Reach-battery (next h (halt l q p)) e = cc
  Reach-battery (next h (preempt l i w q p)) e = cc

  same_charge : (a b : Agent D) → b.battery ≡ a.battery → IsCharged a → IsCharged b
  unfolding battery_ok
  same_charge a b e v = rw e v

  timeless_before :
      {r s t : Run D} (h : Reach r s) (st : _)
      → is_timeless (next {t = t} h st) ≡ true
      → is_timeless h ≡ true
  timeless_before h (outside c p) e = ground arith
  timeless_before h (start l i q p) e = e
  timeless_before h (tick l i q p) e = e
  timeless_before h (halt l q p) e = cc
  timeless_before h (preempt l i w q p) e = cc

  pub Reach-StaysCharged :
      {r r' : Run D} (h : Reach r r')
      → is_timeless h ≡ true
      → IsCharged r.system.agent
      → StaysCharged h
  Reach-StaysCharged here e v = v
  Reach-StaysCharged {r} {r'} (next h st) e v = (
    Reach-StaysCharged h (timeless_before h st e) v,
    same_charge r.system.agent r'.system.agent (Reach-battery (next h st) e) v,
  )
