-- ===== src/Robot/Tree/Served/Steps.antt =====
-- A task over the steps of the robot: robot_agent_node.cpp and the leaves of src/fms_robot_agent.
use warehouse_fleet_manageme.Common.{
  ℕ, String, ◌≡◌, refl, sym, subst, ◌⊎◌, inl, inr, Bool, true, false, List, [], ◌∷◌, arith,
}
use warehouse_fleet_manageme.Float.{Double}
use warehouse_fleet_manageme.Messages.{TaskAssignment, TaskCompletion}
use warehouse_fleet_manageme.Robot.Agent.{Agent}
use warehouse_fleet_manageme.Robot.Agent.Callbacks.{
  task_assignment_cb, fault_service_cb, battery_update_cb, status_publish_cb,
}
use warehouse_fleet_manageme.Robot.Nodes.Status.{success}
use warehouse_fleet_manageme.Robot.Nodes.RequestTask
use warehouse_fleet_manageme.Robot.Nodes.Navigate
use warehouse_fleet_manageme.Robot.Nodes.Recovery
use warehouse_fleet_manageme.Robot.Nodes.Execute
use warehouse_fleet_manageme.Robot.Nodes.Report
use warehouse_fleet_manageme.Robot.Nodes.Report.{completion}
use warehouse_fleet_manageme.Robot.Nodes.Charge
use warehouse_fleet_manageme.Robot.System.{
  Leaf, battery_ok, request, charge, report, nav, recovery, execute, Inputs, System, Outside,
  assignment, inject_fault, battery_timer, status_timer, goal_response, call, start_leaf, tick_leaf,
}
use warehouse_fleet_manageme.Robot.Tree.Played.{ended}
use warehouse_fleet_manageme.Robot.Tree.Served.{
  Phase, waiting, working, told, other, advance, phase, slots, is_plain, Follows, interrupted,
  reported, arrive-Follows, interrupt-Follows, publish-Follows, plain-Follows,
}

module _ {D : Type 0} ⦃d : Double D⦄ where
  -- The calls and the leaves that leave the tasks alone.
  unfoldable pub plain_call : Outside D → Bool
  plain_call (assignment msg) = false
  plain_call (battery_timer now) = false
  plain_call _ = true

  pub call-slots :
      (e : Outside D) (s : System D) → plain_call e ≡ true → slots (call e s).agent ≡ slots s.agent
  unfolding plain_call call fault_service_cb status_publish_cb
  call-slots (assignment msg) s q = cc
  call-slots (battery_timer now) s q = cc
  call-slots (inject_fault value) s q = ground arith
  call-slots (status_timer now transform) s q = ground arith
  call-slots (goal_response w goal handle) s q = ground arith
  call-slots _ s q = ground arith

  pub battery-slots :
      (now : ℕ) (a : Agent D)
      → (slots (battery_update_cb now a) ≡ slots a)
        ⊎ (slots (battery_update_cb now a) ≡ interrupted (slots a))
  unfolding battery_update_cb interrupted
  battery-slots now a = ground arith

  pub start-slots :
      (l : Leaf) (i : Inputs) (s : System D)
      → is_plain l ≡ true
      → slots (start_leaf l i s).0.agent ≡ slots s.agent
  unfolding start_leaf
  start-slots battery_ok i s q = refl
  start-slots request i s q = cc
  start-slots report i s q = cc
  start-slots charge i s q = unfold Charge.on_start in refl
  start-slots (nav w) i s q = unfold Navigate.on_start in ground arith
  start-slots (recovery l) i s q = unfold Recovery.on_start in ground arith
  start-slots (execute l) i s q = unfold Execute.on_start in refl

  pub tick-slots :
      (l : Leaf) (i : Inputs) (s : System D)
      → is_plain l ≡ true
      → slots (tick_leaf l i s).0.agent ≡ slots s.agent
  unfolding tick_leaf
  tick-slots battery_ok i s q = refl
  tick-slots request i s q = cc
  tick-slots report i s q = cc
  tick-slots charge i s q = unfold Charge.on_running in ground arith
  tick-slots (nav w) i s q = unfold Navigate.on_running in ground arith
  tick-slots (recovery l) i s q = unfold Recovery.on_running in ground arith
  tick-slots (execute l) i s q = unfold Execute.on_running in ground arith

  pub report-slots :
      (now later : ℕ) (a : Agent D)
      → slots (Report.tick now later a).0 ≡ reported (completion now later a) (slots a)
  unfolding Report.tick reported completion
  report-slots now later a = ground arith

module _ {D : Type 0} ⦃d : Double D⦄ (t : TaskAssignment D) (name : String)
    (cs : List (TaskCompletion D)) where
  pub call-Follows :
      (p : Phase) (e : Outside D) (s : System D)
      → Follows t name cs p (slots s.agent)
      → Follows t name cs p (slots (call e s).agent)
  unfolding plain_call
  call-Follows p (assignment msg) s v =
      unfold call task_assignment_cb in arrive-Follows t name cs p (slots s.agent) (msg ∷ []) v
  call-Follows p (battery_timer now) s v =
      unfold call in
      elim (battery-slots now s.agent) [
        | inl e ↦ subst (Follows t name cs p) (sym e) v
        | inr e ↦
            subst (Follows t name cs p) (sym e) (interrupt-Follows t name cs p (slots s.agent) v)
      ]
  call-Follows p (inject_fault value) s v =
      subst (Follows t name cs p) (sym (call-slots (inject_fault value) s refl)) v
  call-Follows p (status_timer now transform) s v =
      subst (Follows t name cs p) (sym (call-slots (status_timer now transform) s refl)) v
  call-Follows p (goal_response w goal handle) s v =
      subst (Follows t name cs p) (sym (call-slots (goal_response w goal handle) s refl)) v
  call-Follows p e s v = subst (Follows t name cs p) (sym (call-slots e s refl)) v

  -- RequestTask takes the task that waits first.
  request-Follows :
      (p : Phase) (c : RequestTask.Clock) (a : Agent D)
      → Follows t name cs p (slots a)
      → Follows t name cs
          (phase p (ended request (RequestTask.on_running c a).1))
          (slots (RequestTask.on_running c a).0)
  unfolding RequestTask.on_running RequestTask.take_task RequestTask.accept_task
  request-Follows waiting c a v = ground arith
  request-Follows working c a v = ground arith
  request-Follows told c a v = ground arith
  request-Follows other c a v = ground arith

  report-Follows :
      (p : Phase) (now later : ℕ) (a : Agent D)
      → Follows t name cs p (slots a)
      → Follows t name cs (advance p report success) (slots (Report.tick now later a).0)
  unfolding completion
  report-Follows p now later a v =
      subst (Follows t name cs (advance p report success)) (sym (report-slots now later a)) (
        publish-Follows t name cs p (slots a) (completion now later a) (refl, ground arith)
          (λ e. ground arith) (λ e. ground arith) v)

  pub start-Follows :
      (p : Phase) (l : Leaf) (i : Inputs) (s : System D)
      → Follows t name cs p (slots s.agent)
      → Follows t name cs
          (phase p (ended l (start_leaf l i s).1))
          (slots (start_leaf l i s).0.agent)
  start-Follows p request i s v =
      unfold start_leaf RequestTask.on_start in request-Follows p i.clock s.agent v
  start-Follows p report i s v =
      unfold start_leaf Report.tick in report-Follows p i.now i.later s.agent v
  start-Follows p l i s v = plain-Follows t name cs p l _ _ _ refl (start-slots l i s refl) v

  pub tick-Follows :
      (p : Phase) (l : Leaf) (i : Inputs) (s : System D)
      → Follows t name cs p (slots s.agent)
      → Follows t name cs (phase p (ended l (tick_leaf l i s).1)) (slots (tick_leaf l i s).0.agent)
  tick-Follows p request i s v = unfold tick_leaf in request-Follows p i.clock s.agent v
  tick-Follows waiting report i s v = unfold tick_leaf in v
  tick-Follows working report i s v = unfold tick_leaf in v
  tick-Follows told report i s v = unfold tick_leaf in v
  tick-Follows other report i s v = unfold tick_leaf in v
  tick-Follows p l i s v = plain-Follows t name cs p l _ _ _ refl (tick-slots l i s refl) v
