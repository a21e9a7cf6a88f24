-- ===== src/Robot/Tree/States.antt =====
-- The states of the machine over the leaves that end: bt_xml/robot_agent.xml and robot_fsm.cpp of
-- src/fms_robot_agent.
use mathlib.Core.List.{append-nil}
use warehouse_fleet_manageme.Common.{
  ◌≡◌, refl, sym, subst, ◌≢◌, ap, ◌∙◌, ◌⊎◌, true, false, Option, none, some, List, [], ◌∷◌, ◌++◌,
  arith,
}
use warehouse_fleet_manageme.Float.{Double}
use warehouse_fleet_manageme.Robot.Fsm.{
  RobotState, FsmEvent, task_received, nav_started, nav_succeeded, nav_failed, execution_done,
  report_sent, recovery_done, recovery_failed, low_battery, battery_full, fault_injected, run,
}
use warehouse_fleet_manageme.Robot.Agent.Callbacks.{
  task_assignment_cb, fault_service_cb, battery_update_cb, status_publish_cb,
}
use warehouse_fleet_manageme.Robot.Nodes.Status.{NodeStatus, running, success, failure}
use warehouse_fleet_manageme.Robot.Nodes.RequestTask
use warehouse_fleet_manageme.Robot.Nodes.Navigate
use warehouse_fleet_manageme.Robot.Nodes.Recovery
use warehouse_fleet_manageme.Robot.Nodes.Execute
use warehouse_fleet_manageme.Robot.Nodes.Report
use warehouse_fleet_manageme.Robot.Nodes.Charge
use warehouse_fleet_manageme.Robot.System.{
  pick, drop, Leaf, battery_ok, request, charge, report, nav, recovery, execute, to_charger, Inputs,
  System, Outside, assignment, inject_fault, battery_timer, status_timer, goal_response, call,
  start_leaf, tick_leaf, preempted, Run, after, outside, start, tick, halt, preempt, Reach, here,
  next,
}
use warehouse_fleet_manageme.Robot.Tree.{History}
use warehouse_fleet_manageme.Robot.Tree.Played.{history, is_unhalted, is_running, ended}

-- What a leaf has fired while it runs.
abbrev pub begun : Option Leaf → List FsmEvent
begun (some (nav v)) = nav_started ∷ []
begun (some (recovery l)) = nav_failed ∷ []
begun (some charge) = low_battery ∷ []
begun _ = []

-- The states between which a leaf moves the machine until it ends with a result. A drive may fail
-- before it starts, by its result, by a fault, or since its state is gone.
abbrev pub Moves : Leaf → NodeStatus → RobotState → RobotState → Type 0
Moves request success s t = t ≡ run s (task_received ∷ [])
Moves (nav v) success s t = t ≡ run s (nav_started ∷ nav_succeeded ∷ [])
Moves (nav v) failure s t =
    (t ≡ s)
    ⊎ ((t ≡ run s (nav_started ∷ nav_failed ∷ []))
        ⊎ ((t ≡ run s (nav_started ∷ fault_injected ∷ [])) ⊎ (t ≡ run s (nav_started ∷ []))))
Moves (recovery l) success s t = t ≡ run s (nav_failed ∷ recovery_done ∷ [])
Moves (recovery l) failure s t = t ≡ run s (nav_failed ∷ recovery_failed ∷ [])
Moves (execute pick) success s t = t ≡ run s (execution_done ∷ [])
Moves (execute drop) success s t = t ≡ s
Moves report success s t = t ≡ run s (report_sent ∷ [])
Moves charge success s t = t ≡ run s (low_battery ∷ battery_full ∷ [])
Moves battery_ok r s t = t ≡ s
-- The other leaves do not fail.
Moves l r s t = ⊥

-- The states between which a history moves the machine.
abbrev pub Leads : History → RobotState → RobotState → Type 0
Leads [] s t = t ≡ s
Leads (e ∷ h) s t = (u : RobotState) × Moves e.0 e.1 s u × Leads h u t

pub Leads-append :
    (h h' : History) (s t u : RobotState) → Leads h s t → Leads h' t u → Leads (h ++ h') s u
Leads-append [] h' s t u e f = subst (λ x. Leads h' x u) e f
Leads-append (x ∷ h) h' s t u (v, m, e) f = (v, m, Leads-append h h' v t u e f)

-- What a call of a leaf has done to the machine, that was in state `s` when the leaf started.
abbrev Marks : Leaf → RobotState → RobotState → NodeStatus → Type 0
Marks l s t running = t ≡ run s (begun (some l))
Marks l s t success = Moves l success s t
Marks l s t failure = Moves l failure s t

module _ {D : Type 0} ⦃d : Double D⦄ where
  call-fsm : (e : Outside D) (s : System D) → (call e s).agent.fsm ≡ s.agent.fsm
  unfolding call task_assignment_cb fault_service_cb battery_update_cb status_publish_cb
  call-fsm (assignment msg) s = refl
  call-fsm (inject_fault value) s = ground arith
  call-fsm (battery_timer now) s = ground arith
  call-fsm (status_timer now transform) s = ground arith
  call-fsm (goal_response w goal handle) s = ground arith
  call-fsm _ s = ground arith

  start-Marks :
      (l : Leaf) (i : Inputs) (s : System D)
      → Marks l s.agent.fsm (start_leaf l i s).0.agent.fsm (start_leaf l i s).1
  unfolding start_leaf run
  start-Marks battery_ok i s = unfold Charge.battery_ok in ground arith
  start-Marks request i s = unfold RequestTask.on_start RequestTask.on_running in ground arith
  start-Marks charge i s = unfold Charge.on_start in refl
  start-Marks report i s = unfold Report.tick in ground arith
  start-Marks (nav w) i s = unfold Navigate.on_start in ground arith
  start-Marks (recovery l) i s = unfold Recovery.on_start in ground arith
  start-Marks (execute l) i s = unfold Execute.on_start in ground arith

  tick-Marks :
      (l : Leaf) (i : Inputs) (m : RobotState) (s : System D)
      → l ≢ report
      → s.agent.fsm ≡ run m (begun (some l))
      → Marks l m (tick_leaf l i s).0.agent.fsm (tick_leaf l i s).1
  unfolding tick_leaf run
  tick-Marks battery_ok i m s n e = e
  tick-Marks request i m s n e = unfold RequestTask.on_running in ground arith
  tick-Marks charge i m s n e = unfold Charge.on_running in ground arith
  tick-Marks report i m s n e = absurd (n refl)
  tick-Marks (nav w) i m s n e = unfold Navigate.on_running in ground arith
  tick-Marks (recovery l) i m s n e = unfold Recovery.on_running in ground arith
  tick-Marks (execute pick) i m s n e = unfold Execute.on_running in ground arith
  tick-Marks (execute drop) i m s n e = unfold Execute.on_running in ground arith

  start-report :
      (l : Leaf) (i : Inputs) (s : System D) → l ≡ report → (start_leaf l i s).1 ≡ success
  unfolding start_leaf Report.tick
  start-report l i s e = rw e refl

  -- Where the machine is, over a history that began in state `s`.
  abbrev pub IsAt : History → RobotState → Run D → Type 0
  IsAt h s r =
      (m : RobotState) × Leads h s m
      × (r.system.agent.fsm ≡ run m (begun r.active))
      × (r.active ≢ some report)

  after-IsAt :
      (h : History) (s m : RobotState) (l : Leaf) (t : System D × NodeStatus)
      → Leads h s m
      → Marks l m t.0.agent.fsm t.1
      → (l ≡ report → t.1 ≡ success)
      → IsAt (h ++ ended l t.1) s (after l t)
  unfolding run
  after-IsAt h s m l (t, running) e k n =
      (m, subst (λ x. Leads x s m) (sym (append-nil h)) e, k, λ q. ground arith)
  after-IsAt h s m l (t, success) e k n =
      (t.agent.fsm, Leads-append h _ s m _ e (_, k, refl), refl, λ q. cc)
  after-IsAt h s m l (t, failure) e k n =
      (t.agent.fsm, Leads-append h _ s m _ e (_, k, refl), refl, λ q. cc)

  call-IsAt :
      (h : History) (s : RobotState) (e : Outside D) (r : Run D)
      → IsAt h s r
      → IsAt h s (record r { system = call e r.system })
  call-IsAt h s e r (m, a, k, n) = (m, a, call-fsm e r.system ∙ k, n)

  start-IsAt :
      (h : History) (s : RobotState) (l : Leaf) (i : Inputs) (r : Run D)
      → r.active ≡ none
      → IsAt h s r
      → IsAt (h ++ ended l (start_leaf l i r.system).1) s (after l (start_leaf l i r.system))
  unfolding run
  start-IsAt h s l i r q (m, a, k, n) =
      let at : r.system.agent.fsm ≡ m = k ∙ ap (λ o. run m (begun o)) q in
      after-IsAt h s m l (start_leaf l i r.system) a
        (subst (λ x. Marks l x (start_leaf l i r.system).0.agent.fsm (start_leaf l i r.system).1) at
          (start-Marks l i r.system))
        (start-report l i r.system)

  tick-IsAt :
      (h : History) (s : RobotState) (l : Leaf) (i : Inputs) (r : Run D)
      → r.active ≡ some l
      → IsAt h s r
      → IsAt (h ++ ended l (tick_leaf l i r.system).1) s (after l (tick_leaf l i r.system))
  tick-IsAt h s l i r q (m, a, k, n) =
      let other : l ≢ report = λ w. n (q ∙ ap (λ x. some x) w) in
      after-IsAt h s m l (tick_leaf l i r.system) a
        (tick-Marks l i m r.system other (k ∙ ap (λ o. run m (begun o)) q)) (λ w. absurd (other w))

  -- A drive to the charger that does not come to run changes nothing.
  preempted-IsAt :
      (h : History) (s : RobotState) (l : Leaf) (i : Inputs) (r : Run D)
      → r.active ≡ some l
      → is_running (start_leaf (nav to_charger) i r.system).1 ≡ false
      → IsAt h s r
      → IsAt h s (preempted l (start_leaf (nav to_charger) i r.system))
  unfolding start_leaf Navigate.on_start
  preempted-IsAt h s l i r q f v = ground arith

  step-IsAt : (h : History) (s : RobotState) (r r' : Run D) → r' ≡ r → IsAt h s r → IsAt h s r'
  step-IsAt h s r r' p v = subst (IsAt h s) (sym p) v

  pub Reach-IsAt :
      {r r' : Run D} (h : Reach r r')
      → r.active ≡ none
      → is_unhalted h ≡ true
      → IsAt (history h) r.system.agent.fsm r'
  unfolding run
  Reach-IsAt {r} here e u =
      (r.system.agent.fsm, refl, ap (λ o. run r.system.agent.fsm (begun o)) (sym e), λ q. cc)
  Reach-IsAt {r} {r'} (next {s = s} h (outside w p)) e u =
      step-IsAt _ _ _ r' p (call-IsAt (history h) _ w s (Reach-IsAt h e u))
  Reach-IsAt {r} {r'} (next {s = s} h (start l i q p)) e u =
      step-IsAt _ _ _ r' p (start-IsAt (history h) _ l i s q (Reach-IsAt h e u))
  Reach-IsAt {r} {r'} (next {s = s} h (tick l i q p)) e u =
      step-IsAt _ _ _ r' p (tick-IsAt (history h) _ l i s q (Reach-IsAt h e u))
  Reach-IsAt (next h (halt l q p)) e u = absurd (ground arith)
  Reach-IsAt {r} {r'} (next {s = s} h (preempt l i w q p)) e u =
      step-IsAt _ _ _ r' p
        (preempted-IsAt (history h) _ l i s q (ground arith) (Reach-IsAt h e (ground arith)))

  -- A robot that runs no leaf, until it runs none again: unless a leaf is halted, the machine is
  -- where the leaves that ended in between lead it, each by its result.
  pub Reach-Leads :
      {r r' : Run D} (h : Reach r r')
      → r.active ≡ none
      → is_unhalted h ≡ true
      → r'.active ≡ none
      → Leads (history h) r.system.agent.fsm r'.system.agent.fsm
  unfolding run
  Reach-Leads {r} {r'} h e u e' =
      let (m, a, k, _) = Reach-IsAt h e u in
      subst (Leads (history h) r.system.agent.fsm) (sym (k ∙ ap (λ o. run m (begun o)) e')) a
