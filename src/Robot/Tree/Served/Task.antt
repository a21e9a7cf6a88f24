-- ===== src/Robot/Tree/Served/Task.antt =====
-- The one task that the tree finishes, over all the steps of a robot: src/fms_robot_agent.
use warehouse_fleet_manageme.Common.{
  ℕ, zero, suc, String, ◌≡◌, refl, sym, subst, ap, ◌⊎◌, inl, inr, true, false, none, some, List, [],
  ◌∷◌, ◌++◌, arith,
}
use warehouse_fleet_manageme.Float.{Double}
use warehouse_fleet_manageme.Messages.{TaskAssignment, TaskCompletion}
use warehouse_fleet_manageme.Robot.Agent.{is_activated, active}
use warehouse_fleet_manageme.Robot.Nodes.Status.{NodeStatus, success}
use warehouse_fleet_manageme.Robot.Nodes.Navigate
use warehouse_fleet_manageme.Robot.System.{
  Leg, pick, drop, Leaf, report, nav, execute, to_charger, System, Inputs, start_leaf, tick_leaf,
  preempted, Run, after, after_system, outside, start, tick, halt, preempt, Reach, here, next,
}
use warehouse_fleet_manageme.Robot.Tree.{Tree, task_execution, History, IsEngine}
use warehouse_fleet_manageme.Robot.Tree.Course.{tries, IsDone, task_course}
use warehouse_fleet_manageme.Robot.Tree.Played.{history, is_unhalted, is_running, ended}
use warehouse_fleet_manageme.Robot.Tree.Served.{
  Phase, waiting, working, told, other, advance, phase, slots, queue, Names, IsNameless, IsSuccess,
  Follows,
}
use warehouse_fleet_manageme.Robot.Tree.Served.Steps.{call-Follows, start-Follows, tick-Follows}

pub phase-append : (p : Phase) (h h' : History) → phase p (h ++ h') ≡ phase (phase p h) h'
phase-append p [] h' = refl
phase-append p (e ∷ h) h' = phase-append (advance p e.0 e.1) h h'

pub phase-tries : (p : Phase) (l : Leg) (n : ℕ) → phase p (tries l n) ≡ p
phase-tries waiting l zero = refl
phase-tries waiting l (suc n) = phase-tries waiting l n
phase-tries working l zero = refl
phase-tries working l (suc n) = phase-tries working l n
phase-tries told l zero = refl
phase-tries told l (suc n) = phase-tries told l n
phase-tries other l zero = refl
phase-tries other l (suc n) = phase-tries other l n

-- A leg neither takes a task nor reports one.
phase-leg : (l : Leg) (h : History) → IsDone l h → phase working h ≡ working
phase-leg l h (inl (k, _, p, _)) =
    rw (p, phase-append working (tries l k) _, phase-tries working l k) refl
phase-leg l h (inr (k, _, p, _)) =
    rw (p, phase-append working (tries l k) _, phase-tries working l k) refl

module _ (Ends : Tree → History → NodeStatus → Type 0) (engine : IsEngine Ends) where
  task_told : (h : History) → Ends task_execution h success → phase waiting h ≡ told
  task_told h e =
      let (to_pick, to_drop, x, y, p) = task_course Ends engine h e in
      rw
        (
          p,
          phase-append working to_pick (
              ((execute pick, success) ∷ to_drop)
              ++ ((execute drop, success) ∷ (report, success) ∷ [])),
          phase-leg pick to_pick x,
          phase-append working to_drop ((execute drop, success) ∷ (report, success) ∷ []),
          phase-leg drop to_drop y,
        )
        refl

module _ {D : Type 0} ⦃d : Double D⦄ (t : TaskAssignment D) (name : String)
    (cs : List (TaskCompletion D)) where
  -- A leaf has ended or runs on.
  after-Follows :
      (h : History) (l : Leaf) (x : System D × NodeStatus)
      → Follows t name cs (phase (phase waiting h) (ended l x.1)) (slots x.0.agent)
      → Follows t name cs (phase waiting (h ++ ended l x.1)) (slots (after l x).system.agent)
  after-Follows h l x v =
      subst (λ s. Follows t name cs (phase waiting (h ++ ended l x.1)) (slots s.agent))
        (sym (after_system l x))
        (subst (λ p. Follows t name cs p (slots x.0.agent))
          (sym (phase-append waiting h (ended l x.1))) v)

  preempted-Follows :
      (p : Phase) (l : Leaf) (i : Inputs) (r : Run D)
      → is_running (start_leaf (nav to_charger) i r.system).1 ≡ false
      → Follows t name cs p (slots r.system.agent)
      → Follows t name cs p
          (slots (preempted l (start_leaf (nav to_charger) i r.system)).system.agent)
  unfolding start_leaf Navigate.on_start
  preempted-Follows p l i r f v = ground arith

  pub Reach-Follows :
      {r r' : Run D} (h : Reach r r')
      → is_unhalted h ≡ true
      → Follows t name cs waiting (slots r.system.agent)
      → Follows t name cs (phase waiting (history h)) (slots r'.system.agent)
  Reach-Follows here u v = v
  Reach-Follows {r' = r'} (next {s = s} h (outside e p)) u v =
      subst (λ x. Follows t name cs (phase waiting (history h)) (slots x.system.agent)) (sym p)
        (call-Follows t name cs (phase waiting (history h)) e s.system (Reach-Follows h u v))
  Reach-Follows (next {s = s} h (start l i q p)) u v =
      subst
        (λ x.
          Follows t name cs (phase waiting (history h ++ ended l (start_leaf l i s.system).1))
            (slots x.system.agent))
        (sym p)
        (after-Follows (history h) l (start_leaf l i s.system)
          (start-Follows t name cs (phase waiting (history h)) l i s.system (Reach-Follows h u v)))
  Reach-Follows (next {s = s} h (tick l i q p)) u v =
      subst
        (λ x.
          Follows t name cs (phase waiting (history h ++ ended l (tick_leaf l i s.system).1))
            (slots x.system.agent))
        (sym p)
        (after-Follows (history h) l (tick_leaf l i s.system)
          (tick-Follows t name cs (phase waiting (history h)) l i s.system (Reach-Follows h u v)))
  Reach-Follows (next h (halt l q p)) u v = absurd (ground arith)
  Reach-Follows (next {s = s} h (preempt l i w q p)) u v =
      subst (λ x. Follows t name cs (phase waiting (history h)) (slots x.system.agent)) (sym p)
        (preempted-Follows (phase waiting (history h)) l i s (ground arith)
          (Reach-Follows h (ground arith) v))

module _ {D : Type 0} ⦃d : Double D⦄ (Ends : Tree → History → NodeStatus → Type 0)
    (engine : IsEngine Ends) where
  -- Under an engine that meets its laws, for a robot with no current task and an active publisher,
  -- for which a task waits first, whose tree then finishes a task without halting a leaf: exactly
  -- one completion is published since, of a success. It names this task and the robot, or a low
  -- battery interrupted the task in between: then it has no ids, and the task waits to be done again.
  pub task_served :
      {r r' : Run D} (h : Reach r r') (t : TaskAssignment D) (rest : List (TaskAssignment D))
      → let a = r.system.agent in
        let a' = r'.system.agent in
        a.current_task ≡ none
        → queue a.interrupted_task a.pending_tasks ≡ t ∷ rest
        → a.completion_pub ≡ active
        → is_unhalted h ≡ true
        → Ends task_execution (history h) success
        → (a'.current_task ≡ none)
          × ((msg : TaskCompletion D) × (a'.completions ≡ msg ∷ a.completions)
              × IsSuccess msg
              × (Names t a.robot_name msg ⊎ (IsNameless msg × (a'.interrupted_task ≡ some t))))
  task_served {r} {r'} h t rest e q on u w =
      let a = r.system.agent in
      let v =
        Reach-Follows t a.robot_name a.completions h u
          (refl, ap is_activated on, (e, refl, (rest, q))) in
      let told_now =
        subst (λ p. Follows t a.robot_name a.completions p (slots r'.system.agent))
          (task_told Ends engine (history h) w) v in
      told_now.2
