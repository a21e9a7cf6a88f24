-- ===== src/Robot/Tree/Served/GivenUp.antt =====
-- A task that the tree gives up: bt_xml/robot_agent.xml over the steps of a robot, in
-- src/fms_robot_agent.
use warehouse_fleet_manageme.Common.{
  ◌≡◌, refl, subst, ap, ◌∙◌, ◌⊎◌, inl, inr, true, none, some, List, ◌∷◌,
}
use warehouse_fleet_manageme.Float.{Double}
use warehouse_fleet_manageme.Messages.{TaskAssignment}
use warehouse_fleet_manageme.Robot.Agent.{is_activated, active}
use warehouse_fleet_manageme.Robot.Fsm.{RobotState}
use warehouse_fleet_manageme.Robot.Nodes.Status.{NodeStatus, success, failure}
use warehouse_fleet_manageme.Robot.System.{
  Leg, pick, drop, Leaf, request, report, execute, Run, Reach,
}
use warehouse_fleet_manageme.Robot.Tree.{
  Tree, leaf, sequence, Children, no_child, child, nav_retry, task_execution, History, IsEngine,
}
use warehouse_fleet_manageme.Robot.Tree.Course.{tries, leg_outcome}
use warehouse_fleet_manageme.Robot.Tree.Played.{history, is_unhalted}
use warehouse_fleet_manageme.Robot.Tree.States.{Leads, Reach-Leads}
use warehouse_fleet_manageme.Robot.Tree.Served.{
  waiting, working, advance, phase, slots, queue, Follows,
}
use warehouse_fleet_manageme.Robot.Tree.Served.Task.{phase-append, phase-tries, Reach-Follows}

module _ (Ends : Tree → History → NodeStatus → Type 0) (engine : IsEngine Ends) where
  -- A leg neither takes a task nor reports one, whether it succeeds or fails.
  leg_kept :
      (l : Leg) (h : History) (r : NodeStatus)
      → Ends (nav_retry 3 l) h r
      → phase working h ≡ working
  leg_kept l h r e = elim (leg_outcome Ends engine 3 l h r e) [
    | inl (k, _, p, _) ↦ rw (p, phase-append working (tries l k) _, phase-tries working l k) refl
    | inr (inl (k, _, p, _)) ↦
        rw (p, phase-append working (tries l k) _, phase-tries working l k) refl
    | inr (inr (p, _)) ↦ rw p (phase-tries working l 3)
  ]

  leaf_kept :
      (l : Leaf) (h : History) (r : NodeStatus)
      → advance working l r ≡ working
      → Ends (leaf l) h r
      → phase working h ≡ working
  leaf_kept l h r q e = rw (engine.leaf_ends l h r e) q

  -- The first child, and the others if it succeeds.
  sequence_kept :
      (t : Tree) (ts : Children) (h : History)
      → ((h' : History) (r : NodeStatus) → Ends t h' r → phase working h' ≡ working)
      → ((h' : History) → Ends (sequence ts) h' failure → phase working h' ≡ working)
      → Ends (sequence (child t ts)) h failure
      → phase working h ≡ working
  sequence_kept t ts h first rest e = elim (engine.sequence_child t ts h failure e) [
    | inl (f, _) ↦ first h failure f
    | inr (h1, h2, f, g, p) ↦
        rw (p, phase-append working h1 h2) (ap (λ x. phase x h2) (first h1 success f) ∙ rest h2 g)
  ]

  -- The leaf that reports does not succeed in a sequence that fails.
  report_kept :
      (h : History)
      → Ends (sequence (child (leaf report) no_child)) h failure
      → phase working h ≡ working
  report_kept h e = elim (engine.sequence_child (leaf report) no_child h failure e) [
    | inl (f, _) ↦ leaf_kept report h failure refl f
    | inr (h1, h2, f, g, p) ↦ let (_, w) = engine.sequence_empty h2 failure g in cc
  ]

  -- What follows RequestTask, where it fails.
  steps_kept :
      (h : History)
      → Ends
          (sequence (
            child (nav_retry 3 pick) (
              child (leaf (execute pick)) (
                child
                  (nav_retry 3 drop)
                  (child (leaf (execute drop)) (child (leaf report) no_child))))))
          h
          failure
      → phase working h ≡ working
  steps_kept h = sequence_kept _ _ h (leg_kept pick) (λ h2.
      sequence_kept _ _ h2 (λ h' r. leaf_kept (execute pick) h' r refl)
        (λ h3.
          sequence_kept _ _ h3 (leg_kept drop)
            (λ h4. sequence_kept _ _ h4 (λ h' r. leaf_kept (execute drop) h' r refl) report_kept)))

  -- A task that is given up was taken, and is not reported.
  task_kept :
      (h : History) (s t : RobotState)
      → Ends task_execution h failure
      → Leads h s t
      → phase waiting h ≡ working
  task_kept h s t e k = elim (engine.sequence_child (leaf request) _ h failure e) [
    | inl (f, _) ↦
        let (u, m, _) = subst (λ x. Leads x s t) (engine.leaf_ends request h failure f) k in
        absurd m
    | inr (h1, h2, f, g, p) ↦ rw (p, engine.leaf_ends request h1 success f) (steps_kept h2 g)
  ]

  module _ {D : Type 0} ⦃d : Double D⦄ where
    -- Under an engine that meets its laws, for a robot with no current task and an active publisher,
    -- for which a task waits first, whose tree then gives a task up without halting a leaf, and that
    -- ran no leaf before and runs none after: no completion is published since, and the robot still
    -- holds the task, as the current one, or as the interrupted one after a low battery.
    pub task_given_up :
        {r r' : Run D} (h : Reach r r') (t : TaskAssignment D) (rest : List (TaskAssignment D))
        → let a = r.system.agent in
          let a' = r'.system.agent in
          r.active ≡ none
          → a.current_task ≡ none
          → queue a.interrupted_task a.pending_tasks ≡ t ∷ rest
          → a.completion_pub ≡ active
          → is_unhalted h ≡ true
          → r'.active ≡ none
          → Ends task_execution (history h) failure
          → (a'.completions ≡ a.completions)
            × ((a'.current_task ≡ some t)
                ⊎ ((a'.current_task ≡ none) × (a'.interrupted_task ≡ some t)))
    task_given_up {r} {r'} h t rest i e q on u i' w =
        let a = r.system.agent in
        let v =
          Reach-Follows t a.robot_name a.completions h u
            (refl, ap is_activated on, (e, refl, (rest, q))) in
        let kept = task_kept (history h) a.fsm r'.system.agent.fsm w (Reach-Leads h i u i') in
        (subst (λ p. Follows t a.robot_name a.completions p (slots r'.system.agent)) kept v).2
