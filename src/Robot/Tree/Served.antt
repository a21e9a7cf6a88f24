-- ===== src/Robot/Tree/Served.antt =====
-- What a robot reports of the task that its tree finishes: request_task.cpp, report_status.cpp and
-- robot_agent_node.cpp over bt_xml/robot_agent.xml, in src/fms_robot_agent.
pub mod Steps
pub mod Task
pub mod GivenUp
use warehouse_fleet_manageme.Common.{
  ℕ, String, ◌≡◌, refl, sym, subst, ap, ◌∙◌, ◌⊎◌, inl, inr, Bool, true, false, Option, none, some,
  List, [], ◌∷◌, ◌++◌, arith, if◌then◌else◌,
}
use warehouse_fleet_manageme.Float.{Double}
use warehouse_fleet_manageme.Messages.{TaskAssignment, TaskCompletion, result_success}
use warehouse_fleet_manageme.Robot.Agent.{Agent, is_activated}
use warehouse_fleet_manageme.Robot.Agent.Callbacks.{
  interrupt_tasks, task_assignment_cb, fault_service_cb, battery_update_cb, status_publish_cb,
}
use warehouse_fleet_manageme.Robot.Nodes.Status.{NodeStatus, running, success, failure}
use warehouse_fleet_manageme.Robot.Nodes.RequestTask
use warehouse_fleet_manageme.Robot.Nodes.Navigate
use warehouse_fleet_manageme.Robot.Nodes.Recovery
use warehouse_fleet_manageme.Robot.Nodes.Execute
use warehouse_fleet_manageme.Robot.Nodes.Report
use warehouse_fleet_manageme.Robot.Nodes.Charge
use warehouse_fleet_manageme.Robot.System.{
  Leaf, battery_ok, request, charge, report, nav, recovery, execute, Inputs, System, Outside,
  assignment, inject_fault, battery_timer, status_timer, goal_response, call, start_leaf, tick_leaf,
}
use warehouse_fleet_manageme.Robot.Tree.{History}
use warehouse_fleet_manageme.Robot.Tree.Played.{ended}

-- How far a history has come with one task.
pub data Phase : Type 0 where
  waiting working told other : Phase

abbrev pub advance : Phase → Leaf → NodeStatus → Phase
advance waiting request success = working
advance working report success = told
advance p request success = other
advance p report success = other
advance p l r = p

abbrev pub phase : Phase → History → Phase
phase p [] = p
phase p (e ∷ h) = phase (advance p e.0 e.1) h

-- A leaf that neither takes a task nor reports one.
abbrev pub is_plain : Leaf → Bool
is_plain request = false
is_plain report = false
is_plain _ = true

plain_phase : (p : Phase) (l : Leaf) (r : NodeStatus) → is_plain l ≡ true → phase p (ended l r) ≡ p
plain_phase p l r e = ground arith

-- What the node keeps of its tasks, and whether its publisher of completions is active.
pub record Slots (D : Type 0) : Type 0 where
  pub name : String
  pub publishes : Bool
  pub current : Option (TaskAssignment D)
  pub interrupted : Option (TaskAssignment D)
  pub pending : List (TaskAssignment D)
  pub reports : List (TaskCompletion D)

module _ {D : Type 0} where
  abbrev pub slots : Agent D → Slots D
  slots a = record {
    name = a.robot_name;
    publishes = is_activated a.completion_pub;
    current = a.current_task;
    interrupted = a.interrupted_task;
    pending = a.pending_tasks;
    reports = a.completions;
  }

  -- The tasks that RequestTask can take, in its order.
  abbrev pub queue : Option (TaskAssignment D) → List (TaskAssignment D) → List (TaskAssignment D)
  queue none pending = pending
  queue (some t) pending = t ∷ pending

  abbrev pub Names : TaskAssignment D → String → TaskCompletion D → Type 0
  Names t name msg = (msg.task_id ≡ t.task_id) × (msg.robot_id ≡ name)

  -- The result of a task that was done.
  abbrev pub IsSuccess : TaskCompletion D → Type 0
  IsSuccess msg = (msg.result ≡ result_success) × (msg.error_message ≡ "")

  abbrev pub IsNameless : TaskCompletion D → Type 0
  IsNameless msg = (msg.task_id ≡ "") × (msg.robot_id ≡ "")

  -- What has become of the task `t` of the robot `name`, which had published `cs` before.
  abbrev pub Fate : TaskAssignment D → String → List (TaskCompletion D) → Phase → Slots D → Type 0
  Fate t name cs waiting x =
      (x.current ≡ none)
      × (x.reports ≡ cs)
      × ((rest : List (TaskAssignment D)) × (queue x.interrupted x.pending ≡ t ∷ rest))
  Fate t name cs working x =
      (x.reports ≡ cs) × ((x.current ≡ some t) ⊎ ((x.current ≡ none) × (x.interrupted ≡ some t)))
  Fate t name cs told x =
      (x.current ≡ none)
      × ((msg : TaskCompletion D) × (x.reports ≡ msg ∷ cs)
          × IsSuccess msg
          × (Names t name msg ⊎ (IsNameless msg × (x.interrupted ≡ some t))))
  Fate t name cs other x = Unit

  unfoldable pub interrupted : Slots D → Slots D
  interrupted x =
      let (current, old) = interrupt_tasks x.current x.interrupted in
      record x { current = current; interrupted = old }

  interrupted_none : (x : Slots D) → x.current ≡ none → interrupted x ≡ x
  unfolding interrupted
  interrupted_none x e = ground arith

  unfoldable pub reported : TaskCompletion D → Slots D → Slots D
  reported msg x = record x {
    current = none;
    reports = if x.publishes then msg ∷ x.reports else x.reports;
  }

  queue-append :
      (o : Option (TaskAssignment D)) (ts us : List (TaskAssignment D))
      → queue o (ts ++ us) ≡ queue o ts ++ us
  queue-append none ts us = refl
  queue-append (some t) ts us = refl

module _ {D : Type 0} (t : TaskAssignment D) (name : String) (cs : List (TaskCompletion D)) where
  -- The robot keeps its name and its publisher.
  abbrev pub Follows : Phase → Slots D → Type 0
  Follows p x = (x.name ≡ name) × (x.publishes ≡ true) × Fate t name cs p x

  pub arrive-Follows :
      (p : Phase) (x : Slots D) (ts : List (TaskAssignment D))
      → Follows p x
      → Follows p (record x { pending = x.pending ++ ts })
  arrive-Follows waiting x ts (a, b, (c, e, (rest, q))) =
      (a, b, (c, e, (rest ++ ts, queue-append x.interrupted x.pending ts ∙ ap (λ u. u ++ ts) q)))
  arrive-Follows working x ts v = v
  arrive-Follows told x ts v = v
  arrive-Follows other x ts v = v

  pub interrupt-Follows : (p : Phase) (x : Slots D) → Follows p x → Follows p (interrupted x)
  unfolding interrupted
  interrupt-Follows waiting x v = ground arith
  interrupt-Follows working x v = ground arith
  interrupt-Follows told x (a, b, (c, v)) =
      subst (Follows told) (sym (interrupted_none x c)) (a, b, (c, v))
  interrupt-Follows other x v = ground arith

  pub publish-Follows :
      (p : Phase) (x : Slots D) (msg : TaskCompletion D)
      → IsSuccess msg
      → (x.current ≡ some t → Names t x.name msg)
      → (x.current ≡ none → IsNameless msg)
      → Follows p x
      → Follows (advance p report success) (reported msg x)
  unfolding reported
  publish-Follows waiting x msg good named nameless v = ground arith
  publish-Follows told x msg good named nameless v = ground arith
  publish-Follows other x msg good named nameless v = ground arith
  publish-Follows working x msg good named nameless (a, b, (c, v)) = (
    a,
    b,
    (
      refl,
      (
        msg,
        rw b (ap (λ u. msg ∷ u) c),
        good,
        elim v [ inl e ↦ inl ((named e).0, (named e).1 ∙ a) | inr (e, f) ↦ inr (nameless e, f) ],
      ),
    ),
  )

  -- A leaf other than RequestTask and ReportStatus.
  pub plain-Follows :
      (p : Phase) (l : Leaf) (r : NodeStatus) (x x' : Slots D)
      → is_plain l ≡ true
      → x' ≡ x
      → Follows p x
      → Follows (phase p (ended l r)) x'
  plain-Follows p l r x x' e f v =
      subst (λ q. Follows q x') (sym (plain_phase p l r e)) (subst (Follows p) (sym f) v)
