-- ===== src/Robot/System/Custody.antt =====
-- Where the tasks of a robot come from: the slots for tasks of robot_agent_node.hpp over all its
-- steps, in src/fms_robot_agent.
use warehouse_fleet_manageme.Common.{
  ℕ, String, ◌≡◌, refl, sym, subst, ◌∙◌, ◌⊎◌, inl, inr, true, false, Bool, Option, Option-cases,
  if◌then◌else◌, none, some, List, [], ◌∷◌, ◌++◌, All, All-append, All-map, arith,
}
use warehouse_fleet_manageme.Float.{Double}
use warehouse_fleet_manageme.Messages.{TaskAssignment, TaskCompletion}
use warehouse_fleet_manageme.Robot.Agent.{Agent}
use warehouse_fleet_manageme.Robot.Agent.Callbacks.{task_assignment_cb}
use warehouse_fleet_manageme.Robot.Nodes.Status.{NodeStatus, running, success, failure}
use warehouse_fleet_manageme.Robot.Nodes.RequestTask
use warehouse_fleet_manageme.Robot.Nodes.Navigate
use warehouse_fleet_manageme.Robot.Nodes.Report
use warehouse_fleet_manageme.Robot.Nodes.Report.{completion}
use warehouse_fleet_manageme.Robot.Nodes.Charge
use warehouse_fleet_manageme.Robot.System.{
  Leaf, battery_ok, request, charge, report, nav, recovery, execute, to_charger, Inputs, System,
  Outside, assignment, inject_fault, battery_timer, status_timer, goal_response, call, start_leaf,
  tick_leaf, halt_leaf, preempted, Run, after_system, Step, outside, start, tick, halt, preempt,
}
use warehouse_fleet_manageme.Robot.System.Ledger.{arriving}
use warehouse_fleet_manageme.Robot.Tree.Served.{
  Slots, slots, Names, IsNameless, interrupted, reported,
}
use warehouse_fleet_manageme.Robot.Tree.Served.Steps.{
  plain_call, call-slots, battery-slots, start-slots, tick-slots, report-slots,
}

module _ {D : Type 0} ⦃d : Double D⦄ where
  -- The tasks that a step brings.
  abbrev pub brought : {r r' : Run D} → Step r r' → List (TaskAssignment D)
  brought (outside e p) = arriving e
  brought _ = []

module _ {D : Type 0} (P : TaskAssignment D → Type 0) (name : String) where
  abbrev IsSome : Option (TaskAssignment D) → Type 0
  IsSome none = Unit
  IsSome (some t) = P t

  -- A completion without ids, or about such a task.
  abbrev pub IsAbout : TaskCompletion D → Type 0
  IsAbout msg = IsNameless msg ⊎ ((t : TaskAssignment D) × P t × Names t name msg)

  -- All tasks that the robot holds, and all that it reported, are such tasks.
  pub record Keeps (x : Slots D) : Type 0 where
    pub same_name : x.name ≡ name
    pub current : IsSome x.current
    pub interrupted : IsSome x.interrupted
    pub pending : All P x.pending
    pub reports : All IsAbout x.reports

  interrupted-Keeps : (x : Slots D) → Keeps x → Keeps (interrupted x)
  unfolding interrupted
  interrupted-Keeps x v = ground arith

  All-if :
      (b : Bool) (msg : TaskCompletion D) (cs : List (TaskCompletion D))
      → IsAbout msg
      → All IsAbout cs
      → All IsAbout (if b then msg ∷ cs else cs)
  All-if true msg cs v w = (v, w)
  All-if false msg cs v w = w

  reported-Keeps :
      (msg : TaskCompletion D) (x : Slots D)
      → (x.current ≡ none → IsNameless msg)
      → ((t : TaskAssignment D) → x.current ≡ some t → Names t x.name msg)
      → Keeps x
      → Keeps (reported msg x)
  unfolding reported
  reported-Keeps msg x n f v = record {
    same_name = v.same_name;
    current = tt;
    interrupted = v.interrupted;
    pending = v.pending;
    reports = All-if x.publishes msg x.reports about v.reports;
  }
    where
      about : IsAbout msg
      about = elim (Option-cases x.current) [
        | inl e ↦ inl (n e)
        | inr (t, e) ↦ inr (t, subst IsSome e v.current, ((f t e).0, (f t e).1 ∙ v.same_name))
      ]

  queued-Keeps :
      (x : Slots D) (ts : List (TaskAssignment D))
      → All P ts
      → Keeps x
      → Keeps (record x { pending = x.pending ++ ts })
  queued-Keeps x ts w v = record {
    same_name = v.same_name;
    current = v.current;
    interrupted = v.interrupted;
    pending = All-append P x.pending ts v.pending w;
    reports = v.reports;
  }

module _ {D : Type 0} (P Q : TaskAssignment D → Type 0) (name : String)
    (f : (t : TaskAssignment D) → P t → Q t) where
  IsAbout-map : (c : TaskCompletion D) → IsAbout P name c → IsAbout Q name c
  IsAbout-map c (inl n) = inl n
  IsAbout-map c (inr (t, m, n)) = inr (t, f t m, n)

  IsSome-map : (o : Option (TaskAssignment D)) → IsSome P name o → IsSome Q name o
  IsSome-map none v = tt
  IsSome-map (some t) v = f t v

  pub Keeps-map : (x : Slots D) → Keeps P name x → Keeps Q name x
  Keeps-map x v = record {
    same_name = v.same_name;
    current = IsSome-map x.current v.current;
    interrupted = IsSome-map x.interrupted v.interrupted;
    pending = All-map f x.pending v.pending;
    reports = All-map IsAbout-map x.reports v.reports;
  }

module _ {D : Type 0} ⦃d : Double D⦄ (P : TaskAssignment D → Type 0) (name : String) where
  call-Keeps :
      (e : Outside D) (s : System D)
      → All P (arriving e)
      → Keeps P name (slots s.agent)
      → Keeps P name (slots (call e s).agent)
  unfolding plain_call
  call-Keeps (assignment msg) s w v =
      unfold call task_assignment_cb in queued-Keeps P name (slots s.agent) (msg ∷ []) w v
  call-Keeps (battery_timer now) s w v =
      unfold call in
      elim (battery-slots now s.agent) [
        | inl e ↦ subst (Keeps P name) (sym e) v
        | inr e ↦ subst (Keeps P name) (sym e) (interrupted-Keeps P name (slots s.agent) v)
      ]
  call-Keeps (inject_fault value) s w v =
      subst (Keeps P name) (sym (call-slots (inject_fault value) s refl)) v
  call-Keeps (status_timer now transform) s w v =
      subst (Keeps P name) (sym (call-slots (status_timer now transform) s refl)) v
  call-Keeps (goal_response u goal handle) s w v =
      subst (Keeps P name) (sym (call-slots (goal_response u goal handle) s refl)) v
  call-Keeps e s w v = subst (Keeps P name) (sym (call-slots e s refl)) v

  request-Keeps :
      (c : RequestTask.Clock) (a : Agent D)
      → Keeps P name (slots a)
      → Keeps P name (slots (RequestTask.on_running c a).0)
  unfolding RequestTask.on_running RequestTask.take_task RequestTask.accept_task
  request-Keeps c a v = ground arith

  report-Keeps :
      (now later : ℕ) (a : Agent D)
      → Keeps P name (slots a)
      → Keeps P name (slots (Report.tick now later a).0)
  unfolding completion
  report-Keeps now later a v = subst (Keeps P name) (sym (report-slots now later a)) (
      reported-Keeps P name (completion now later a) (slots a) (λ e. ground arith)
        (λ t e. ground arith) v)

  start-Keeps :
      (l : Leaf) (i : Inputs) (s : System D)
      → Keeps P name (slots s.agent)
      → Keeps P name (slots (start_leaf l i s).0.agent)
  start-Keeps request i s v =
      unfold start_leaf RequestTask.on_start in request-Keeps i.clock s.agent v
  start-Keeps report i s v = unfold start_leaf in report-Keeps i.now i.later s.agent v
  start-Keeps l i s v = subst (Keeps P name) (sym (start-slots l i s refl)) v

  tick-Keeps :
      (l : Leaf) (i : Inputs) (s : System D)
      → Keeps P name (slots s.agent)
      → Keeps P name (slots (tick_leaf l i s).0.agent)
  tick-Keeps request i s v = unfold tick_leaf in request-Keeps i.clock s.agent v
  tick-Keeps report i s v = unfold tick_leaf in v
  tick-Keeps l i s v = subst (Keeps P name) (sym (tick-slots l i s refl)) v

  halt-slots : (l : Leaf) (s : System D) → slots (halt_leaf l s).agent ≡ slots s.agent
  unfolding halt_leaf
  halt-slots battery_ok s = refl
  halt-slots report s = refl
  halt-slots request s = unfold RequestTask.on_halted in refl
  halt-slots charge s = unfold Charge.on_halted in refl
  halt-slots (nav w) s = unfold Navigate.on_halted in ground arith
  halt-slots (recovery l) s = ground arith
  halt-slots (execute l) s = ground arith

  preempted-Keeps :
      (l : Leaf) (x : System D × NodeStatus)
      → Keeps P name (slots x.0.agent)
      → Keeps P name (slots (preempted l x).system.agent)
  preempted-Keeps l (s, running) v = subst (Keeps P name) (sym (halt-slots l s)) v
  preempted-Keeps l (s, success) v = v
  preempted-Keeps l (s, failure) v = v

  pub step-Keeps :
      {r r' : Run D} (st : Step r r')
      → All P (brought st)
      → Keeps P name (slots r.system.agent)
      → Keeps P name (slots r'.system.agent)
  step-Keeps {r} (outside e p) w v = rw p (call-Keeps e r.system w v)
  step-Keeps {r} (start l i q p) w v =
      rw (p, after_system l (start_leaf l i r.system)) (start-Keeps l i r.system v)
  step-Keeps {r} (tick l i q p) w v =
      rw (p, after_system l (tick_leaf l i r.system)) (tick-Keeps l i r.system v)
  step-Keeps {r} (halt l q p) w v = rw p (subst (Keeps P name) (sym (halt-slots l r.system)) v)
  step-Keeps {r} (preempt l i u q p) w v = rw p (
      preempted-Keeps l (start_leaf (nav to_charger) i r.system)
        (start-Keeps (nav to_charger) i r.system v))
