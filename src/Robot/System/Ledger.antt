-- ===== src/Robot/System/Ledger.antt =====
-- What becomes of the tasks that a robot is given: the slots for tasks of robot_agent_node.hpp in
-- src/fms_robot_agent, against one queue.
use mathlib.Core.List.{append_assoc, append-nil}
use warehouse_fleet_manageme.Common.{
  ℕ, ◌≡◌, refl, sym, ap, ◌∙◌, Option, none, some, List, [], ◌∷◌, ◌++◌, arith,
}
use warehouse_fleet_manageme.Float.{Double}
use warehouse_fleet_manageme.Messages.{TaskAssignment}
use warehouse_fleet_manageme.Robot.Agent.{Agent}
use warehouse_fleet_manageme.Robot.Nodes.Status.{NodeStatus, running, success, failure}
use warehouse_fleet_manageme.Robot.Agent.Callbacks.{
  interrupt_tasks, task_assignment_cb, fault_service_cb, battery_update_cb, status_publish_cb,
}
use warehouse_fleet_manageme.Robot.Nodes.RequestTask.{take_task}
use warehouse_fleet_manageme.Robot.Nodes.RequestTask
use warehouse_fleet_manageme.Robot.Nodes.Navigate
use warehouse_fleet_manageme.Robot.Nodes.Recovery
use warehouse_fleet_manageme.Robot.Nodes.Execute
use warehouse_fleet_manageme.Robot.Nodes.Report
use warehouse_fleet_manageme.Robot.Nodes.Charge
use warehouse_fleet_manageme.Robot.System.{
  Leaf, battery_ok, request, charge, report, nav, recovery, execute, Inputs, System, Outside,
  assignment, inject_fault, battery_timer, status_timer, goal_response, call, start_leaf, tick_leaf,
  halt_leaf, preempted, preempt, to_charger, Run, after_system, outside, start, tick, halt, Reach,
  here, next,
}

module _ {D : Type 0} where
  abbrev listed : Option (TaskAssignment D) → List (TaskAssignment D)
  listed none = []
  listed (some t) = t ∷ []

  -- The tasks that the node holds: the current one, the interrupted one, and those that wait.
  abbrev pub held : Agent D → List (TaskAssignment D)
  held a = listed a.current_task ++ (listed a.interrupted_task ++ a.pending_tasks)

  -- The task that RequestTask pushes out when it starts another one.
  abbrev pushed_out : Option (TaskAssignment D) → Agent D → List (TaskAssignment D)
  pushed_out none a = []
  pushed_out (some t) a = listed a.current_task

  abbrev pub arriving : Outside D → List (TaskAssignment D)
  arriving (assignment t) = t ∷ []
  arriving _ = []

  -- The task that leaves when a leaf is called.
  abbrev pub leaving : Leaf → System D → List (TaskAssignment D)
  leaving request s = pushed_out (take_task s.agent).0 s.agent
  leaving report s = listed s.agent.current_task
  leaving _ s = []

  -- A tick of a leaf that is done at once does nothing.
  abbrev pub leaving_tick : Leaf → System D → List (TaskAssignment D)
  leaving_tick report s = []
  leaving_tick l s = leaving l s

  leave :
      {all before : List (TaskAssignment D)} (left out rest : List (TaskAssignment D))
      → all ≡ left ++ before
      → before ≡ out ++ rest
      → all ≡ left ++ out ++ rest
  leave left out rest e f = e ∙ ap (◌++◌ left) f ∙ sym (append_assoc left out rest)

module _ {D : Type 0} ⦃d : Double D⦄ where
  abbrev pub arrivals : {r r' : Run D} → Reach r r' → List (TaskAssignment D)
  arrivals here = []
  arrivals (next h (outside e p)) = arrivals h ++ arriving e
  arrivals (next h _) = arrivals h

  abbrev pub departures : {r r' : Run D} → Reach r r' → List (TaskAssignment D)
  departures here = []
  departures (next h (outside e p)) = departures h
  departures (next {s = r} h (start l i q p)) = departures h ++ leaving l r.system
  departures (next {s = r} h (tick l i q p)) = departures h ++ leaving_tick l r.system
  departures (next h (halt l q p)) = departures h
  departures (next h (preempt l i w q p)) = departures h

  held-interrupt :
      (current interrupted : Option (TaskAssignment D))
      → listed (interrupt_tasks current interrupted).0
          ++ listed (interrupt_tasks current interrupted).1
        ≡ listed current ++ listed interrupted
  held-interrupt none none = refl
  held-interrupt none (some u) = refl
  held-interrupt (some t) none = refl
  held-interrupt (some t) (some u) = refl

  held-arrive :
      (t : TaskAssignment D) (a : Agent D) → held (task_assignment_cb t a) ≡ held a ++ (t ∷ [])
  unfolding task_assignment_cb
  held-arrive t a = simp append_assoc

  held-battery : (now : ℕ) (a : Agent D) → held (battery_update_cb now a) ≡ held a
  unfolding battery_update_cb
  held-battery now a = ground (
    arith,
    append_assoc (listed a.current_task) (listed a.interrupted_task) a.pending_tasks,
    held-interrupt a.current_task a.interrupted_task,
  )

  held-call : (e : Outside D) (s : System D) → held (call e s).agent ≡ held s.agent ++ arriving e
  unfolding call
  held-call (assignment msg) s = held-arrive msg s.agent
  held-call (inject_fault value) s =
      unfold fault_service_cb in ground (arith, append-nil (held s.agent))
  held-call (battery_timer now) s = rw append-nil (held-battery now s.agent)
  held-call (status_timer now transform) s =
      unfold status_publish_cb in ground (arith, append-nil (held s.agent))
  held-call (goal_response w goal handle) s = ground (arith, append-nil (held s.agent))
  held-call _ s = ground (arith, append-nil (held s.agent))

  held-request :
      (c : RequestTask.Clock) (a : Agent D)
      → held a ≡ pushed_out (take_task a).0 a ++ held (RequestTask.on_running c a).0
  unfolding RequestTask.on_running
  held-request c a = ground arith

  held-start :
      (l : Leaf) (i : Inputs) (s : System D)
      → held s.agent ≡ leaving l s ++ held (start_leaf l i s).0.agent
  unfolding start_leaf
  held-start battery_ok i s = refl
  held-start request i s = unfold RequestTask.on_start in held-request i.clock s.agent
  held-start charge i s = unfold Charge.on_start in refl
  held-start report i s = unfold Report.tick in ground arith
  held-start (nav w) i s = unfold Navigate.on_start in ground arith
  held-start (recovery l) i s = unfold Recovery.on_start in ground arith
  held-start (execute l) i s = unfold Execute.on_start in refl

  held-tick :
      (l : Leaf) (i : Inputs) (s : System D)
      → held s.agent ≡ leaving_tick l s ++ held (tick_leaf l i s).0.agent
  unfolding tick_leaf
  held-tick battery_ok i s = refl
  held-tick request i s = held-request i.clock s.agent
  held-tick charge i s = unfold Charge.on_running in ground arith
  held-tick report i s = refl
  held-tick (nav w) i s = unfold Navigate.on_running in ground arith
  held-tick (recovery l) i s = unfold Recovery.on_running in ground arith
  held-tick (execute l) i s = unfold Execute.on_running in ground arith

  held-halt : (l : Leaf) (s : System D) → held (halt_leaf l s).agent ≡ held s.agent
  unfolding halt_leaf
  held-halt battery_ok s = refl
  held-halt report s = refl
  held-halt request s = unfold RequestTask.on_halted in refl
  held-halt charge s = unfold Charge.on_halted in refl
  held-halt (nav w) s = unfold Navigate.on_halted in ground arith
  held-halt (recovery l) s = ground arith
  held-halt (execute l) s = ground arith

  held-preempted :
      (l : Leaf) (t : System D × NodeStatus) → held (preempted l t).system.agent ≡ held t.0.agent
  held-preempted l (s, running) = held-halt l s
  held-preempted l (s, success) = refl
  held-preempted l (s, failure) = refl

  -- The tasks that a robot holds are one queue: what it held at first and what arrived since, in
  -- this order, is what left it, by a report or pushed out by the next task, followed by what it
  -- holds.
  pub held_fifo :
      {r r' : Run D} (h : Reach r r')
      → held r.system.agent ++ arrivals h ≡ departures h ++ held r'.system.agent
  held_fifo here = append-nil _
  held_fifo {r = r} (next {s = s} h (outside e p)) =
      rw (p, held-call e s.system)
        (sym (append_assoc (held r.system.agent) (arrivals h) (arriving e))
          ∙ ap (λ ts. ts ++ arriving e) (held_fifo h)
          ∙ append_assoc (departures h) (held s.system.agent) (arriving e))
  held_fifo (next {s = s} h (start l i q p)) =
      rw (p, after_system l (start_leaf l i s.system))
        (leave _ _ _ (held_fifo h) (held-start l i s.system))
  held_fifo (next {s = s} h (tick l i q p)) =
      rw (p, after_system l (tick_leaf l i s.system))
        (leave _ _ _ (held_fifo h) (held-tick l i s.system))
  held_fifo (next {s = s} h (halt l q p)) = rw (p, held-halt l s.system) (held_fifo h)
  held_fifo (next {s = s} h (preempt l i w q p)) =
      rw
        (
          p,
          held-preempted l (start_leaf (nav to_charger) i s.system),
          sym (held-start (nav to_charger) i s.system),
        )
        (held_fifo h)
