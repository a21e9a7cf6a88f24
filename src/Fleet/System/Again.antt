-- ===== src/Fleet/System/Again.antt =====
-- One task after another, before the next status: fleet_server_node.cpp of src/fms_fleet_server.
use warehouse_fleet_manageme.Common.{
  String, ◌≡◌, refl, sym, ap, ◌∙◌, Bool, true, false, Option, none, some, inl, inr, Option-cases,
}
use warehouse_fleet_manageme.Float.{Double}
use warehouse_fleet_manageme.Messages.{TaskAssignment}
use warehouse_fleet_manageme.Fleet.Effect.{Result, returned}
use warehouse_fleet_manageme.Fleet.Allocator.{select_best_robot}
use warehouse_fleet_manageme.Fleet.Store.{Mongo}
use warehouse_fleet_manageme.Fleet.Node.{
  FleetServer, SubmitResult, Times, select_robot, dispatch_assignment, submit_to, submit_task,
}
use warehouse_fleet_manageme.Fleet.Node.Entry.{outcomes}
use warehouse_fleet_manageme.Fleet.System.Serving.{dispatched}
use warehouse_fleet_manageme.Fleet.System.Entries.{submit_to-dispatch}

-- Whether a task is accepted, and the robot that is answered.
abbrev chosen : {D : Type 0} → Option (String × D) → Bool × String
chosen none = (false, "")
chosen (some (id, score)) = (true, id)

same_answer :
    {S : Type 0} {a b : SubmitResult} {s s' : S}
    → ◌≡◌ {A = Result SubmitResult × S} (returned a, s) (returned b, s')
    → a ≡ b
same_answer e = cc

module _ {D DB Q : Type 0} ⦃d : Double D⦄ (mongo : Mongo D DB) where
  -- What the choice of a robot reads.
  abbrev best_of : TaskAssignment D → FleetServer D DB Q → Option (String × D)
  best_of request s = select_best_robot s.latest_status request s.soc_weight

  dispatch-best_of :
      (now : Times) (t request : TaskAssignment D) (s : FleetServer D DB Q)
      → best_of request (dispatch_assignment mongo now t s).1 ≡ best_of request s
  dispatch-best_of now t request s = elim (dispatched mongo now t s) [
    | inl e ↦ rw e refl
    | inr (i, db, f, e) ↦ rw e refl
  ]

  submit_task-best_of :
      (now : Times) (t request : TaskAssignment D) (s : FleetServer D DB Q)
      → best_of request (submit_task mongo now t s).1 ≡ best_of request s
  unfolding submit_task select_robot
  submit_task-best_of now t request s = elim (Option-cases (best_of t s)) [
    | inl e ↦ rw e refl
    | inr ((id, best), e) ↦
        rw (e, submit_to-dispatch mongo now t id best s)
          (dispatch-best_of now (record t { robot_id = id }) request s)
  ]

  answered_to :
      (now : Times) (t : TaskAssignment D) (best : Option (String × D)) (a : SubmitResult)
      (s s' : FleetServer D DB Q)
      → submit_to mongo now t best s ≡ (returned a, s')
      → (a.accepted, a.robot_id) ≡ chosen best
  answered_to now t none a s s' e = ap (λ x. (x.accepted, x.robot_id)) (same_answer (sym e))
  answered_to now t (some (id, best)) a s s' e =
      elim (outcomes (dispatch_assignment mongo now (record t { robot_id = id }) s)) [
        | inl (t', s'', f) ↦ ap (λ x. (x.accepted, x.robot_id)) (same_answer (sym (rw f at e)))
        | inr (s'', f) ↦ cc
      ]

  submit_task_answer :
      (now : Times) (t : TaskAssignment D) (a : SubmitResult) (s s' : FleetServer D DB Q)
      → submit_task mongo now t s ≡ (returned a, s')
      → (a.accepted, a.robot_id) ≡ chosen (best_of t s)
  unfolding submit_task select_robot
  submit_task_answer now t a s s' e = answered_to now t (best_of t s) a s s' e

  -- A task does not make its robot busy for the allocator: of the same request, submitted twice
  -- with no status in between, the second is accepted exactly if the first was, and by the same
  -- robot.
  pub submit_task_again :
      (now later : Times) (t : TaskAssignment D) (a b : SubmitResult)
      (s s' s'' : FleetServer D DB Q)
      → submit_task mongo now t s ≡ (returned a, s')
      → submit_task mongo later t s' ≡ (returned b, s'')
      → (b.accepted ≡ a.accepted) × (b.robot_id ≡ a.robot_id)
  submit_task_again now later t a b s s' s'' e f =
      let same : best_of t s' ≡ best_of t s =
        ap (λ x. best_of t x.1) (sym e) ∙ submit_task-best_of now t t s in
      let both =
        submit_task_answer later t b s' s'' f
        ∙ ap chosen same
        ∙ sym (submit_task_answer now t a s s' e) in
      (ap (λ x. x.0) both, ap (λ x. x.1) both)
