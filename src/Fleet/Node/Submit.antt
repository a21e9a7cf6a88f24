-- ===== src/Fleet/Node/Submit.antt =====
-- What a submitted task leads to: fleet_server_node.cpp of src/fms_fleet_server.
use warehouse_fleet_manageme.Common.{
  ℕ, String, ◌≡◌, refl, subst, true, false, none, some, ◌∷◌, ◌++◌, All, All-middle, Option-cases,
  ◌⊎◌, inl, inr,
}
use warehouse_fleet_manageme.Common.TextMaps.{TextMap, find}
use warehouse_fleet_manageme.Float.{Double, IsIeee}
use warehouse_fleet_manageme.Messages.{RobotStatus, TaskAssignment}
use warehouse_fleet_manageme.Fleet.Effect.{returned}
use warehouse_fleet_manageme.Fleet.Allocator.{select_best_robot}
use warehouse_fleet_manageme.Fleet.Allocator.Best.{IsBest, select_best_robot-IsBest}
use warehouse_fleet_manageme.Fleet.Store.{Mongo, insert_task}
use warehouse_fleet_manageme.Fleet.Node.{
  FleetServer, SubmitResult, Times, select_robot, stamp_assignment, dispatch_assignment,
  submit_task,
}

module _ {D DB Q : Type 0} where
  -- Every robot that sent a status has a publisher.
  abbrev pub IsTracked : FleetServer D DB Q → Type 0
  IsTracked s = All (λ e. (i : ℕ) × (find e.0 s.robot_index ≡ some i)) s.latest_status

  tracked_best :
      (s : FleetServer D DB Q) (front back : TextMap (RobotStatus D)) (id : String)
      (st : RobotStatus D)
      → IsTracked s
      → s.latest_status ≡ front ++ ((id, st) ∷ back)
      → (i : ℕ) × (find id s.robot_index ≡ some i)
  tracked_best s front back id st t e =
      All-middle (λ e. (i : ℕ) × (find e.0 s.robot_index ≡ some i)) front back
        (subst (All (λ e. (i : ℕ) × (find e.0 s.robot_index ≡ some i))) e t)

module _ {D : Type 0} where
  -- The task that goes out to a robot.
  abbrev pub outgoing : Times → TaskAssignment D → String → TaskAssignment D
  outgoing now request robot_id = stamp_assignment now (record request { robot_id = robot_id })

-- The answer to a task that no robot can take.
abbrev pub refused : SubmitResult
refused = record {
  accepted = false;
  task_id = "";
  robot_id = "";
  message = "No IDLE robot available";
}

module _ {D DB : Type 0} (mongo : Mongo D DB) where
  -- The database takes the task, whichever robot it goes to.
  abbrev pub Takes : Times → TaskAssignment D → DB → Type 0
  Takes now request db =
      (id : String)
      → (db' : DB) × (insert_task mongo (outgoing now request id) db ≡ (returned tt, db'))

module _ {D DB Q : Type 0} ⦃d : Double D⦄ (mongo : Mongo D DB) where
  pub dispatch_lem :
      (now : Times) (task : TaskAssignment D) (s : FleetServer D DB Q) (i : ℕ) (db' : DB)
      → find task.robot_id s.robot_index ≡ some i
      → insert_task mongo (stamp_assignment now task) s.db ≡ (returned tt, db')
      → dispatch_assignment mongo now task s ≡ (
        returned (stamp_assignment now task),
        record s { published = (i, stamp_assignment now task) ∷ s.published; db = db' },
      )
  unfolding dispatch_assignment stamp_assignment
  dispatch_lem now task s i db' e f = rw (e, f)

  -- Without a robot to choose the task is refused, and nothing changes.
  submit_refused :
      (now : Times) (request : TaskAssignment D) (s : FleetServer D DB Q)
      → select_best_robot s.latest_status request s.soc_weight ≡ none
      → submit_task mongo now request s ≡ (returned refused, s)
  unfolding submit_task select_robot
  submit_refused now request s e = rw e

  submit_accepted :
      (now : Times) (request : TaskAssignment D) (s : FleetServer D DB Q) (id : String) (best : D)
      (i : ℕ) (db' : DB)
      → select_best_robot s.latest_status request s.soc_weight ≡ some (id, best)
      → find id s.robot_index ≡ some i
      → insert_task mongo (outgoing now request id) s.db ≡ (returned tt, db')
      → submit_task mongo now request s ≡ (
        returned (record {
          accepted = true;
          task_id = (outgoing now request id).task_id;
          robot_id = id;
          message = "Assigned";
        }),
        record s { published = (i, outgoing now request id) ∷ s.published; db = db' },
      )
  unfolding submit_task select_robot
  submit_accepted now request s id best i db' e f g =
      rw (e, dispatch_lem now (record request { robot_id = id }) s i db' f g)

  -- The task went to the best robot: to its publisher, and to the database.
  abbrev pub IsAssigned :
      Times → TaskAssignment D → FleetServer D DB Q → String → FleetServer D DB Q → Type 0
  IsAssigned now request s id s' =
      (best : D) × (i : ℕ) × (db' : DB) × IsBest request s.soc_weight s.latest_status id best
      × (find id s.robot_index ≡ some i)
      × (insert_task mongo (outgoing now request id) s.db ≡ (returned tt, db'))
      × (s' ≡ record s { published = (i, outgoing now request id) ∷ s.published; db = db' })

  -- The task is refused where no robot can be chosen, and nothing changes; or it is assigned, and
  -- the answer has its robot and its id.
  abbrev pub IsAnswered : Times → TaskAssignment D → FleetServer D DB Q → Type 0
  IsAnswered now request s =
      ((select_best_robot s.latest_status request s.soc_weight ≡ none)
        × (submit_task mongo now request s ≡ (returned refused, s)))
      ⊎ ((id : String) × (s' : FleetServer D DB Q) × IsAssigned now request s id s'
          × (submit_task mongo now request s ≡ (
            returned (record {
              accepted = true;
              task_id = (outgoing now request id).task_id;
              robot_id = id;
              message = "Assigned";
            }),
            s',
          )))

  module _ (laws : IsIeee D) where
    pub best_tracked :
        (request : TaskAssignment D) (s : FleetServer D DB Q) (id : String) (best : D)
        → IsTracked s
        → select_best_robot s.latest_status request s.soc_weight ≡ some (id, best)
        → (i : ℕ) × (find id s.robot_index ≡ some i)
    best_tracked request s id best t e =
        let (front, st, back, split, _, _, _, _) =
          select_best_robot-IsBest request s.soc_weight laws s.latest_status id best e in
        tracked_best s front back id st t split

    -- Where each robot that sent a status has a publisher and the database takes the task, a
    -- submitted task is either refused, which changes nothing and happens where no robot can be
    -- chosen, or accepted: the robot that is answered is the best one, and the task goes out to it
    -- and to the database under the id that is answered.
    pub submit_task_assigns :
        (now : Times) (request : TaskAssignment D) (s : FleetServer D DB Q)
        → IsTracked s
        → Takes mongo now request s.db
        → IsAnswered now request s
    submit_task_assigns now request s t takes =
        elim (Option-cases (select_best_robot s.latest_status request s.soc_weight)) [
          | inl e ↦ inl (e, submit_refused now request s e)
          | inr ((id, best), e) ↦
              let (i, f) = best_tracked request s id best t e in
              let (db', g) = takes id in
              inr (
                id,
                record s { published = (i, outgoing now request id) ∷ s.published; db = db' },
                (
                  best,
                  i,
                  db',
                  select_best_robot-IsBest request s.soc_weight laws s.latest_status id best e,
                  f,
                  g,
                  refl,
                ),
                submit_accepted now request s id best i db' e f g,
              )
        ]
