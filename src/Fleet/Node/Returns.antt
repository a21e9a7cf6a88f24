-- ===== src/Fleet/Node/Returns.antt =====
-- What a call of the node did, where it returned: fleet_server_node.cpp of src/fms_fleet_server.
use warehouse_fleet_manageme.Common.{
  ℕ, ◌∷◌, String, ◌≡◌, refl, sym, ap, ◌∙◌, Bool, true, false, Option, none, some, inl, inr,
  if◌then◌else◌,
}
use warehouse_fleet_manageme.Common.TextMaps.{find}
use warehouse_fleet_manageme.Float.{Double}
use warehouse_fleet_manageme.Messages.{TaskAssignment}
use warehouse_fleet_manageme.Fleet.Effect.{Result, returned, threw, M, pure, continue, ◌>>=◌}
use warehouse_fleet_manageme.Fleet.Store.{Mongo, insert_task}
use warehouse_fleet_manageme.Fleet.Node.{
  FleetServer, Times, on_store, on_broker, stamp_assignment, dispatch_assignment, submit_to,
  index_at, publish_assignment, SubmitResult,
}
use warehouse_fleet_manageme.Fleet.Node.Entry.{outcomes}

module _ {D DB Q : Type 0} where
  pub returned_twice :
      (second : M DB (Unit {0})) (r : Result (Unit {0})) (db : DB) (s s' : FleetServer D DB Q)
      → continue (r, record s { db = db }) (λ _. on_store second) ≡ (returned tt, s')
      → (db' : DB) × (r ≡ returned tt)
        × (second db ≡ (returned tt, db'))
        × (s' ≡ record s { db = db' })
  returned_twice second (returned _) db s s' e =
      ((second db).1, refl, ap (λ r. (r, (second db).1)) (ap (λ x. x.0) e), sym (ap (λ x. x.1) e))
  returned_twice second threw db s s' e = cc

  pub reported_returned :
      (failed : Bool) (report : M Q (Unit {0})) (r : Result (Unit {0})) (db : DB)
      (s s' : FleetServer D DB Q)
      → continue (r, record s { db = db }) (λ _. if failed then on_broker report else pure tt)
        ≡ (returned tt, s')
      → (r ≡ returned tt) × (s'.db ≡ db) × (s'.latest_status ≡ s.latest_status)
  reported_returned true report (returned _) db s s' e =
      (refl, sym (ap (λ x. x.1.db) e), sym (ap (λ x. x.1.latest_status) e))
  reported_returned false report (returned _) db s s' e =
      (refl, sym (ap (λ x. x.1.db) e), sym (ap (λ x. x.1.latest_status) e))
  reported_returned failed report threw db s s' e = cc

  stored_returned :
      (t a : TaskAssignment D) (r : Result (Unit {0})) (db : DB) (s s' : FleetServer D DB Q)
      → (on_store (λ _. (r, db)) >>= (λ _. pure t)) s ≡ (returned a, s')
      → (r ≡ returned tt) × (s'.db ≡ db) × (s'.latest_status ≡ s.latest_status)
  stored_returned t a (returned _) db s s' e =
      (refl, sym (ap (λ x. x.1.db) e), sym (ap (λ x. x.1.latest_status) e))
  stored_returned t a threw db s s' e = cc

  indexed_returned :
      (t a : TaskAssignment D) (o : Option ℕ) (m : M DB (Unit {0})) (s s' : FleetServer D DB Q)
      → (index_at o >>= λ i. publish_assignment i t >>= λ _. on_store m >>= λ _. pure t) s
        ≡ (returned a, s')
      → ((m s.db).0 ≡ returned tt) × (s'.db ≡ (m s.db).1) × (s'.latest_status ≡ s.latest_status)
  indexed_returned t a (some i) m s s' e =
      stored_returned t a (m s.db).0 (m s.db).1 (record s { published = (i, t) ∷ s.published }) s' e
  indexed_returned t a none m s s' e = cc

module _ {D DB Q : Type 0} ⦃d : Double D⦄ (mongo : Mongo D DB) where
  pub dispatch_returned :
      (now : Times) (t a : TaskAssignment D) (s s' : FleetServer D DB Q)
      → dispatch_assignment mongo now t s ≡ (returned a, s')
      → (db' : DB) × (insert_task mongo (stamp_assignment now t) s.db ≡ (returned tt, db'))
        × (s'.db ≡ db')
        × (s'.latest_status ≡ s.latest_status)
  unfolding dispatch_assignment stamp_assignment
  dispatch_returned now t a s s' e =
      let (f, g, h) =
        indexed_returned (stamp_assignment now t) a (find t.robot_id s.robot_index)
          (insert_task mongo (stamp_assignment now t)) s s' e in
      (
        (insert_task mongo (stamp_assignment now t) s.db).1,
        ap (λ r. (r, (insert_task mongo (stamp_assignment now t) s.db).1)) f,
        g,
        h,
      )

  pub submitted_returned :
      (now : Times) (t : TaskAssignment D) (id : String) (best : D) (a : SubmitResult)
      (s s' : FleetServer D DB Q)
      → submit_to mongo now t (some (id, best)) s ≡ (returned a, s')
      → (t' : TaskAssignment D) × (dispatch_assignment mongo now (record t { robot_id = id }) s
          ≡ (returned t', s'))
  submitted_returned now t id best a s s' e =
      elim (outcomes (dispatch_assignment mongo now (record t { robot_id = id }) s)) [
        | inl (t', s'', f) ↦ (t', f ∙ ap (λ x. (returned t', x)) (ap (λ x. x.1) (rw f at e)))
        | inr (s'', f) ↦ cc
      ]
