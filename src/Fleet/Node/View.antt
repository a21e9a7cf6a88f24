-- ===== src/Fleet/Node/View.antt =====
-- What the node knows of the robots: fleet_server_node.cpp of src/fms_fleet_server.
use warehouse_fleet_manageme.Common.{
  ℕ, zero, suc, ◌-◌, String, ◌≡◌, refl, ◌==ₛ◌, ==ₛ_iff, Option, none, some, List, [], ◌∷◌, ◌++◌,
  All, length, length-append, arith, if◌then◌else◌,
}
use Prim.Native.String.{◌++◌ as ◌++ₛ◌}
use warehouse_fleet_manageme.Common.TextMaps.{
  TextMap, find, assign, IsSorted, find-assign, assign-IsSorted,
}
use warehouse_fleet_manageme.Float.{Double}
use warehouse_fleet_manageme.Messages.{RobotStatus}
use warehouse_fleet_manageme.Fleet.Effect.{Result, returned, threw, M, continue}
use warehouse_fleet_manageme.Fleet.Store.{Mongo, upsert_robot, insert_telemetry}
use warehouse_fleet_manageme.Fleet.Node.{
  FleetServer, robot_name, on_store, add_robots, robot_status_cb,
}
use warehouse_fleet_manageme.Fleet.Node.Submit.{IsTracked}

module _ {A : Type 0} where
  abbrev pub get_elem? : List A → ℕ → Option A
  get_elem? [] n = none
  get_elem? (x ∷ xs) zero = some x
  get_elem? (x ∷ xs) (suc n) = get_elem? xs n

  get_elem?-old :
      (xs ys : List A) (n : ℕ) (x : A) → get_elem? xs n ≡ some x → get_elem? (xs ++ ys) n ≡ some x
  get_elem?-old [] ys n x e = cc
  get_elem?-old (y ∷ xs) ys zero x e = e
  get_elem?-old (y ∷ xs) ys (suc n) x e = get_elem?-old xs ys n x e

  get_elem?-new : (xs : List A) (x : A) → get_elem? (xs ++ (x ∷ [])) (length xs) ≡ some x
  get_elem?-new [] x = refl
  get_elem?-new (y ∷ xs) x = get_elem?-new xs x

module _ {D DB Q : Type 0} where
  -- A robot that has a publisher has it on its own topic, and its service is its own.
  abbrev pub IsWired : FleetServer D DB Q → Type 0
  IsWired s =
      (id : String) (i : ℕ)
      → find id s.robot_index ≡ some i
      → (get_elem? s.assignment_topics i ≡ some ("/" ++ₛ (id ++ₛ "/task_assignment")))
        × (find id s.fault_clients ≡ some ("/" ++ₛ (id ++ₛ "/inject_fault")))

  wired_robot :
      (name : String) (s : FleetServer D DB Q)
      → IsWired s
      → (i : ℕ) → i ≡ suc (length s.assignment_topics)
      → (id : String) (j : ℕ) → find id (assign name (i - 1) s.robot_index) ≡ some j
      → (get_elem? (s.assignment_topics ++ (("/" ++ₛ (name ++ₛ "/task_assignment")) ∷ [])) j
          ≡ some ("/" ++ₛ (id ++ₛ "/task_assignment")))
        × (find id (assign name ("/" ++ₛ (name ++ₛ "/inject_fault")) s.fault_clients)
            ≡ some ("/" ++ₛ (id ++ₛ "/inject_fault")))
  wired_robot name s w i e id j h = ground (
    arith,
    ==ₛ_iff id name,
    find-assign name id (i - 1) s.robot_index,
    find-assign name id ("/" ++ₛ (name ++ₛ "/inject_fault")) s.fault_clients,
    w id j,
    get_elem?-old s.assignment_topics (("/" ++ₛ (name ++ₛ "/task_assignment")) ∷ []) j
        ("/" ++ₛ (id ++ₛ "/task_assignment")),
    get_elem?-new s.assignment_topics ("/" ++ₛ (name ++ₛ "/task_assignment")),
  )

  -- If each robot that has a publisher has it on its own topic, and its own service, this holds
  -- after the loop of the constructor too, where the loop starts at one more than the number of
  -- the publishers.
  pub add_robots-IsWired :
      (left i : ℕ) (s : FleetServer D DB Q)
      → i ≡ suc (length s.assignment_topics)
      → IsWired s
      → IsWired (add_robots i left s)
  unfolding add_robots
  add_robots-IsWired zero i s e w = w
  add_robots-IsWired (suc left) i s e w =
      add_robots-IsWired left (suc i) _
        (ground (
          arith,
          length-append s.assignment_topics (("/" ++ₛ (robot_name i ++ₛ "/task_assignment")) ∷ []),
        ))
        (λ id j h. wired_robot (robot_name i) s w i e id j h)

module _ {V : Type 0} where
  pub All-assign :
      (P : String × V → Type 0) (k : String) (v : V) (m : TextMap V)
      → P (k, v)
      → All P m
      → All P (assign k v m)
  unfolding assign
  All-assign P k v [] p a = (p, tt)
  All-assign P k v ((j, w) ∷ m) p a = ground (arith, All-assign P k v m p a.1)

module _ {D DB Q : Type 0} where
  -- Two steps on the database, the second only where the first returns, change nothing else.
  stored_twice :
      (second : M DB (Unit {0})) (r : Result (Unit {0})) (db : DB) (s : FleetServer D DB Q)
      → (db' : DB) × ((continue (r, record s { db = db }) (λ _. on_store second)).1
          ≡ record s { db = db' })
  stored_twice second (returned _) db s = ((second db).1, refl)
  stored_twice second threw db s = (db, refl)

module _ {D DB Q : Type 0} ⦃d : Double D⦄ (mongo : Mongo D DB) where
  abbrev pub remembered : RobotStatus D → FleetServer D DB Q → FleetServer D DB Q
  remembered msg s = record s { latest_status = assign msg.robot_id msg s.latest_status }

  pub robot_status_cb_lem :
      (msg : RobotStatus D) (s : FleetServer D DB Q)
      → (db' : DB) × ((robot_status_cb mongo msg s).1 ≡ record (remembered msg s) { db = db' })
  unfolding robot_status_cb
  robot_status_cb_lem msg s =
      stored_twice (insert_telemetry mongo msg) (upsert_robot mongo msg s.db).0
        (upsert_robot mongo msg s.db).1 (remembered msg s)

  -- Where the map of the robots is sorted, a status is remembered under its robot and the other
  -- robots are as they were, whether or not the database takes it; the map stays sorted, and no
  -- task goes out.
  robot_status_cb_remembers :
      (msg : RobotStatus D) (s : FleetServer D DB Q) (id : String)
      → IsSorted s.latest_status
      → let s' = (robot_status_cb mongo msg s).1 in
        (find id s'.latest_status
          ≡ (if id ==ₛ msg.robot_id then some msg else find id s.latest_status))
        × IsSorted s'.latest_status
        × (s'.published ≡ s.published)
  robot_status_cb_remembers msg s id h =
      let (db', e) = robot_status_cb_lem msg s in
      rw e (
        find-assign msg.robot_id id msg s.latest_status,
        assign-IsSorted msg.robot_id msg s.latest_status h,
        refl,
      )

  -- Where the robot of a status has a publisher, each robot that sent one still has a publisher.
  robot_status_cb-IsTracked :
      (msg : RobotStatus D) (s : FleetServer D DB Q) (i : ℕ)
      → find msg.robot_id s.robot_index ≡ some i
      → IsTracked s
      → IsTracked (robot_status_cb mongo msg s).1
  robot_status_cb-IsTracked msg s i f t =
      let (db', e) = robot_status_cb_lem msg s in
      rw e (
        All-assign (λ e. (j : ℕ) × (find e.0 s.robot_index ≡ some j)) msg.robot_id msg
          s.latest_status (i, f) t)
