-- ===== src/Robot/Tree/Course.antt =====
-- The course of a task through the tree: bt_xml/robot_agent.xml of src/fms_robot_agent.
use warehouse_fleet_manageme.Common.{
  ℕ, zero, suc, ◌<◌, ◌≡◌, refl, ap, ◌∙◌, ◌⊎◌, inl, inr, [], ◌∷◌, ◌++◌, arith,
}
use warehouse_fleet_manageme.Robot.Nodes.Status.{NodeStatus, success, failure}
use warehouse_fleet_manageme.Robot.System.{
  Leg, pick, drop, Leaf, battery_ok, request, charge, report, nav, recovery, execute, to_charger,
  to_leg,
}
use warehouse_fleet_manageme.Robot.Tree.{
  Tree, leaf, inverter, sequence, fallback, Children, no_child, child, charge_when_low, nav_retry,
  task_execution, History, IsEngine,
}

-- A number of drives that failed, each with a recovery that failed.
abbrev pub tries : Leg → ℕ → History
tries l zero = []
tries l (suc k) = (nav (to_leg l), failure) ∷ (recovery l, failure) ∷ tries l k

-- The leg ended by an arrival, by a recovery, or when no attempt was left.
abbrev pub HasArrived : ℕ → Leg → History → NodeStatus → Type 0
HasArrived n l h r =
    (k : ℕ) × (k < n) × (h ≡ tries l k ++ ((nav (to_leg l), success) ∷ [])) × (r ≡ success)

abbrev pub HasRecovered : ℕ → Leg → History → NodeStatus → Type 0
HasRecovered n l h r =
    (k : ℕ) × (k < n)
    × (h ≡ tries l k ++ ((nav (to_leg l), failure) ∷ (recovery l, success) ∷ []))
    × (r ≡ success)

abbrev pub HasGivenUp : ℕ → Leg → History → NodeStatus → Type 0
HasGivenUp n l h r = (h ≡ tries l n) × (r ≡ failure)

-- A leg that succeeded: the robot arrived, or it recovered.
abbrev pub IsDone : Leg → History → Type 0
IsDone l h = HasArrived 3 l h success ⊎ HasRecovered 3 l h success

-- A failed attempt before the rest of the leg.
abbrev failed : Leg → History → History
failed l h = (nav (to_leg l), failure) ∷ (recovery l, failure) ∷ h

module _ (Ends : Tree → History → NodeStatus → Type 0) (engine : IsEngine Ends) where
  -- One attempt of a leg.
  attempt_ends :
      (l : Leg) (h : History) (r : NodeStatus)
      → Ends (fallback (child (leaf (nav (to_leg l))) (child (leaf (recovery l)) no_child))) h r
      → ((h ≡ (nav (to_leg l), success) ∷ []) × (r ≡ success))
        ⊎ (((h ≡ (nav (to_leg l), failure) ∷ (recovery l, success) ∷ []) × (r ≡ success))
            ⊎ ((h ≡ (nav (to_leg l), failure) ∷ (recovery l, failure) ∷ []) × (r ≡ failure)))
  attempt_ends l h r e = elim (engine.fallback_child _ _ h r e) [
    | inl (f, q) ↦ inl (engine.leaf_ends _ _ _ f, q)
    | inr (h1, h2, f, g, p) ↦ elim (engine.fallback_child _ _ h2 r g) [
      | inl (f', q) ↦
          inr (inl (rw (p, engine.leaf_ends _ _ _ f, engine.leaf_ends _ _ _ f') refl, q))
      | inr (h3, h4, f', g', p') ↦
          let (over, q) = engine.fallback_empty h4 r g' in
          inr (inr (rw (p, p', engine.leaf_ends _ _ _ f, engine.leaf_ends _ _ _ f', over) refl, q))
    ]
  ]

  attempt_failed :
      (l : Leg) (h : History)
      → Ends
          (fallback (child (leaf (nav (to_leg l))) (child (leaf (recovery l)) no_child)))
          h
          failure
      → h ≡ failed l []
  attempt_failed l h e = elim (attempt_ends l h failure e) [
    | inl (_, w) ↦ cc
    | inr (inl (_, w)) ↦ cc
    | inr (inr (p, _)) ↦ p
  ]

  -- Under an engine that meets its laws, a leg of `n` attempts ends in one of three ways. The robot
  -- arrives, after less than `n` failed attempts; or a drive fails and its recovery succeeds, which
  -- ends the leg with success and no further drive; or `n` drives and `n` recoveries fail, and the
  -- leg fails.
  pub leg_outcome :
      (n : ℕ) (l : Leg) (h : History) (r : NodeStatus)
      → Ends (nav_retry n l) h r
      → HasArrived n l h r ⊎ (HasRecovered n l h r ⊎ HasGivenUp n l h r)
  leg_outcome zero l h r e = inr (inr (engine.retry_over _ h r e))
  leg_outcome (suc n) l h r e = elim (engine.retry_again n _ h r e) [
    | inl (f, q) ↦ elim (attempt_ends l h success f) [
      | inl (p, _) ↦ inl (0, omega arith, p, q)
      | inr (inl (p, _)) ↦ inr (inl (0, omega arith, p, q))
      | inr (inr (_, w)) ↦ cc
    ]
    | inr (h1, h2, f, g, p) ↦
        let first : h1 ≡ failed l [] = attempt_failed l h1 f in
        elim (leg_outcome n l h2 r g) [
          | inl (k, b, p', q) ↦ inl (suc k, omega arith, rw (p, first, p') refl, q)
          | inr (inl (k, b, p', q)) ↦ inr (inl (suc k, omega arith, rw (p, first, p') refl, q))
          | inr (inr (p', q)) ↦ inr (inr (rw (p, first, p') refl, q))
        ]
  ]

  -- The children of a sequence that succeeds.
  sequence_succeeds :
      (t : Tree) (ts : Children) (h : History)
      → Ends (sequence (child t ts)) h success
      → (h1 h2 : History) × Ends t h1 success × Ends (sequence ts) h2 success × (h ≡ h1 ++ h2)
  sequence_succeeds t ts h e = elim (engine.sequence_child t ts h success e) [
    | inl (_, w) ↦ cc
    | inr x ↦ x
  ]

  leaf_succeeds :
      (l : Leaf) (ts : Children) (h : History)
      → Ends (sequence (child (leaf l) ts)) h success
      → (rest : History) × Ends (sequence ts) rest success × (h ≡ (l, success) ∷ rest)
  leaf_succeeds l ts h e =
      let (h1, h2, f, g, p) = sequence_succeeds (leaf l) ts h e in
      (h2, g, p ∙ ap (λ x. x ++ h2) (engine.leaf_ends l h1 success f))

  pub leg_succeeds : (l : Leg) (h : History) → Ends (nav_retry 3 l) h success → IsDone l h
  leg_succeeds l h e = elim (leg_outcome 3 l h success e) [
    | inl x ↦ inl x
    | inr (inl x) ↦ inr x
    | inr (inr (_, w)) ↦ cc
  ]

  -- Under an engine that meets its laws, a task that the tree finishes was requested, driven to its
  -- pick, picked, driven to its drop, dropped and reported, in this order and with nothing else in
  -- between, where each of the two drives ended with an arrival or with a recovery.
  pub task_course :
      (h : History)
      → Ends task_execution h success
      → (to_pick to_drop : History) × IsDone pick to_pick
        × IsDone drop to_drop
        × (h
            ≡ ((request, success) ∷ to_pick)
              ++ (((execute pick, success) ∷ to_drop)
                  ++ ((execute drop, success) ∷ (report, success) ∷ [])))
  task_course h e =
      let (h1, e1, p1) = leaf_succeeds request _ h e in
      let (to_pick, h2, a, e2, p2) = sequence_succeeds (nav_retry 3 pick) _ h1 e1 in
      let (h3, e3, p3) = leaf_succeeds (execute pick) _ h2 e2 in
      let (to_drop, h4, b, e4, p4) = sequence_succeeds (nav_retry 3 drop) _ h3 e3 in
      let (h5, e5, p5) = leaf_succeeds (execute drop) _ h4 e4 in
      let (h6, e6, p6) = leaf_succeeds report _ h5 e5 in
      let (p7, _) = engine.sequence_empty h6 success e6 in
      (to_pick, to_drop, leg_succeeds pick to_pick a, leg_succeeds drop to_drop b, cc)

  -- Under an engine that meets its laws, where ChargeWhenLow succeeds the battery was low, and the robot
  -- drove to its charger, arrived and charged, in this order and with nothing else in between.
  pub charge_course :
      (h : History)
      → Ends charge_when_low h success
      → h ≡ (battery_ok, failure) ∷ (nav to_charger, success) ∷ (charge, success) ∷ []
  charge_course h e =
      let (h1, h2, f, g, p) = sequence_succeeds (inverter (leaf battery_ok)) _ h e in
      let (h3, g3, p3) = leaf_succeeds (nav to_charger) _ h2 g in
      let (h4, g4, p4) = leaf_succeeds charge _ h3 g3 in
      let (p5, _) = engine.sequence_empty h4 success g4 in
      let first : h1 ≡ (battery_ok, failure) ∷ [] =
        elim (engine.inverter_ends (leaf battery_ok) h1 success f) [
          | inl (_, w) ↦ cc
          | inr (q, _) ↦ engine.leaf_ends battery_ok h1 failure q
        ] in
      cc
