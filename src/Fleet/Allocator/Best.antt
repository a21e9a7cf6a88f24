-- ===== src/Fleet/Allocator/Best.antt =====
-- The robot that is chosen is the best: task_allocator.cpp of src/fms_fleet_server.
use warehouse_fleet_manageme.Common.{
  String, ==ₛ_iff, ◌≡◌, ◌≢◌, ◌↔◌, ◌⊎◌, inl, inr, refl, sym, ap, subst, All-middle, true, false,
  none, some, [], ◌∷◌, ◌++◌, All, arith, Bool-cases,
}
use warehouse_fleet_manageme.Common.TextMaps.{TextMap}
use warehouse_fleet_manageme.Float.{Double, IsIeee, IsNumber}
use warehouse_fleet_manageme.Float.Order.{lt_of_not_lt, lt_trans}
use warehouse_fleet_manageme.Messages.{RobotStatus, TaskAssignment, state_idle}
use warehouse_fleet_manageme.Fleet.Allocator.{score, improves, scan, select_best_robot}

module _ {D : Type 0} ⦃d : Double D⦄ (request : TaskAssignment D) (soc_weight : D) where
  abbrev pub points : RobotStatus D → D
  points = score request soc_weight

  -- The robot is not IDLE, or its score is not under the bound.
  abbrev pub IsNoBetter : D → String × RobotStatus D → Type 0
  IsNoBetter bound e = e.1.state ≡ state_idle → d.lt (points e.1) bound ≡ false

  -- The robot is not IDLE, its score is NaN, or the bound is under its score.
  abbrev pub IsWorse : D → String × RobotStatus D → Type 0
  IsWorse bound e = e.1.state ≡ state_idle → IsNumber (points e.1) → d.lt bound (points e.1) ≡ true

  -- The map has an IDLE robot of this id and this score. Each robot before it scores worse, and no
  -- robot after it scores better.
  abbrev pub IsBest : TextMap (RobotStatus D) → String → D → Type 0
  IsBest robots robot_id best =
      (front : TextMap (RobotStatus D)) × (status : RobotStatus D) × (back : TextMap
        (RobotStatus D))
      × (robots ≡ front ++ ((robot_id, status) ∷ back))
      × (status.state ≡ state_idle)
      × (best ≡ points status)
      × All (IsWorse best) front
      × All (IsNoBetter best) back

  scan_better :
      (j : String) (st : RobotStatus D) (robots : TextMap (RobotStatus D)) (id : String) (bound : D)
      → improves request soc_weight st bound ≡ true
      → scan request soc_weight ((j, st) ∷ robots) id bound
        ≡ scan request soc_weight robots j (points st)
  unfolding scan
  scan_better j st robots id bound h = rw h

  scan_same :
      (j : String) (st : RobotStatus D) (robots : TextMap (RobotStatus D)) (id : String) (bound : D)
      → improves request soc_weight st bound ≡ false
      → scan request soc_weight ((j, st) ∷ robots) id bound
        ≡ scan request soc_weight robots id bound
  unfolding scan
  scan_same j st robots id bound h = rw h

  select_some :
      (robots : TextMap (RobotStatus D)) (id : String) (best : D)
      → select_best_robot robots request soc_weight ≡ some (id, best)
      → (scan request soc_weight robots "" d.max ≡ (id, best)) × (id ≢ "")
  unfolding select_best_robot
  select_some robots id best h =
      ground (arith, ==ₛ_iff (scan request soc_weight robots "" d.max).0 "")

  select_none :
      (robots : TextMap (RobotStatus D))
      → select_best_robot robots request soc_weight ≡ none
      → (scan request soc_weight robots "" d.max).0 ≡ ""
  unfolding select_best_robot
  select_none robots h = ground (arith, ==ₛ_iff (scan request soc_weight robots "" d.max).0 "")

  none_of_scan :
      (robots : TextMap (RobotStatus D))
      → (scan request soc_weight robots "" d.max).0 ≡ ""
      → select_best_robot robots request soc_weight ≡ none
  unfolding select_best_robot
  none_of_scan robots h = ground (arith, ==ₛ_iff (scan request soc_weight robots "" d.max).0 "")

  best_named :
      (robots : TextMap (RobotStatus D)) (id : String) (best : D)
      → All (λ e. e.0 ≢ "") robots
      → IsBest robots id best
      → id ≢ ""
  best_named robots id best named (front, st, back, e, _, _, _, _) =
      All-middle (λ e. e.0 ≢ "") front back (subst (All (λ e. e.0 ≢ "")) e named)

  best_not_beaten :
      (robots : TextMap (RobotStatus D)) (id : String) (best bound : D)
      → IsBest robots id best
      → d.lt best bound ≡ true
      → ¬ All (IsNoBetter bound) robots
  best_not_beaten robots id best bound (front, st, back, e, idle, p, _, _) lt all =
      let no : d.lt (points st) bound ≡ false =
        All-middle (IsNoBetter bound) front back (subst (All (IsNoBetter bound)) e all) idle in
      cc (ap (λ x. d.lt x bound) p)

  module _ (laws : IsIeee D) where
    abbrev Outcome : TextMap (RobotStatus D) → String → D → String × D → Type 0
    Outcome robots id bound r =
        ((r ≡ (id, bound)) × All (IsNoBetter bound) robots)
        ⊎ (IsBest robots r.0 r.1 × (d.lt r.1 bound ≡ true))

    skip_robot :
        (j : String) (st : RobotStatus D) (robots : TextMap (RobotStatus D)) (id : String)
        (bound : D) (r : String × D)
        → IsNoBetter bound (j, st)
        → Outcome robots id bound r
        → Outcome ((j, st) ∷ robots) id bound r
    skip_robot j st robots id bound r h (inl (e, all)) = inl (e, (h, all))
    skip_robot j st robots id bound r h
          (inr ((front, best, back, e, idle, points, worse, rest), lt)) =
        inr (
          (
            (j, st) ∷ front,
            best,
            back,
            ap (◌∷◌ (j, st)) e,
            idle,
            points,
            (λ i n. lt_of_not_lt laws _ _ _ n lt (h i), worse),
            rest,
          ),
          lt,
        )

    take_robot :
        (j : String) (st : RobotStatus D) (robots : TextMap (RobotStatus D)) (id : String)
        (bound : D) (r : String × D)
        → st.state ≡ state_idle
        → d.lt (points st) bound ≡ true
        → Outcome robots j (points st) r
        → Outcome ((j, st) ∷ robots) id bound r
    take_robot j st robots id bound r idle lt (inl (e, all)) =
        rw e (inr (([], st, robots, refl, idle, refl, tt, all), lt))
    take_robot j st robots id bound r idle lt
          (inr ((front, best, back, e, i, p, worse, rest), lower)) =
        inr (
          ((j, st) ∷ front, best, back, ap (◌∷◌ (j, st)) e, i, p, ((λ _ _. lower), worse), rest),
          lt_trans laws _ _ _ lower lt,
        )

    improves-true :
        (st : RobotStatus D) (bound : D)
        → improves request soc_weight st bound ≡ true
        → (st.state ≡ state_idle) × (d.lt (points st) bound ≡ true)
    unfolding improves
    improves-true st bound h = ground arith

    improves-false :
        (id : String) (st : RobotStatus D) (bound : D)
        → improves request soc_weight st bound ≡ false
        → IsNoBetter bound (id, st)
    unfolding improves
    improves-false id st bound h i = ground arith

    scan-Outcome :
        (robots : TextMap (RobotStatus D)) (id : String) (bound : D)
        → Outcome robots id bound (scan request soc_weight robots id bound)
    scan-Outcome [] id bound = inl (unfold scan in refl, tt)
    scan-Outcome ((j, st) ∷ robots) id bound =
        elim (Bool-cases (improves request soc_weight st bound)) [
          | inl e ↦
              let (idle, lt) = improves-true st bound e in
              subst (Outcome ((j, st) ∷ robots) id bound) (sym (scan_better j st robots id bound e))
                (take_robot j st robots id bound _ idle lt (scan-Outcome robots j (points st)))
          | inr e ↦
              subst (Outcome ((j, st) ∷ robots) id bound) (sym (scan_same j st robots id bound e)) (
                skip_robot j st robots id bound _ (improves-false j st bound e)
                  (scan-Outcome robots id bound))
        ]

    -- The robot that is chosen is IDLE and in the map, its score is the one given, no IDLE robot
    -- scores less, and each IDLE robot before it in the map, unless its score is NaN, scores more.
    pub select_best_robot-IsBest :
        (robots : TextMap (RobotStatus D)) (id : String) (best : D)
        → select_best_robot robots request soc_weight ≡ some (id, best)
        → IsBest robots id best
    select_best_robot-IsBest robots id best h = chosen (scan-Outcome robots "" d.max)
      where
        found : (scan request soc_weight robots "" d.max ≡ (id, best)) × (id ≢ "")
        found = select_some robots id best h

        chosen :
            Outcome robots "" d.max (scan request soc_weight robots "" d.max)
            → IsBest robots id best
        chosen (inl (e, all)) = absurd (found.1 (cc (e, found.0)))
        chosen (inr (b, lt)) = subst (λ r. IsBest robots r.0 r.1) found.0 b

    -- Where no robot has the empty id, no robot is chosen exactly if no robot is IDLE with a score
    -- under the greatest `double`.
    pub select_best_robot-eq-none_iff :
        (robots : TextMap (RobotStatus D))
        → All (λ e. e.0 ≢ "") robots
        → (select_best_robot robots request soc_weight ≡ none) ↔ All (IsNoBetter d.max) robots
    select_best_robot-eq-none_iff robots named = (
      λ h. elim (scan-Outcome robots "" d.max) [
        | inl (e, all) ↦ all
        | inr (b, lt) ↦ absurd (best_named robots _ _ named b (select_none robots h))
      ],
      λ all. elim (scan-Outcome robots "" d.max) [
        | inl (e, _) ↦ none_of_scan robots (ap (λ r. r.0) e)
        | inr (b, lt) ↦ absurd (best_not_beaten robots _ _ d.max b lt all)
      ],
    )
