-- ===== src/Robot/Battery/Bounds.antt =====
-- The charge stays a percentage and moves in the right direction: battery_model.hpp of
-- src/fms_robot_agent.
use warehouse_fleet_manageme.Common.{◌≡◌, Bool, true, false, List, [], ◌∷◌, arith, All}
use warehouse_fleet_manageme.Float.{Double, IsIeee, ◌≼◌, nought, IsNumber, IsFinite}
use warehouse_fleet_manageme.Robot.Battery.{
  BatteryModel, Call, update, set_soc, hundred, low_threshold, clamp, new, drift, update_battery,
  is_low, is_full, call, run,
}

module _ {D : Type 0} ⦃d : Double D⦄ where
  -- The charge lies between 0 and 100 percent.
  pub record IsPercentage (b : BatteryModel D) : Type 0 where
    pub above : nought ≼ b.soc
    pub below : b.soc ≼ hundred

  -- The numbers that a call is given are not NaN.
  abbrev pub IsNumeric : Call D → Type 0
  IsNumeric (update dt is_moving is_charging) = IsNumber dt
  IsNumeric (set_soc v) = IsNumber v

  module _ (laws : IsIeee D) where
    open laws use {number_of_le, le_trans, le_total, lt-eq-not-le, decimal_mono, decimal_finite}
    open laws use {decimal_pos, add_number, sub_number, mul_number, le-add, sub-le, sub_anti}
    open laws use {mul_nonneg, mul_mono}

    nought-le-hundred : ◌≼◌ {D = D} nought hundred
    nought-le-hundred = decimal_mono 0 0 1000 1 (omega arith)

    pub IsPercentage-IsFinite : {b : BatteryModel D} → IsPercentage b → IsFinite b.soc
    IsPercentage-IsFinite p = (
      le_trans _ _ _ (decimal_finite 0 0 (omega arith)).0 p.above,
      le_trans _ _ _ p.below (decimal_finite 1000 1 (omega arith)).1,
    )

    -- A number that is clamped lands in the range, and stays where it is inside it.
    clamp_range :
        (v : D)
        → IsNumber v
        → (nought ≼ clamp v nought hundred) × (clamp v nought hundred ≼ hundred)
    unfolding clamp
    clamp_range v n =
        let (n0, n1) = number_of_le _ _ nought-le-hundred in
        ground (
          arith,
          nought-le-hundred,
          n0,
          n1,
          lt-eq-not-le v nought n n0,
          lt-eq-not-le hundred v n1 n,
          le_total v nought n n0,
          le_total hundred v n1 n,
        )

    drift-IsNumber :
        (b : BatteryModel D) (dt : D) (is_moving is_charging : Bool)
        → IsPercentage b
        → IsNumber dt
        → IsNumber (drift b dt is_moving is_charging)
    unfolding drift
    drift-IsNumber b dt is_moving true p n = add_number _ _ (IsPercentage-IsFinite p) (
        mul_number _ _ (decimal_finite 100 2 (omega arith))
          (decimal_pos 100 2 (omega arith) (omega arith)) n)
    drift-IsNumber b dt true false p n = sub_number _ _ (IsPercentage-IsFinite p) (
        mul_number _ _ (decimal_finite 10 2 (omega arith))
          (decimal_pos 10 2 (omega arith) (omega arith)) n)
    drift-IsNumber b dt false false p n = sub_number _ _ (IsPercentage-IsFinite p) (
        mul_number _ _ (decimal_finite 2 2 (omega arith))
          (decimal_pos 2 2 (omega arith) (omega arith)) n)

    new-IsPercentage : (v : D) → IsNumber v → IsPercentage (new v)
    unfolding new
    new-IsPercentage v n = let (lo, hi) = clamp_range v n in record { above = lo; below = hi }

    pub call-IsPercentage :
        (b : BatteryModel D) (c : Call D) → IsPercentage b → IsNumeric c → IsPercentage (call b c)
    unfolding call
    call-IsPercentage b (update dt is_moving is_charging) p n =
        let (lo, hi) = clamp_range _ (drift-IsNumber b dt is_moving is_charging p n) in
        record { above = lo; below = hi }
    call-IsPercentage b (set_soc v) p n =
        let (lo, hi) = clamp_range v n in record { above = lo; below = hi }

    run-IsPercentage :
        (b : BatteryModel D) (cs : List (Call D))
        → IsPercentage b
        → All IsNumeric cs
        → IsPercentage (run b cs)
    unfolding run
    run-IsPercentage b [] p n = p
    run-IsPercentage b (c ∷ cs) p n =
        run-IsPercentage (call b c) cs (call-IsPercentage b c p n.0) n.1

    -- A battery that is built with any number holds a charge between 0 and 100 percent after every
    -- sequence of calls whose arguments are not NaN.
    soc_bounded :
        (v : D) (cs : List (Call D))
        → IsNumber v
        → All IsNumeric cs
        → (nought ≼ (run (new v) cs).soc) × ((run (new v) cs).soc ≼ hundred)
    soc_bounded v cs n ns =
        let p = run-IsPercentage (new v) cs (new-IsPercentage v n) ns in (p.above, p.below)

    -- No battery is both low and full.
    low-full_exclusive : (b : BatteryModel D) → is_full b ≡ true → is_low b ≡ false
    unfolding is_full is_low
    low-full_exclusive b f =
        let above = le_trans _ _ _ (decimal_mono 200 1 950 1 (omega arith)) f in
        let (n20, ns) = number_of_le _ _ above in
        ground (arith, above, lt-eq-not-le b.soc low_threshold ns n20)

    -- Inside the range a clamped value is on the same side of a point of the range.
    le-clamp : (x v : D) → nought ≼ x → x ≼ hundred → x ≼ v → x ≼ clamp v nought hundred
    unfolding clamp
    le-clamp x v lo hi h =
        let (nx, nv) = number_of_le _ _ h in
        let (n0, n1) = number_of_le _ _ nought-le-hundred in
        ground (arith, le_trans nought x v lo h, lt-eq-not-le v nought nv n0)

    clamp-le : (x v : D) → nought ≼ x → x ≼ hundred → v ≼ x → clamp v nought hundred ≼ x
    unfolding clamp
    clamp-le x v lo hi h =
        let (nv, nx) = number_of_le _ _ h in
        let (n0, n1) = number_of_le _ _ nought-le-hundred in
        ground (arith, le_trans v x hundred h hi, lt-eq-not-le hundred v n1 nv)

    -- From a charge between 0 and 100 percent, and over a time that is not negative, a docked
    -- robot never loses charge, and any other robot never gains any.
    update_direction :
        (b : BatteryModel D) (dt : D) (is_moving : Bool)
        → IsPercentage b
        → nought ≼ dt
        → (b.soc ≼ (update_battery b dt is_moving true).soc)
          × ((update_battery b dt is_moving false).soc ≼ b.soc)
    unfolding update_battery drift
    update_direction b dt is_moving p t = (
      le-clamp b.soc _ p.above p.below (
          le-add _ _ (IsPercentage-IsFinite p) (
            mul_nonneg _ _ (decimal_finite 100 2 (omega arith))
              (decimal_pos 100 2 (omega arith) (omega arith)) t)),
      clamp-le b.soc _ p.above p.below (drained is_moving),
    )
      where
        drained : (m : Bool) → drift b dt m false ≼ b.soc
        drained true = sub-le _ _ (IsPercentage-IsFinite p) (
            mul_nonneg _ _ (decimal_finite 10 2 (omega arith))
              (decimal_pos 10 2 (omega arith) (omega arith)) t)
        drained false = sub-le _ _ (IsPercentage-IsFinite p) (
            mul_nonneg _ _ (decimal_finite 2 2 (omega arith))
              (decimal_pos 2 2 (omega arith) (omega arith)) t)

    -- Clamping keeps the order.
    clamp_mono : (u v : D) → u ≼ v → clamp u nought hundred ≼ clamp v nought hundred
    unfolding clamp
    clamp_mono u v h =
        let (nu, nv) = number_of_le _ _ h in
        let (n0, n1) = number_of_le _ _ nought-le-hundred in
        ground (
          arith,
          nought-le-hundred,
          n0,
          n1,
          lt-eq-not-le u nought nu n0,
          lt-eq-not-le v nought nv n0,
          lt-eq-not-le hundred u n1 nu,
          lt-eq-not-le hundred v n1 nv,
          le_total u nought nu n0,
          le_total v nought nv n0,
          le_total hundred u n1 nu,
          le_total hundred v n1 nv,
          le_trans hundred u v,
          le_trans nought hundred u nought-le-hundred,
          le_trans nought u v,
        )

    -- From the same charge between 0 and 100 percent, and over the same time, not negative, a
    -- robot that moves and does not charge ends with at most the charge of one that stands still.
    moving_drains_more :
        (b : BatteryModel D) (dt : D)
        → IsPercentage b
        → nought ≼ dt
        → (update_battery b dt true false).soc ≼ (update_battery b dt false false).soc
    unfolding update_battery drift
    moving_drains_more b dt p t = clamp_mono _ _ (
        sub_anti _ _ _ (IsPercentage-IsFinite p) (
          mul_mono _ _ _ (decimal_pos 2 2 (omega arith) (omega arith))
            (decimal_mono 2 2 10 2 (omega arith)) (decimal_finite 10 2 (omega arith)) t))
