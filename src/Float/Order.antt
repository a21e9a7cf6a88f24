-- ===== src/Float/Order.antt =====
-- The order of the numbers of `double`, from the laws of its comparisons.
use warehouse_fleet_manageme.Common.{◌≡◌, true, false, arith}
use warehouse_fleet_manageme.Float.{Double, IsIeee, IsNumber}

module _ {D : Type 0} ⦃d : Double D⦄ (laws : IsIeee D) where
  open laws use {le_trans, le_total, lt-eq-not-le, number_of_lt}

  pub lt_of_not_lt :
      (best bound x : D)
      → IsNumber x
      → d.lt best bound ≡ true
      → d.lt x bound ≡ false
      → d.lt best x ≡ true
  lt_of_not_lt best bound x n h k =
      let (n1, n2) = number_of_lt best bound h in
      ground (
        arith,
        lt-eq-not-le best bound n1 n2,
        lt-eq-not-le x bound n n2,
        lt-eq-not-le best x n1 n,
        le_total best bound n1 n2,
        le_total bound x n2 n,
        le_trans bound x best,
      )

  pub lt_trans : (x y z : D) → d.lt x y ≡ true → d.lt y z ≡ true → d.lt x z ≡ true
  lt_trans x y z h k =
      let (nx, ny) = number_of_lt x y h in
      let (ny', nz) = number_of_lt y z k in
      ground (
        arith,
        lt-eq-not-le x y nx ny,
        lt-eq-not-le y z ny nz,
        lt-eq-not-le x z nx nz,
        le_total y z ny nz,
        le_trans y z x,
      )
