-- ===== src/Float.antt =====
-- What the code does with a `double` or a `float`: literals, arithmetic, `std::sqrt`, the
-- comparisons and the conversion of a duration to seconds. The numbers themselves are the
-- machine's, so the model takes them as a parameter.
pub mod Fixed
pub mod Order
use warehouse_fleet_manageme.Common.{ℕ, suc, ◌*◌, ◌^◌, ◌≤◌, ◌<◌, ◌≡◌, ◌⊎◌, Bool, true, not, ℤ}

pub record Double (D : Type 0) : Type 0 where
  -- The literal with these digits and this many decimal places: `0.02` is `decimal 2 2`.
  pub decimal : ℕ → ℕ → D
  -- `std::numeric_limits<double>::max()` and `lowest()`.
  pub max : D
  pub lowest : D
  pub add : D → D → D
  pub sub : D → D → D
  pub mul : D → D → D
  pub sqrt : D → D
  pub lt : D → D → Bool
  pub le : D → D → Bool
  -- `static_cast<float>`.
  pub narrow : D → D
  -- `(later - earlier).seconds()` for two times in nanoseconds.
  pub seconds : ℕ → ℕ → D

infix 4 ◌≼◌
abbrev pub ◌≼◌ : {D : Type 0} ⦃d : Double D⦄ → D → D → Type 0
◌≼◌ ⦃d⦄ x y = d.le x y ≡ true

abbrev pub nought : {D : Type 0} ⦃d : Double D⦄ → D
nought ⦃d⦄ = d.decimal 0 0

-- NaN is the value that is not `<=` itself.
abbrev pub IsNumber : {D : Type 0} ⦃d : Double D⦄ → D → Type 0
IsNumber x = x ≼ x

abbrev pub IsFinite : {D : Type 0} ⦃d : Double D⦄ → D → Type 0
IsFinite ⦃d⦄ x = (d.lowest ≼ x) × (x ≼ d.max)

-- What the code relies on of IEEE 754 numbers that are rounded to the nearest: the order is total
-- away from NaN, literals keep their order, and sums and products are monotone.
pub record IsIeee (D : Type 0) ⦃d : Double D⦄ : Type 0 where
  pub number_of_le : (x y : D) → x ≼ y → IsNumber x × IsNumber y
  pub le_trans : (x y z : D) → x ≼ y → y ≼ z → x ≼ z
  pub le_total : (x y : D) → IsNumber x → IsNumber y → (x ≼ y) ⊎ (y ≼ x)
  pub lt-eq-not-le : (x y : D) → IsNumber x → IsNumber y → d.lt x y ≡ not (d.le y x)
  pub number_of_lt : (x y : D) → d.lt x y ≡ true → IsNumber x × IsNumber y
  pub decimal_mono : (m k n l : ℕ) → m * 10 ^ l ≤ n * 10 ^ k → d.decimal m k ≼ d.decimal n l
  pub decimal_finite : (m k : ℕ) → m ≤ 10 ^ 300 → IsFinite (d.decimal m k)
  pub decimal_pos : (m k : ℕ) → 0 < m → k ≤ 2 → d.lt nought (d.decimal m k) ≡ true
  pub add_number : (a x : D) → IsFinite a → IsNumber x → IsNumber (d.add a x)
  pub sub_number : (a x : D) → IsFinite a → IsNumber x → IsNumber (d.sub a x)
  pub mul_number : (c x : D) → IsFinite c → d.lt nought c ≡ true → IsNumber x → IsNumber (d.mul c x)
  pub le-add : (a x : D) → IsFinite a → nought ≼ x → a ≼ d.add a x
  pub sub-le : (a x : D) → IsFinite a → nought ≼ x → d.sub a x ≼ a
  pub sub_anti : (a x y : D) → IsFinite a → x ≼ y → d.sub a y ≼ d.sub a x
  pub mul_nonneg : (c x : D) → IsFinite c → d.lt nought c ≡ true → nought ≼ x → nought ≼ d.mul c x
  pub mul_mono :
      (b c x : D) → d.lt nought b ≡ true → b ≼ c → IsFinite c → nought ≼ x → d.mul b x ≼ d.mul c x
  pub seconds_number : (later earlier : ℕ) → IsNumber (d.seconds later earlier)
  pub seconds_nonneg : (later earlier : ℕ) → earlier ≤ later → nought ≼ d.seconds later earlier
