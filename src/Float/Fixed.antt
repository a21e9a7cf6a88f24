-- ===== src/Float/Fixed.antt =====
-- Numbers that meet `IsIeee`: whole hundredths, and `none` for NaN.
use warehouse_fleet_manageme.Common.{
  ℕ, zero, suc, ◌+◌, ◌*◌, ◌/◌, ◌^◌, ◌≤◌, ◌<◌, ◌≡◌, Bool, false, Option, none, some, ℤ, pos, negsuc,
  ◌+ℤ◌, ◌-ℤ◌, ◌*ℤ◌, ltb_ℤ, leb_ℤ, leb, if◌then◌else◌, sub_ℕ, arith,
}
use mathlib.Core.Bool.{true}
use native.Mathlib.Nat.{
  pow-suc, le-div_iff_mul-le, le_of_mul-le-mul_right, mul-le-mul_right, div-mul-le_self,
  div-le_self,
}
use warehouse_fleet_manageme.Float.{Double, IsIeee, nought, ◌≼◌}

abbrev pub Fixed : Type 0
Fixed = Option ℤ

abbrev on_numbers : (ℤ → ℤ → ℤ) → Fixed → Fixed → Fixed
on_numbers f (some a) (some b) = some (f a b)
on_numbers f _ _ = none

abbrev test : (ℤ → ℤ → Bool) → Fixed → Fixed → Bool
test f (some a) (some b) = f a b
test f _ _ = false

-- The quotient by 100 that rounds towards zero.
abbrev hundredth : ℤ → ℤ
hundredth (pos n) = pos (n / 100)
hundredth (negsuc n) = sub_ℕ 0 (suc n / 100)

-- The greatest `r` below `acc + 2 ^ k` with `r * r ≤ n`, a bit at a time.
abbrev root : ℕ → ℕ → ℕ → ℕ
root zero acc n = acc
root (suc k) acc n = let c = acc + 2 ^ k in root k (if leb (c * c) n then c else acc) n

abbrev root_of : Fixed → Fixed
root_of (some (pos n)) = some (pos (root 32 0 (n * 100)))
root_of _ = none

instance abbrev pub fixed_double : Double Fixed
fixed_double = record {
  decimal = λ m k. some (pos (m * 100 / 10 ^ k));
  max = some (pos (10 ^ 310));
  lowest = some (negsuc (10 ^ 310));
  add = on_numbers ◌+ℤ◌;
  sub = on_numbers ◌-ℤ◌;
  mul = on_numbers (λ a b. hundredth (a *ℤ b));
  sqrt = root_of;
  lt = test ltb_ℤ;
  le = test leb_ℤ;
  narrow = λ x. x;
  seconds = λ later earlier. some (sub_ℕ (later / 10 ^ 7) (earlier / 10 ^ 7));
}

ten_pow_pos : (k : ℕ) → 0 < 10 ^ k
ten_pow_pos zero = omega arith
ten_pow_pos (suc k) = rw pow-suc (omega (arith, ten_pow_pos k))

div_mono : (a b p q : ℕ) → 0 < p → 0 < q → a * q ≤ b * p → a / p ≤ b / q
div_mono a b p q hp hq h =
    (le-div_iff_mul-le hq).1
      (le_of_mul-le-mul_right {k = p} (omega (arith, mul-le-mul_right q (div-mul-le_self a p))) hp)

decimal_le : (m k n l : ℕ) → m * 10 ^ l ≤ n * 10 ^ k → m * 100 / 10 ^ k ≤ n * 100 / 10 ^ l
decimal_le m k n l h =
    div_mono (m * 100) (n * 100) (10 ^ k) (10 ^ l) (ten_pow_pos k) (ten_pow_pos l) (omega arith)

decimal_bound : (m k : ℕ) → m ≤ 10 ^ 300 → m * 100 / 10 ^ k ≤ 10 ^ 310
decimal_bound m k h = omega (arith, div-le_self (m * 100) (10 ^ k))

decimal_positive : (m k : ℕ) → 0 < m → k ≤ 2 → 0 < m * 100 / 10 ^ k
decimal_positive m zero h b = omega arith
decimal_positive m (suc zero) h b = omega arith
decimal_positive m (suc (suc zero)) h b = omega arith
decimal_positive m (suc (suc (suc k))) h b = absurd (omega arith)

scaled_le : (b c x : ℕ) → b ≤ c → b * x / 100 ≤ c * x / 100
scaled_le b c x h = omega (arith, mul-le-mul_right x h)

mul_le :
    (b c x : Fixed)
    → fixed_double.lt nought b ≡ true
    → b ≼ c
    → nought ≼ x
    → fixed_double.mul b x ≼ fixed_double.mul c x
mul_le (some (pos b)) (some (pos c)) (some (pos x)) p h n = ground (arith, scaled_le b c x)
mul_le b c x p h n = ground arith

pub Fixed-IsIeee : IsIeee Fixed
Fixed-IsIeee = record {
  number_of_le = λ x y h. ground arith;
  le_trans = λ x y z h k. ground arith;
  le_total = λ x y h k. ground arith;
  lt-eq-not-le = λ x y h k. ground arith;
  number_of_lt = λ x y h. ground arith;
  decimal_mono = λ m k n l h. ground (arith, decimal_le m k n l h);
  decimal_finite = λ m k h. ground (arith, decimal_bound m k h);
  decimal_pos = λ m k h b. ground (arith, decimal_positive m k h b);
  add_number = λ a x f n. ground arith;
  sub_number = λ a x f n. ground arith;
  mul_number = λ c x f p n. ground arith;
  le-add = λ a x f n. ground arith;
  sub-le = λ a x f n. ground arith;
  sub_anti = λ a x y f h. ground arith;
  mul_nonneg = λ c x f p n. grind arith;
  mul_mono = λ b c x p h f n. mul_le b c x p h n;
  seconds_number = λ l e. ground arith;
  seconds_nonneg = λ l e h. ground arith;
}
