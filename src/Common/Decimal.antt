-- ===== src/Common/Decimal.antt =====
-- `std::to_string` of a number that is not negative.
use Prim.Native.Char.{code}
use Prim.Native.Nat.{ℕ, zero, suc, ◌+◌, ◌-◌, ◌*◌, ◌/◌, ◌%◌, ◌<◌}
use Prim.Native.String.{String, ◌++◌}
use mathlib.Core.Path.{◌≡◌, refl, sym, ap, ◌∙◌}
use mathlib.Core.Logic.{inl, inr}
use mathlib.Core.List.{List, [], ◌∷◌}
use text.Mathlib.TextLemmas.{nil-append, cons-append}
use native.Mathlib.Omega.{arith}
use warehouse_fleet_manageme.Common.Tests.{ltb, if◌then◌else◌, Bool-cases}

abbrev nth : List String → ℕ → String
nth [] i = ""
nth (s ∷ ss) zero = s
nth (s ∷ ss) (suc i) = nth ss i

abbrev digit : ℕ → String
digit = nth ("0" ∷ "1" ∷ "2" ∷ "3" ∷ "4" ∷ "5" ∷ "6" ∷ "7" ∷ "8" ∷ "9" ∷ [])

-- A number has no more digits than its value and one.
digits : ℕ → ℕ → String
digits zero n = ""
digits (suc fuel) n =
    let shorter = digits fuel (n / 10) ++ digit (n % 10) in if ltb n 10 then digit n else shorter

unfoldable pub to_string : ℕ → String
unfolding digits
to_string n = digits (suc n) n

thousand : to_string 1024 ≡ "1024"
unfolding to_string
thousand = refl

-- The number that a text of digits stands for, after a number that was read.
abbrev read_digits : ℕ → String → ℕ
read_digits acc String.[] = acc
read_digits acc (String.◌∷◌ c s) = read_digits (acc * 10 + (code c - 48)) s

read_digits-append :
    (acc : ℕ) (s t : String) → read_digits acc (s ++ t) ≡ read_digits (read_digits acc s) t
read_digits-append acc String.[] t = rw nil-append
read_digits-append acc (String.◌∷◌ c s) t =
    rw cons-append (read_digits-append (acc * 10 + (code c - 48)) s t)

read_digits-digit : (acc n : ℕ) → n < 10 → read_digits acc (digit n) ≡ acc * 10 + n
read_digits-digit acc zero h = refl
read_digits-digit acc (suc zero) h = refl
read_digits-digit acc (suc (suc zero)) h = refl
read_digits-digit acc (suc (suc (suc zero))) h = refl
read_digits-digit acc (suc (suc (suc (suc zero)))) h = refl
read_digits-digit acc (suc (suc (suc (suc (suc zero))))) h = refl
read_digits-digit acc (suc (suc (suc (suc (suc (suc zero)))))) h = refl
read_digits-digit acc (suc (suc (suc (suc (suc (suc (suc zero))))))) h = refl
read_digits-digit acc (suc (suc (suc (suc (suc (suc (suc (suc zero)))))))) h = refl
read_digits-digit acc (suc (suc (suc (suc (suc (suc (suc (suc (suc zero))))))))) h = refl
read_digits-digit acc (suc (suc (suc (suc (suc (suc (suc (suc (suc (suc n)))))))))) h =
    absurd (omega arith)

read_digits-digits : (fuel n : ℕ) → n < fuel → read_digits 0 (digits fuel n) ≡ n
unfolding digits
read_digits-digits zero n h = elim h [ ]
read_digits-digits (suc fuel) n h = elim (Bool-cases (ltb n 10)) [
  | inl e ↦ rw e (read_digits-digit 0 n (ground arith) ∙ omega arith)
  | inr e ↦
      rw
        (
          e,
          read_digits-append 0 (digits fuel (n / 10)) (digit (n % 10)),
          read_digits-digit (read_digits 0 (digits fuel (n / 10))) (n % 10) (omega arith),
          read_digits-digits fuel (n / 10) (ground arith),
        )
        (omega arith)
]

-- Different numbers are printed differently.
pub to_string_inj : (m n : ℕ) → to_string m ≡ to_string n → m ≡ n
unfolding to_string
to_string_inj m n e =
    sym (read_digits-digits (suc m) m (omega arith))
    ∙ ap (read_digits 0) e
    ∙ read_digits-digits (suc n) n (omega arith)
