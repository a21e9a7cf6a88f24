-- ===== src/Common/Lists.antt =====
-- Lists measured by native numbers, predicates on lists, and the order of events in a list.
use Prim.Native.Nat.{ℕ, suc, ◌+◌}
use mathlib.Core.Path.{◌≡◌}
use mathlib.Core.List.{List, [], ◌∷◌, ◌++◌}
use native.Mathlib.Omega.{arith}

module _ {ℓ} {A : Type ℓ} where
  abbrev pub length : List A → ℕ
  length [] = 0
  length (x ∷ xs) = suc (length xs)

  pub length-append : (xs ys : List A) → length (xs ++ ys) ≡ length xs + length ys
  length-append [] ys = omega arith
  length-append (x ∷ xs) ys = omega (arith, length-append xs ys)

  abbrev pub All {κ} : (A → Type κ) → List A → Type κ
  All P [] = Unit
  All P (x ∷ xs) = P x × All P xs

  pub All-append {κ} : (P : A → Type κ) (xs ys : List A) → All P xs → All P ys → All P (xs ++ ys)
  All-append P [] ys v w = w
  All-append P (x ∷ xs) ys v w = (v.0, All-append P xs ys v.1 w)

  pub All-map {κ μ} :
      {P : A → Type κ} {Q : A → Type μ} (f : (x : A) → P x → Q x) (xs : List A)
      → All P xs
      → All Q xs
  All-map f [] v = tt
  All-map f (x ∷ xs) v = (f x v.0, All-map f xs v.1)

  -- What holds of all holds of the one in the middle.
  pub All-middle {κ} :
      (P : A → Type κ) (front : List A) {a : A} (back : List A) → All P (front ++ (a ∷ back)) → P a
  All-middle P [] back h = h.0
  All-middle P (x ∷ front) back h = All-middle P front back h.1

-- `xs` occurs in `ys` in this order, with anything in between.
pub data Embeds {ℓ} {A : Type ℓ} : List A → List A → Type ℓ where
  done : {ys : List A} → Embeds [] ys
  keep : {x : A} {xs ys : List A} → Embeds xs ys → Embeds (x ∷ xs) (x ∷ ys)
  skip : {y : A} {xs ys : List A} → Embeds xs ys → Embeds xs (y ∷ ys)

-- Fewer events are found where more are.
pub Embeds-tail {ℓ} : {A : Type ℓ} {x : A} {xs ys : List A} → Embeds (x ∷ xs) ys → Embeds xs ys
Embeds-tail (keep e) = skip e
Embeds-tail (skip e) = skip (Embeds-tail e)
