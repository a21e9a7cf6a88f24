-- ===== src/Common/TextMaps.antt =====
-- `std::map<std::string, V>`: a list in the order of its keys, which compare byte by byte. (UTF-8
-- keeps the order of the code points.)
use Prim.Native.Char.{code}
use Prim.Native.String.{String}
use mathlib.Core.Path.{◌≡◌, refl}
use mathlib.Core.Bool.{Bool, true, false}
use mathlib.Core.Option.{Option, none, some}
use mathlib.Core.List.{List, [], ◌∷◌}
use native.Mathlib.Omega.{arith}
use text.Mathlib.TextEquality.{Char-path}
use warehouse_fleet_manageme.Common.Tests.{ltb, ◌==◌, ◌==ₛ◌, ==ₛ_iff, if◌then◌else◌}

-- `operator<` of `std::string`.
unfoldable pub before : String → String → Bool
before String.[] String.[] = false
before String.[] (String.◌∷◌ d t) = true
before (String.◌∷◌ c s) String.[] = false
before (String.◌∷◌ c s) (String.◌∷◌ d t) =
    if ltb (code c) (code d) then true else if code c == code d then before s t else false

pub before_irrefl : (s : String) → before s s ≡ false
unfolding before
before_irrefl String.[] = refl
before_irrefl (String.◌∷◌ c s) = ground (arith, before_irrefl s)

pub before_trans : (s t u : String) → before s t ≡ true → before t u ≡ true → before s u ≡ true
unfolding before
before_trans String.[] String.[] u h k = ground arith
before_trans String.[] (String.◌∷◌ d t) String.[] h k = ground arith
before_trans String.[] (String.◌∷◌ d t) (String.◌∷◌ e u) h k = refl
before_trans (String.◌∷◌ c s) String.[] u h k = ground arith
before_trans (String.◌∷◌ c s) (String.◌∷◌ d t) String.[] h k = ground arith
before_trans (String.◌∷◌ c s) (String.◌∷◌ d t) (String.◌∷◌ e u) h k =
    ground (arith, before_trans s t u)

pub before_total : (s t : String) → before s t ≡ false → before t s ≡ false → s ≡ t
unfolding before
before_total String.[] String.[] h k = refl
before_total String.[] (String.◌∷◌ d t) h k = ground arith
before_total (String.◌∷◌ c s) String.[] h k = ground arith
before_total (String.◌∷◌ c s) (String.◌∷◌ d t) h k = ground (arith, before_total s t, Char-path c d)

abbrev pub TextMap {ℓ} : Type ℓ → Type ℓ
TextMap V = List (String × V)

module _ {ℓ} {V : Type ℓ} where
  -- `find`, and the value that `at` gives or throws for.
  unfoldable pub find : String → TextMap V → Option V
  find k [] = none
  find k ((j, v) ∷ m) = if k ==ₛ j then some v else find k m

  -- `m[k] = v`.
  unfoldable pub assign : String → V → TextMap V → TextMap V
  assign k v [] = (k, v) ∷ []
  assign k v ((j, w) ∷ m) =
      if k ==ₛ j
      then (k, v) ∷ m
      else if before k j
      then (k, v) ∷ (j, w) ∷ m
      else (j, w) ∷ assign k v m

  -- Every key of the map comes after `k`.
  abbrev pub Above : String → TextMap V → Type 0
  Above k [] = Unit
  Above k ((j, v) ∷ m) = before k j ≡ true

  -- The keys rise, so no key stands twice.
  abbrev pub IsSorted : TextMap V → Type 0
  IsSorted [] = Unit
  IsSorted ((k, v) ∷ m) = Above k m × IsSorted m

  pub find-assign :
      (k j : String) (v : V) (m : TextMap V)
      → find j (assign k v m) ≡ (if j ==ₛ k then some v else find j m)
  unfolding find assign
  find-assign k j v [] = refl
  find-assign k j v ((i, w) ∷ m) =
      ground (arith, ==ₛ_iff k j, ==ₛ_iff j k, ==ₛ_iff k i, ==ₛ_iff j i, find-assign k j v m)

  Above-assign :
      (i k : String) (v : V) (m : TextMap V)
      → before i k ≡ true
      → Above i m
      → Above i (assign k v m)
  unfolding assign
  Above-assign i k v [] h a = h
  Above-assign i k v ((j, w) ∷ m) h a = ground arith

  pub assign-IsSorted : (k : String) (v : V) (m : TextMap V) → IsSorted m → IsSorted (assign k v m)
  unfolding assign
  assign-IsSorted k v [] s = (tt, tt)
  assign-IsSorted k v ((j, w) ∷ m) s =
      ground (arith, ==ₛ_iff k j, before_total k j, assign-IsSorted k v m s.1, Above-assign j k v m)
