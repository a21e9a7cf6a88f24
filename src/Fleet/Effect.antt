-- ===== src/Fleet/Effect.antt =====
-- Code of the fleet server that changes a state and may throw. What was changed before an exception
-- stays changed.
pub data Result (A : Type 0) : Type 0 where
  returned : A → Result A
  threw : Result A

abbrev pub M : Type 0 → Type 0 → Type 0
M S A = S → Result A × S

abbrev pub pure : {S A : Type 0} → A → M S A
pure a s = (returned a, s)

abbrev pub throw : {S A : Type 0} → M S A
throw s = (threw, s)

abbrev pub continue : {S A B : Type 0} → Result A × S → (A → M S B) → Result B × S
continue (returned a, s) f = f a s
continue (threw, s) f = (threw, s)

infixl 5 ◌>>=◌ ◌>>◌
abbrev pub ◌>>=◌ : {S A B : Type 0} → M S A → (A → M S B) → M S B
◌>>=◌ m f s = continue (m s) f

abbrev pub ◌>>◌ : {S B : Type 0} → M S (Unit {0}) → M S B → M S B
m >> k = m >>= λ _. k

abbrev pub lift : {S A : Type 0} → Result A → M S A
lift r s = (r, s)

-- The code may read and write the state.
abbrev pub get : {S : Type 0} → M S S
get s = (returned s, s)

abbrev pub put : {S : Type 0} → S → M S (Unit {0})
put s _ = (returned tt, s)
