-- ===== src/Integration/Client/Calls.antt =====
-- client.py: the calls that its loops make of the listeners of a set, and those that one of them gets.
use urmet_ha.Prelude.{ℕ, suc, ◌≡◌, refl, List, [], ◌∷◌, ◌++◌, ◌==◌, if◌then◌else◌, arith}

-- What one listener is called with, in order.
abbrev pub told_to : {V : Type 0} → ℕ → List (ℕ × V) → List V
told_to l [] = []
told_to l ((j, value) ∷ told) = let rest = told_to l told in if l == j then value ∷ rest else rest

-- The calls of a loop over the listeners.
abbrev pub calls_of : {V : Type 0} → V → List ℕ → List (ℕ × V)
calls_of value [] = []
calls_of value (l ∷ ls) = (l, value) ∷ calls_of value ls

-- The number of times that a listener stands in the set.
abbrev pub occurrences : ℕ → List ℕ → ℕ
occurrences l [] = 0
occurrences l (j ∷ js) = let rest = occurrences l js in if l == j then suc rest else rest

module _ {V : Type 0} (l : ℕ) where
  pub told_to-append : (xs ys : List (ℕ × V)) → told_to l (xs ++ ys) ≡ told_to l xs ++ told_to l ys
  told_to-append [] ys = refl
  told_to-append ((j, v) ∷ xs) ys = ground (arith, told_to-append xs ys)

  told_to-never :
      (value : V) (ls : List ℕ) → occurrences l ls ≡ 0 → told_to l (calls_of value ls) ≡ []
  told_to-never value [] e = refl
  told_to-never value (j ∷ js) e = ground (arith, told_to-never value js)

  pub told_to-once :
      (value : V) (ls : List ℕ) → occurrences l ls ≡ 1 → told_to l (calls_of value ls) ≡ value ∷ []
  told_to-once value [] e = absurd (omega (arith, e))
  told_to-once value (j ∷ js) e = ground (arith, told_to-never value js, told_to-once value js)
