-- ===== src/Media/Video/Track/Rising.antt =====
-- Lists of stamps that rise strictly, as media/track.py makes them.
use urmet_ha.Prelude.{ℕ, suc, ◌≤◌, List, [], ◌∷◌, ◌++◌, arith}

-- The stamps rise from the first bound on, and stay below the second.
abbrev pub IsRising : ℕ → List ℕ → ℕ → Type 0
IsRising low [] high = low ≤ high
IsRising low (x ∷ xs) high = (low ≤ x) × IsRising (suc x) xs high

pub IsRising-snoc :
    (low : ℕ) (xs : List ℕ) (high t : ℕ)
    → IsRising low xs high
    → high ≤ t
    → IsRising low (xs ++ t ∷ []) (suc t)
IsRising-snoc low [] high t r h = omega arith
IsRising-snoc low (x ∷ xs) high t r h = (r.0, IsRising-snoc (suc x) xs high t r.1 h)

pub IsRising-from :
    (low low' : ℕ) (xs : List ℕ) (high : ℕ)
    → IsRising low xs high
    → low' ≤ low
    → IsRising low' xs high
IsRising-from low low' [] high r h = omega arith
IsRising-from low low' (x ∷ xs) high r h = (omega arith, r.1)

pub IsRising-up :
    (low : ℕ) (xs : List ℕ) (high high' : ℕ)
    → IsRising low xs high
    → high ≤ high'
    → IsRising low xs high'
IsRising-up low [] high high' r h = omega arith
IsRising-up low (x ∷ xs) high high' r h = (r.0, IsRising-up (suc x) xs high high' r.1 h)

-- One stamp is dropped out of the middle.
pub IsRising-drop :
    (low : ℕ) (xs : List ℕ) (y : ℕ) (ys : List ℕ) (high : ℕ)
    → IsRising low (xs ++ y ∷ ys) high
    → IsRising low (xs ++ ys) high
IsRising-drop low [] y ys high r = IsRising-from (suc y) low ys high r.1 (omega arith)
IsRising-drop low (x ∷ xs) y ys high r = (r.0, IsRising-drop (suc x) xs y ys high r.1)

pub IsRising-prefix :
    (low : ℕ) (xs ys : List ℕ) (high : ℕ) → IsRising low (xs ++ ys) high → IsRising low xs high
IsRising-prefix low [] [] high r = r
IsRising-prefix low [] (y ∷ ys) high r = omega (arith, IsRising-prefix (suc y) [] ys high r.1)
IsRising-prefix low (x ∷ xs) ys high r = (r.0, IsRising-prefix (suc x) xs ys high r.1)
