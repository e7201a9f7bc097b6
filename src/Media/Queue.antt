-- ===== src/Media/Queue.antt =====
-- A bounded queue that drops its oldest, as `deque(maxlen=n)` of audio/bridge.py and `_enqueue` of
-- track.py do.
use urmet_ha.Prelude.{
  ℕ, suc, ◌+◌, ◌-◌, ◌≤◌, ◌<◌, ◌≡◌, refl, ◌∙◌, List, [], ◌∷◌, ◌++◌, arith, leb, if◌then◌else◌,
  length, length-append, drop, ap, min, sym,
}
use native.Mathlib.Decide.{dec_lt}
use mathlib.Core.List.{append_assoc, append-nil}

module _ {A : Type 0} where
  -- The queue without its oldest.
  unfoldable pub drop_oldest : List A → List A
  drop_oldest [] = []
  drop_oldest (x ∷ xs) = xs

  unfoldable pub push : ℕ → A → List A → List A
  unfolding drop_oldest
  push bound x q = (if leb bound (length q) then drop_oldest q else q) ++ x ∷ []

  unfoldable pub push_all : ℕ → List A → List A → List A
  push_all bound [] q = q
  push_all bound (x ∷ xs) q = push_all bound xs (push bound x q)

  pub length-push :
      (bound : ℕ) (x : A) (q : List A)
      → 0 < bound
      → length q ≤ bound
      → length (push bound x q) ≡ min bound (length q + 1)
  unfolding push
  length-push bound x [] h k = ground arith
  length-push bound x (y ∷ q) h k =
      ground (arith, length-append q (x ∷ []), length-append (y ∷ q) (x ∷ []))

  push_room : (bound : ℕ) (x : A) (q : List A) → length q < bound → push bound x q ≡ q ++ x ∷ []
  unfolding push
  push_room bound x q h = ground arith

  push_full :
      (bound : ℕ) (x y : A) (q : List A)
      → bound ≤ length (y ∷ q)
      → push bound x (y ∷ q) ≡ q ++ x ∷ []
  unfolding push
  push_full bound x y q h = ground arith

  drop_suc :
      (y : A) (ys : List A) (bound : ℕ)
      → bound ≤ length ys
      → drop (length (y ∷ ys) - bound) (y ∷ ys) ≡ drop (length ys - bound) ys
  drop_suc y ys bound h =
      let e : length (y ∷ ys) - bound ≡ suc (length ys - bound) = omega arith in rw e refl

  -- What the queue holds after any pushes is the newest of all that went in, in order, as many as
  -- the bound allows.
  pub push_all-newest :
      (bound : ℕ) (xs q : List A)
      → 0 < bound
      → length q ≤ bound
      → push_all bound xs q ≡ drop (length (q ++ xs) - bound) (q ++ xs)
  unfolding push_all
  push_all-newest bound [] q h k =
      let e : length (q ++ []) - bound ≡ 0 = omega (arith, length-append q []) in
      rw (e, append-nil) refl
  push_all-newest bound (x ∷ xs) [] h k =
      rw (push_room bound x [] h) (push_all-newest bound xs (x ∷ []) h h)
  push_all-newest bound (x ∷ xs) (y ∷ q) h k = elim (dec_lt (length (y ∷ q)) bound) [
    | yes room ↦ rw (push_room bound x (y ∷ q) room) (
        push_all-newest bound xs ((y ∷ q) ++ x ∷ []) h
          (omega (arith, length-append (y ∷ q) (x ∷ [])))
        ∙ ap (λ l. drop (length l - bound) l) (append_assoc (y ∷ q) (x ∷ []) xs))
    | no full ↦ rw (push_full bound x y q (omega arith)) (
        push_all-newest bound xs (q ++ x ∷ []) h (omega (arith, length-append q (x ∷ [])))
        ∙ ap (λ l. drop (length l - bound) l) (append_assoc q (x ∷ []) xs)
        ∙ sym (drop_suc y (q ++ x ∷ xs) bound (omega (arith, length-append q (x ∷ xs)))))
  ]
