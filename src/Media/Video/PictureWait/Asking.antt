-- ===== src/Media/Video/PictureWait/Asking.antt =====
-- media/picture_wait.py: the cadence of the asking and how it ends.
use urmet_ha.Prelude.{
  ℕ, suc, zero, ◌≡◌, refl, ap, sym, ◌∙◌, String, List, [], ◌∷◌, ◌++◌, map, length,
}
use mathlib.Core.List.{append_assoc, append-nil}
use urmet_ha.Media.Video.PictureWait.{PictureWait, Round, call_error, retry_interval, keep_asking}

-- The sleeps of so many rounds, and the generation of each.
abbrev pub delays : ℕ → ℕ → List ℕ
delays delay zero = []
delays delay (suc n) = delay ∷ delays retry_interval n

abbrev pub each : ℕ → ℕ → List ℕ
each generation zero = []
each generation (suc n) = generation ∷ each generation n

abbrev pub last_of : String → List String → String
last_of reason [] = reason
last_of reason (r ∷ rs) = last_of r rs

abbrev pub next_delay : ℕ → List String → ℕ
next_delay delay [] = delay
next_delay delay (r ∷ rs) = retry_interval

next_delay-retry : (rs : List String) → next_delay retry_interval rs ≡ retry_interval
next_delay-retry [] = refl
next_delay-retry (r ∷ rs) = refl

module _ {F : Type 0} where
  -- How a wait looks after it was put off for these reasons.
  abbrev pub put_off : ℕ → List String → PictureWait F → PictureWait F
  put_off delay reasons w = record w {
    slept = w.slept ++ delays delay (length reasons);
    asked = w.asked ++ each w.generation (length reasons);
    reason = last_of w.reason reasons;
  }

  put_off-none : (delay : ℕ) (w : PictureWait F) → put_off delay [] w ≡ w
  put_off-none delay w =
      ap (λ l. record w { slept = l; asked = w.asked ++ [] }) (append-nil w.slept)
      ∙ ap (λ l. record w { asked = l }) (append-nil w.asked)

  put_off-more :
      (delay : ℕ) (r : String) (rs : List String) (w : PictureWait F)
      → put_off retry_interval rs (record w {
        slept = w.slept ++ delay ∷ [];
        asked = w.asked ++ w.generation ∷ [];
        reason = r;
      })
        ≡ put_off delay (r ∷ rs) w
  put_off-more delay r rs w =
      let d = delays retry_interval (length rs) in
      let g = each w.generation (length rs) in
      ap
        (λ l. record w {
          slept = l;
          asked = (w.asked ++ w.generation ∷ []) ++ g;
          reason = last_of r rs;
        })
        (append_assoc w.slept (delay ∷ []) d)
      ∙ ap (λ l. record w { slept = w.slept ++ delay ∷ d; asked = l; reason = last_of r rs })
          (append_assoc w.asked (w.generation ∷ []) g)

  -- Call errors only put the asking off: each is one more sleep of the retry interval, except that
  -- the first sleep is the one given, and one more question of the generation that the wait started
  -- with; the reason shown is that of the last, and nothing else of the wait changes, whatever
  -- answers come after.
  pub keep_asking-put_off :
      (delay : ℕ) (reasons : List String) (later : List (Round F)) (w : PictureWait F)
      → keep_asking delay (map call_error reasons ++ later) w
        ≡ keep_asking (next_delay delay reasons) later (put_off delay reasons w)
  unfolding keep_asking
  keep_asking-put_off delay [] later w =
      let same : put_off delay [] w ≡ w = put_off-none delay w in
      ap (keep_asking delay later) (sym same)
  keep_asking-put_off delay (r ∷ rs) later w =
      let one : PictureWait F = record w {
        slept = w.slept ++ delay ∷ [];
        asked = w.asked ++ w.generation ∷ [];
        reason = r;
      } in
      keep_asking-put_off retry_interval rs later one
      ∙ ap (λ d. keep_asking d later (put_off retry_interval rs one)) (next_delay-retry rs)
      ∙ ap (keep_asking retry_interval later) (put_off-more delay r rs w)
