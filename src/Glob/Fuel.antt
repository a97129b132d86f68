-- ===== src/Glob/Fuel.antt =====
-- The matching loop of crates/curfew-core/src/target.rs and the fuel that it is given.
use curfew.Prelude.{
  ℕ, zero, suc, ◌≡◌, ◌+◌, ◌*◌, ◌≤◌, ◌<◌, refl, Bool, false, ◌||◌, none, some, List, [], ◌∷◌, arith,
  ◌==◌, Bool-cases, inl, inr,
}
use curfew.Prelude.Lists.{length}
use curfew.Glob.{Resume, star, question, only_stars, glob_loop, enough}

-- The size of the text that is left to the last star; without one, more than the whole text.
abbrev room : List ℕ → Resume → ℕ
room t none = suc (length t)
room t (some (q, u)) = length u

-- The star's text is no shorter than what is left, and pattern and text fit the bound.
abbrev Fits : ℕ → List ℕ → Resume → Type 0
Fits w t none = Unit
Fits w t (some (q, u)) = (length t ≤ length u) × (length q + length u < w)

step_room :
    (w a c : ℕ) (p t : List ℕ) (r : Resume) (f : ℕ)
    → Fits w (c ∷ t) r
    → w * room (c ∷ t) r + length (a ∷ p) + length (c ∷ t) < suc f
    → w * room t r + length p + length t < f
step_room w a c p t none f k lt = grind arith
step_room w a c p t (some (q, u)) f k lt = omega arith

star_room :
    (w a c : ℕ) (p t : List ℕ) (r : Resume) (f : ℕ)
    → Fits w (c ∷ t) r
    → w * room (c ∷ t) r + length (a ∷ p) + length (c ∷ t) < suc f
    → w * length (c ∷ t) + length p + length (c ∷ t) < f
star_room w a c p t none f k lt = grind arith
star_room w a c p t (some (q, u)) f k lt = grind arith

module _ (same : ℕ → ℕ → Bool) (w : ℕ) where
  loop_total :
      (f : ℕ) (p t : List ℕ) (resume : Resume)
      → length p + length t < w
      → Fits w t resume
      → w * room t resume + length p + length t < f
      → (b : Bool) × (glob_loop same f p t resume ≡ some b)
  unfolding glob_loop
  loop_total zero p t resume h k lt = absurd (omega arith)
  loop_total (suc f) [] [] resume h k lt = (only_stars [], refl)
  loop_total (suc f) (a ∷ p) [] resume h k lt = (only_stars (a ∷ p), refl)
  loop_total (suc f) [] (c ∷ t) none h k lt = (false, refl)
  loop_total (suc f) [] (c ∷ t) (some (q, [])) h k lt = (false, refl)
  loop_total (suc f) [] (c ∷ t) (some (q, d ∷ u)) h k lt =
      loop_total f q u (some (q, u)) (omega arith) (omega arith) (grind arith)
  loop_total (suc f) (a ∷ p) (c ∷ t) none h k lt = elim (Bool-cases ((a == question) || same a c)) [
    | inl e ↦ rw e (loop_total f p t none (omega arith) tt (step_room w a c p t none f k lt))
    | inr e ↦ elim (Bool-cases (a == star)) [
      | inl g ↦
          rw (e, g)
            (loop_total f p (c ∷ t) (some (p, c ∷ t)) (omega arith) (omega arith)
              (star_room w a c p t none f k lt))
      | inr g ↦ rw (e, g) (false, refl)
    ]
  ]
  loop_total (suc f) (a ∷ p) (c ∷ t) (some (q, [])) h k lt = absurd (omega arith)
  loop_total (suc f) (a ∷ p) (c ∷ t) (some (q, d ∷ u)) h k lt =
      elim (Bool-cases ((a == question) || same a c)) [
        | inl e ↦ rw e (
            loop_total f p t (some (q, d ∷ u)) (omega arith) (omega arith)
              (step_room w a c p t (some (q, d ∷ u)) f k lt))
        | inr e ↦ elim (Bool-cases (a == star)) [
          | inl g ↦
              rw (e, g)
                (loop_total f p (c ∷ t) (some (p, c ∷ t)) (omega arith) (omega arith)
                  (star_room w a c p t (some (q, d ∷ u)) f k lt))
          | inr g ↦
              rw (e, g) (loop_total f q u (some (q, u)) (omega arith) (omega arith) (grind arith))
        ]
      ]

-- Whatever test of characters is used, the fuel that `glob_match_with` gives the loop is enough: it
-- returns an answer on every pattern and every text.
pub glob_loop-total :
    (same : ℕ → ℕ → Bool) (p t : List ℕ)
    → (b : Bool) × (glob_loop same (enough (length p) (length t)) p t none ≡ some b)
glob_loop-total same p t =
    loop_total same (length p + length t + 2) (enough (length p) (length t)) p t none (omega arith)
      tt (grind arith)
