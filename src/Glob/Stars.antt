-- ===== src/Glob/Stars.antt =====
-- The matching loop of crates/curfew-core/src/target.rs on text in which a `*` stands.
use curfew.Prelude.{
  ℕ, suc, ◌≡◌, ◌+◌, ◌*◌, refl, ap, ◌∙◌, true, false, some, none, List, [], ◌∷◌, arith,
}
use curfew.Prelude.Lists.{length}
use curfew.Prelude.Text.{eq_byte_ci, ascii_lower}
use curfew.Glob.{star, glob_loop, enough, or_false, glob_match_ascii}
use curfew.Glob.Spec.{glob}

stops :
    (f c : ℕ) (t : List ℕ)
    → glob_loop eq_byte_ci (suc (suc f)) (star ∷ []) (star ∷ c ∷ t) none ≡ some false
unfolding glob_loop eq_byte_ci ascii_lower
stops f c t = refl

lone_star : (t : List ℕ) → glob eq_byte_ci (star ∷ []) t ≡ true
unfolding glob
lone_star [] = refl
lone_star (c ∷ t) = ground (arith, lone_star t)

-- The pattern of a single star, which is read as any run of characters, is not matched by
-- `glob_match_ascii` with a text that starts with a star and goes on.
pub glob_match-star_in_text :
    (c : ℕ) (t : List ℕ)
    → (glob_match_ascii (star ∷ []) (star ∷ c ∷ t) ≡ false)
      × (glob eq_byte_ci (star ∷ []) (star ∷ c ∷ t) ≡ true)
unfolding glob_match_ascii
glob_match-star_in_text c t = (
  let n = length t in
      let k = (1 + suc (suc n) + 2) * (suc (suc n) + 1) + n + 2 in
      let e : enough 1 (suc (suc n)) ≡ suc (suc k) = omega arith in
      ap (λ f. or_false (glob_loop eq_byte_ci f (star ∷ []) (star ∷ c ∷ t) none)) e
      ∙ ap or_false (stops k c t),
  lone_star (star ∷ c ∷ t),
)
