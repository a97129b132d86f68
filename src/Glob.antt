-- ===== src/Glob.antt =====
-- crates/curfew-core/src/target.rs, `glob_match`: an index into a slice is the rest of the slice from
-- there on, and a remembered star is the pattern behind it with the text from which it stopped eating.
pub mod Fuel
pub mod Spec
pub mod Stars
use curfew.Prelude.{
  ℕ, zero, suc, ◌+◌, ◌*◌, Bool, true, false, ◌&&◌, ◌||◌, Option, none, some, List, [], ◌∷◌, map,
  ◌==◌, if◌then◌else◌,
}
use curfew.Prelude.Lists.{length}
use curfew.Prelude.Text.{Text, as_bytes, is_ascii, eq_byte_ci}
use curfew.Prelude.Unicode.{Unicode}

abbrev pub star : ℕ
star = b'*'

abbrev pub question : ℕ
question = b'?'

-- `none`, or the pattern after the last `*` and the text that it has not eaten.
abbrev pub Resume : Type 0
Resume = Option (List ℕ × List ℕ)

-- The trailing `while` and the last comparison.
unfoldable pub only_stars : List ℕ → Bool
only_stars [] = true
only_stars (a ∷ p) = let rest = only_stars p in if a == star then rest else false

module _ (same : ℕ → ℕ → Bool) where
  -- The loop over the text. `none` means that the fuel ran out. The last branch lets the last star
  -- eat one character more, and tries again.
  unfoldable pub glob_loop : ℕ → List ℕ → List ℕ → Resume → Option Bool
  glob_loop zero p t resume = none
  glob_loop (suc f) p [] resume = some (only_stars p)
  glob_loop (suc f) [] (c ∷ t) resume = elim resume [
    | none ↦ some false
    | some (q, []) ↦ some false
    | some (q, d ∷ u) ↦ glob_loop f q u (some (q, u))
  ]
  glob_loop (suc f) (a ∷ p) (c ∷ t) resume =
      let step = glob_loop f p t resume in
      let starred = glob_loop f p (c ∷ t) (some (p, c ∷ t)) in
      let back : Option Bool = elim resume [
        | none ↦ some false
        | some (q, []) ↦ some false
        | some (q, d ∷ u) ↦ glob_loop f q u (some (q, u))
      ] in
      if (a == question) || same a c then step else if a == star then starred else back

-- Enough rounds for every pattern and text of these lengths.
abbrev pub enough : ℕ → ℕ → ℕ
enough p t = suc ((p + t + 2) * (t + 1) + p + t)

abbrev pub or_false : Option Bool → Bool
or_false none = false
or_false (some b) = b

abbrev pub glob_match_with : (ℕ → ℕ → Bool) → List ℕ → List ℕ → Bool
glob_match_with same p t = or_false (glob_loop same (enough (length p) (length t)) p t none)

unfoldable pub glob_match_ascii : List ℕ → List ℕ → Bool
glob_match_ascii p t = glob_match_with eq_byte_ci p t

module _ (unicode : Unicode) where
  unfoldable pub glob_match_folded : Text → Text → Bool
  glob_match_folded pattern text =
      glob_match_with ◌==◌ (unicode.to_lowercase pattern) (unicode.to_lowercase text)

  unfoldable pub glob_match : Text → Text → Bool
  glob_match pattern text =
      if is_ascii pattern && is_ascii text
      then glob_match_ascii (as_bytes pattern) (as_bytes text)
      else glob_match_folded pattern text
