-- ===== src/Domain.antt =====
-- crates/curfew-core/src/target.rs, `domain_matches`: a domain and its subdomains.
pub mod Suffix
use curfew.Prelude.{
  ℕ, ◌-◌, Bool, false, ◌&&◌, ◌||◌, List, [], ◌∷◌, ltb, ◌==◌, is_some_and, if◌then◌else◌,
}
use curfew.Prelude.Lists.{length, drop, get_elem?}
use curfew.Prelude.Text.{Text, as_bytes, trim, trim_start, trim_end, eq_ignore_ascii_case}

abbrev pub dot : ℕ
dot = b'.'

unfoldable pub trim_dots : Text → Text
trim_dots d = trim_end (λ c. c == dot) (trim_start (λ c. c == dot) d)

-- What `domain_matches` compares of each side.
abbrev pub cleaned : Text → List ℕ
cleaned s = as_bytes (trim_dots (trim s))

-- The comparison of the trimmed names, as bytes.
unfoldable pub covers : List ℕ → List ℕ → Bool
covers rule observed =
    if (length rule == 0) || ltb (length observed) (length rule)
    then false
    else if length observed == length rule
    then eq_ignore_ascii_case observed rule
    else (let split = length observed - length rule in
        is_some_and (get_elem? observed (split - 1)) (λ b. b == dot)
        && eq_ignore_ascii_case (drop split observed) rule)

unfoldable pub domain_matches : Text → Text → Bool
domain_matches rule observed = covers (cleaned rule) (cleaned observed)
