-- ===== src/Prelude/Unicode.antt =====
-- Lowercasing of arbitrary text follows tables of the Unicode standard, which are a parameter here.
-- On ASCII text it is the ASCII mapping.
use mathlib.Core.Path.{◌≡◌}
use mathlib.Core.Bool.{true}
use mathlib.Core.List.{map}
use curfew.Prelude.Text.{Text, is_ascii, ascii_lower}

pub record Unicode : Type 0 where
  pub to_lowercase : Text → Text
  pub to_lowercase-ascii : (s : Text) → is_ascii s ≡ true → to_lowercase s ≡ map ascii_lower s
