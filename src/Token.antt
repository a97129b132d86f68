-- ===== src/Token.antt =====
-- crates/curfew-core/src/token.rs: which tag a scanned payload is of.
pub mod Bits
pub mod Scan
use curfew.Prelude.{
  ℕ, zero, suc, ◌+◌, ◌*◌, ◌/◌, ◌%◌, ◌-◌, max, Bool, true, false, not, ◌&&◌, Option, none, some,
  List, [], ◌∷◌, ◌++◌, map, ltb, leb, ◌==◌, if◌then◌else◌, is_none,
}
use curfew.Prelude.Lists.{length}
use curfew.Prelude.Text.{Text, codes, trim, as_bytes, ascii_lower}
use curfew.Config.{Tag}

-- One hexadecimal digit, and `{b:02x}` of a byte.
abbrev pub hex_digit : ℕ → ℕ
hex_digit n = if ltb n 10 then 48 + n else 87 + n

abbrev pub hex : ℕ → Text
hex b = hex_digit (b / 16) ∷ hex_digit (b % 16) ∷ []

unfoldable pub hex_all : List ℕ → Text
hex_all [] = []
hex_all (b ∷ bs) = hex b ++ hex_all bs

-- `a ^ b` and `a | b` on the lowest bits.
unfoldable pub xor : ℕ → ℕ → ℕ → ℕ
xor zero a b = 0
xor (suc bits) a b = (a + b) % 2 + 2 * xor bits (a / 2) (b / 2)

unfoldable pub or : ℕ → ℕ → ℕ → ℕ
or zero a b = 0
or (suc bits) a b = max (a % 2) (b % 2) + 2 * or bits (a / 2) (b / 2)

-- The loop of `equal` over the bytes in pairs.
unfoldable pub differ : ℕ → List ℕ → List ℕ → ℕ
differ diff [] ys = diff
differ diff (x ∷ xs) [] = diff
differ diff (x ∷ xs) (y ∷ ys) = differ (or 8 diff (xor 8 x y)) xs ys

unfoldable pub equal : Text → Text → Bool
equal a b =
    (length (as_bytes a) == length (as_bytes b)) && (differ 0 (as_bytes a) (as_bytes b) == 0)

-- The loop of `identify`.
unfoldable pub identify_from : Text → Option Text → List Tag → Option Text
identify_from seen found [] = found
identify_from seen found (tag ∷ tags) =
    identify_from seen
      (if equal (map ascii_lower tag.hash) seen && is_none found then some tag.id else found) tags

-- SHA-256 is a parameter.
module _ (sha256 : List ℕ → List ℕ) where
  unfoldable pub fingerprint : Text → Text
  fingerprint payload = hex_all (sha256 (codes "curfew-token-v1" ++ as_bytes (trim payload)))

  unfoldable pub identify : List Tag → Text → Option Text
  identify tags payload = identify_from (fingerprint payload) none tags
