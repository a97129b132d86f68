-- ===== src/Prelude/Text.antt =====
-- A `str` as the list of its code points, and what the code uses of `str` and `[u8]`.
use Prim.Native.Nat.{ℕ, ◌+◌, ◌/◌, ◌%◌}
use Prim.Native.Char.{code}
use Prim.Native.String.{String}
use mathlib.Core.Path.{◌≡◌}
use mathlib.Core.Bool.{Bool, true, false, ◌&&◌, ◌||◌}
use mathlib.Core.List.{List, [], ◌∷◌, ◌++◌, map, reverse}
use native.Mathlib.Omega.{arith}
use curfew.Prelude.Tests.{ltb, leb, ◌==◌, if◌then◌else◌}
use curfew.Prelude.Lists.{all}

abbrev pub Text : Type 0
Text = List ℕ

abbrev pub codes : String → Text
codes String.[] = []
codes (String.◌∷◌ c s) = code c ∷ codes s

unfoldable pub utf8_char : ℕ → List ℕ
utf8_char c =
    if ltb c 0x80
    then c ∷ []
    else if ltb c 0x800
    then (0xC0 + c / 64) ∷ (0x80 + c % 64) ∷ []
    else if ltb c 0x10000
    then (0xE0 + c / 4096) ∷ (0x80 + c / 64 % 64) ∷ (0x80 + c % 64) ∷ []
    else (0xF0 + c / 262144) ∷ (0x80 + c / 4096 % 64) ∷ (0x80 + c / 64 % 64) ∷ (0x80 + c % 64) ∷ []

-- `as_bytes()`
unfoldable pub as_bytes : Text → List ℕ
unfolding utf8_char
as_bytes [] = []
as_bytes (c ∷ cs) = utf8_char c ++ as_bytes cs

-- `is_ascii()`
unfoldable pub is_ascii : Text → Bool
is_ascii s = all (λ c. ltb c 128) s

-- `to_ascii_lowercase` of one byte
unfoldable pub ascii_lower : ℕ → ℕ
ascii_lower c = if leb b'A' c && leb c b'Z' then c + 32 else c

-- `u8::eq_ignore_ascii_case`
unfoldable pub eq_byte_ci : ℕ → ℕ → Bool
unfolding ascii_lower
eq_byte_ci a b = ascii_lower a == ascii_lower b

-- `eq_ignore_ascii_case` of two slices of bytes
unfoldable pub eq_ignore_ascii_case : List ℕ → List ℕ → Bool
unfolding eq_byte_ci
eq_ignore_ascii_case [] [] = true
eq_ignore_ascii_case [] (y ∷ ys) = false
eq_ignore_ascii_case (x ∷ xs) [] = false
eq_ignore_ascii_case (x ∷ xs) (y ∷ ys) = eq_byte_ci x y && eq_ignore_ascii_case xs ys

-- `char::is_whitespace`: the code points with the property White_Space
unfoldable pub is_whitespace : ℕ → Bool
is_whitespace c =
    (leb 9 c && leb c 13)
    || ((c == 0x20)
        || ((c == 0x85)
            || ((c == 0xA0)
                || ((c == 0x1680)
                    || ((leb 0x2000 c && leb c 0x200A)
                        || ((c == 0x2028)
                            || ((c == 0x2029)
                                || ((c == 0x202F) || ((c == 0x205F) || (c == 0x3000))))))))))

unfoldable pub trim_start : (ℕ → Bool) → Text → Text
trim_start p [] = []
trim_start p (c ∷ cs) = let rest = trim_start p cs in if p c then rest else c ∷ cs

unfoldable pub trim_end : (ℕ → Bool) → Text → Text
unfolding trim_start
trim_end p s = reverse (trim_start p (reverse s))

-- `trim()`
unfoldable pub trim : Text → Text
unfolding trim_start trim_end is_whitespace
trim s = trim_end is_whitespace (trim_start is_whitespace s)

-- `str::eq_ignore_ascii_case`
unfoldable pub str_eq_ci : Text → Text → Bool
str_eq_ci a b = eq_ignore_ascii_case (as_bytes a) (as_bytes b)

-- `to_ascii_lowercase()`
abbrev pub to_ascii_lowercase : Text → Text
to_ascii_lowercase s = map ascii_lower s

unfoldable pub is_prefix : Text → Text → Bool
is_prefix [] s = true
is_prefix (c ∷ p) [] = false
is_prefix (c ∷ p) (d ∷ s) = (c == d) && is_prefix p s

-- `haystack.contains(needle)`
unfoldable pub contains : Text → Text → Bool
unfolding is_prefix
contains [] needle = is_prefix needle []
contains (c ∷ s) needle = is_prefix needle (c ∷ s) || contains s needle

-- `replace('\\', "/")`
abbrev pub slashes : Text → Text
slashes s = map (λ c. if c == b'\\' then b'/' else c) s

-- The text before the first character that passes, and the text from there on.
unfoldable pub break_at : (ℕ → Bool) → Text → Text × Text
break_at p [] = ([], [])
break_at p (c ∷ s) =
    let (before, rest) = break_at p s in if p c then ([], c ∷ s) else (c ∷ before, rest)

pub eq_byte_ci_symm : (a b : ℕ) → eq_byte_ci a b ≡ eq_byte_ci b a
unfolding eq_byte_ci
eq_byte_ci_symm a b = ground arith

pub eq_byte_ci_trans :
    (a b c : ℕ) → eq_byte_ci a b ≡ true → eq_byte_ci b c ≡ true → eq_byte_ci a c ≡ true
unfolding eq_byte_ci
eq_byte_ci_trans a b c p q = ground arith
