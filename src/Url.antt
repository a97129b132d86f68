-- ===== src/Url.antt =====
-- crates/curfew-core/src/target.rs, `Url`: the parts of an address that rules are matched against.
pub mod Parts
use curfew.Prelude.{
  ℕ, Bool, true, false, not, ◌||◌, List, [], ◌∷◌, ◌++◌, Option, none, some, ◌==◌, if◌then◌else◌,
}
use curfew.Prelude.Text.{Text, codes, trim, break_at, is_prefix, to_ascii_lowercase}
use curfew.Prelude.Lists.{any, drop}
use curfew.Prelude.Unicode.{Unicode}

pub record Url : Type 0 where
  pub raw : Text
  pub host : Text
  pub scheme : Text
  pub path : Text
  pub query : Text

abbrev pub separator : Text
separator = codes "://"

-- `find("://")`: the text before it and the text behind it.
unfoldable pub split_scheme : Text → Option (Text × Text)
split_scheme [] = none
split_scheme (c ∷ s) =
    let rest = split_scheme s in
    if is_prefix separator (c ∷ s)
    then some ([], drop 3 (c ∷ s))
    else elim rest [ none ↦ none | some (before, behind) ↦ some (c ∷ before, behind) ]

abbrev pub ends_authority : ℕ → Bool
ends_authority c = (c == b'/') || ((c == b'?') || (c == b'#'))

-- `rsplit('@').next()`: what stands behind the last `@`, or everything.
unfoldable pub behind_last_at : Text → Text
behind_last_at [] = []
behind_last_at (c ∷ s) =
    let rest = behind_last_at s in
    if any (λ d. d == b'@') s then rest else if c == b'@' then s else c ∷ s

-- `split(c).next()`: what stands before the first `c`, or everything.
abbrev pub before_first : ℕ → Text → Text
before_first c s = (break_at (λ d. d == c) s).0

-- The path, and the query behind the first question mark.
abbrev path_and_query : Text × Text → Text × Text
path_and_query (before, []) = (before, [])
path_and_query (before, mark ∷ query) = (before, query)

-- The scheme in lower case, and what follows it.
abbrev scheme_of : Text → Option (Text × Text) → Text × Text
scheme_of trimmed none = ([], trimmed)
scheme_of trimmed (some (before, behind)) = (to_ascii_lowercase before, behind)

module _ (unicode : Unicode) where
  unfoldable pub parse : Text → Url
  parse text =
      let trimmed = trim text in
      let (scheme, after_scheme) = scheme_of trimmed (split_scheme trimmed) in
      let (authority, rest) = break_at ends_authority after_scheme in
      let host = unicode.to_lowercase (before_first b':' (behind_last_at authority)) in
      let without_fragment = before_first b'#' rest in
      let (path, query) = path_and_query (break_at (λ d. d == b'?') without_fragment) in
      record { raw = trimmed; host = host; scheme = scheme; path = path; query = query }

abbrev pub prefixed : Text → Text
prefixed [] = []
prefixed (c ∷ s) = (c ∷ s) ++ separator

abbrev pub questioned : Text → Text
questioned [] = []
questioned (c ∷ s) = b'?' ∷ c ∷ s

unfoldable pub normalized : Url → Text
normalized url = prefixed url.scheme ++ url.host ++ url.path ++ questioned url.query
