-- ===== src/Examples/Targets.antt =====
-- Examples of crates/curfew-core/src/target.rs.
use curfew.Prelude.{◌≡◌, ◌↔◌, refl, Bool, true, false, none, some, ◌∷◌, ◌++◌, map}
use curfew.Prelude.Lists.{length, All}
use curfew.Prelude.Text.{
  codes, eq_byte_ci, ascii_lower, is_ascii, trim, trim_start, trim_end, is_whitespace,
  to_ascii_lowercase, as_bytes, utf8_char, eq_ignore_ascii_case,
}
use curfew.Prelude.Unicode.{Unicode}
use curfew.Glob.{star, only_stars, glob_loop, enough, glob_match_with, glob_match_ascii}
use curfew.Glob.Fuel.{glob_loop-total}
use curfew.Glob.Spec.{glob, glob_match_with-exact}
use curfew.Domain.{domain_matches, cleaned, trim_dots, covers}
use curfew.Domain.Suffix.{IsCovered, domain_matches-exact}
use curfew.Url.{parse, normalized, prefixed, questioned}
use curfew.Url.Parts.{Address, printed, parsed, parse-printed}
use curfew.Target.{app_package, key}

-- The ASCII mapping, for any text.
abbrev ascii_only : Unicode
ascii_only = record { to_lowercase = λ s. map ascii_lower s; to_lowercase-ascii = λ s h. refl }

-- The last `*` is taken back more than once.
glob_run : glob_match_ascii (codes "*/shorts/*") (codes "youtube/short/Shorts/x") ≡ true
unfolding glob_match_ascii glob_loop only_stars eq_byte_ci ascii_lower
glob_run = refl

glob_loop-total_example :
    (b : Bool) × (glob_loop eq_byte_ci
        (enough (length (codes "a*")) (length (codes "abc")))
        (codes "a*")
        (codes "abc")
        none
      ≡ some b)
glob_loop-total_example = glob_loop-total eq_byte_ci (codes "a*") (codes "abc")

no_star_in_text : All (λ c. eq_byte_ci star c ≡ false) (codes "ab/c")
unfolding eq_byte_ci ascii_lower
no_star_in_text = (refl, (refl, (refl, (refl, tt))))

glob_match_with-exact_example :
    glob_match_with eq_byte_ci (codes "a*c") (codes "ab/c")
    ≡ glob eq_byte_ci (codes "a*c") (codes "ab/c")
glob_match_with-exact_example =
    glob_match_with-exact eq_byte_ci (codes "a*c") (codes "ab/c") no_star_in_text

subdomain : domain_matches (codes "reddit.com") (codes "Old.Reddit.com.") ≡ true
unfolding domain_matches covers trim_dots trim trim_start trim_end is_whitespace as_bytes utf8_char
    eq_ignore_ascii_case eq_byte_ci ascii_lower
subdomain = refl

domain_matches-exact_example :
    (domain_matches (codes "reddit.com") (codes "notreddit.com") ≡ true)
    ↔ IsCovered (cleaned (codes "reddit.com")) (cleaned (codes "notreddit.com"))
domain_matches-exact_example = domain_matches-exact (codes "reddit.com") (codes "notreddit.com")

abbrev address : Address
address = record {
  scheme = codes "HTTPS";
  credentials = codes "me";
  host = codes "GitHub.com";
  port = codes "443";
  path = codes "User/Repo";
  query = codes "tab=Code";
  fragment = codes "top";
}

address_untrimmed : trim (printed address) ≡ printed address
unfolding trim trim_start trim_end is_whitespace
address_untrimmed = refl

parse-printed_example :
    (parse ascii_only (printed address) ≡ parsed ascii_only address)
    × (normalized (parse ascii_only (printed address))
        ≡ prefixed (to_ascii_lowercase address.scheme)
          ++ ascii_only.to_lowercase address.host
          ++ (b'/' ∷ address.path)
          ++ questioned address.query)
parse-printed_example = parse-printed ascii_only address refl address_untrimmed

same_key :
    key ascii_only (app_package (codes "com.X")) ≡ key ascii_only (app_package (codes "com.x"))
unfolding key ascii_lower
same_key = refl

ascii_upper : is_ascii (codes "com.X") ≡ true
unfolding is_ascii
ascii_upper = refl

ascii_small : is_ascii (codes "com.x") ≡ true
unfolding is_ascii
ascii_small = refl
