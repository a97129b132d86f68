-- ===== src/Target/Keys.antt =====
-- `key` and `matches` of crates/curfew-core/src/target.rs.
use curfew.Prelude.{ℕ, ◌≡◌, refl, sym, ◌∙◌, true, List, [], ◌∷◌, map, arith}
use curfew.Prelude.Text.{
  Text, as_bytes, utf8_char, is_ascii, ascii_lower, eq_byte_ci, eq_ignore_ascii_case, str_eq_ci,
}
use curfew.Prelude.Unicode.{Unicode}
use curfew.Target.{
  Target, Observation, app_package, windows_exe, notification_source, whole_device, app, window,
  notification, key, matches,
}

as_bytes-is_ascii : (s : Text) → is_ascii s ≡ true → as_bytes s ≡ s
unfolding as_bytes utf8_char is_ascii
as_bytes-is_ascii [] h = refl
as_bytes-is_ascii (c ∷ s) h = ground (arith, h, as_bytes-is_ascii s (ground (arith, h)))

-- Two names that agree in lower case are the same to a comparison that ignores case.
eq_ignore_ascii_case-lower :
    (p q s : List ℕ)
    → map ascii_lower p ≡ map ascii_lower q
    → eq_ignore_ascii_case p s ≡ eq_ignore_ascii_case q s
unfolding eq_ignore_ascii_case eq_byte_ci
eq_ignore_ascii_case-lower [] [] s h = refl
eq_ignore_ascii_case-lower [] (d ∷ q) s h = absurd (cc h)
eq_ignore_ascii_case-lower (c ∷ p) [] s h = absurd (cc h)
eq_ignore_ascii_case-lower (c ∷ p) (d ∷ q) [] h = refl
eq_ignore_ascii_case-lower (c ∷ p) (d ∷ q) (e ∷ s) h =
    let first : ascii_lower c ≡ ascii_lower d = cc h in
    let rest = eq_ignore_ascii_case-lower p q s (cc h) in rw (first, rest)

module _ (unicode : Unicode) where
  str_eq_ci-lower :
      (p q s : Text)
      → is_ascii p ≡ true
      → is_ascii q ≡ true
      → unicode.to_lowercase p ≡ unicode.to_lowercase q
      → str_eq_ci p s ≡ str_eq_ci q s
  unfolding str_eq_ci
  str_eq_ci-lower p q s h k e =
      rw (as_bytes-is_ascii p h, as_bytes-is_ascii q k)
        (eq_ignore_ascii_case-lower p q (as_bytes s)
          (sym (unicode.to_lowercase-ascii p h) ∙ e ∙ unicode.to_lowercase-ascii q k))

  -- A target that is the ASCII name of an app, of an executable or of a source of notifications, or
  -- the whole device.
  abbrev pub IsNamed : Target → Type 0
  IsNamed (app_package p) = is_ascii p ≡ true
  IsNamed (windows_exe p) = is_ascii p ≡ true
  IsNamed (notification_source p) = is_ascii p ≡ true
  IsNamed whole_device = Unit
  IsNamed _ = ⊥

  -- Two targets, each the ASCII name of an app, of an executable or of a source of notifications,
  -- or the whole device, that share a key match the same observations.
  pub key-matches :
      (a b : Target) (obs : Observation)
      → IsNamed a
      → IsNamed b
      → key unicode a ≡ key unicode b
      → matches unicode a obs ≡ matches unicode b obs
  unfolding key matches
  key-matches (app_package p) (app_package q) (app n s) h k e = str_eq_ci-lower p q n h k (cc e)
  key-matches (windows_exe p) (windows_exe q) (window n s) h k e = str_eq_ci-lower p q n h k (cc e)
  key-matches (notification_source p) (notification_source q) (notification n s) h k e =
      str_eq_ci-lower p q n h k (cc e)
  key-matches whole_device whole_device obs h k e = refl
  key-matches a b obs h k e = ground (arith, h, k, e)
