-- ===== src/Url/Parts.antt =====
-- `Url::parse` of crates/curfew-core/src/target.rs on an address that is put together from its
-- parts.
use mathlib.Core.List.{append_assoc}
use curfew.Prelude.{
  ℕ, ◌≡◌, refl, sym, ap, ◌∙◌, Bool, true, false, not, ◌&&◌, ◌||◌, [], ◌∷◌, ◌++◌, some, arith, ◌==◌,
  Bool-cases, inl, inr,
}
use curfew.Prelude.Lists.{all, any}
use curfew.Prelude.Text.{Text, trim, break_at, is_prefix, to_ascii_lowercase}
use curfew.Prelude.Unicode.{Unicode}
use curfew.Url.{
  Url, separator, split_scheme, ends_authority, behind_last_at, before_first, parse, prefixed,
  questioned, normalized,
}

-- No character of the text passes.
abbrev pub avoids : (ℕ → Bool) → Text → Bool
avoids p s = all (λ c. not (p c)) s

break_at-append :
    (p : ℕ → Bool) (s : Text) (c : ℕ) (t : Text)
    → avoids p s ≡ true
    → p c ≡ true
    → break_at p (s ++ c ∷ t) ≡ (s, c ∷ t)
unfolding break_at
break_at-append p [] c t h k = rw k
break_at-append p (d ∷ s) c t h k =
    let e : p d ≡ false = ground (arith, h) in
    let r = break_at-append p s c t (ground (arith, h)) k in rw (r, e)

break_at-all : (p : ℕ → Bool) (s : Text) → avoids p s ≡ true → break_at p s ≡ (s, [])
unfolding break_at
break_at-all p [] h = refl
break_at-all p (d ∷ s) h =
    let e : p d ≡ false = ground (arith, h) in
    let r = break_at-all p s (ground (arith, h)) in rw (r, e)

avoids-any : (p : ℕ → Bool) (s : Text) → avoids p s ≡ true → any p s ≡ false
avoids-any p [] h = refl
avoids-any p (d ∷ s) h = ground (arith, h, avoids-any p s (ground (arith, h)))

avoids-append :
    (p : ℕ → Bool) (s t : Text) → avoids p s ≡ true → avoids p t ≡ true → avoids p (s ++ t) ≡ true
avoids-append p [] t h k = k
avoids-append p (d ∷ s) t h k = ground (arith, h, avoids-append p s t (ground (arith, h)) k)

any-behind : (p : ℕ → Bool) (s : Text) (c : ℕ) (t : Text) → p c ≡ true → any p (s ++ c ∷ t) ≡ true
any-behind p [] c t h = ground (arith, h)
any-behind p (d ∷ s) c t h = ground (arith, any-behind p s c t h)

abbrev at_sign : ℕ → Bool
at_sign c = c == b'@'

behind_last_at-append : (s t : Text) → avoids at_sign t ≡ true → behind_last_at (s ++ b'@' ∷ t) ≡ t
unfolding behind_last_at
behind_last_at-append [] t h = rw (avoids-any at_sign t h)
behind_last_at-append (d ∷ s) t h =
    let more = any-behind at_sign s b'@' t refl in rw more (behind_last_at-append s t h)

abbrev colon : ℕ → Bool
colon c = c == b':'

abbrev hash : ℕ → Bool
hash c = c == b'#'

abbrev question_mark : ℕ → Bool
question_mark c = c == b'?'

split_scheme-append :
    (s t : Text) → avoids colon s ≡ true → split_scheme (s ++ (separator ++ t)) ≡ some (s, t)
unfolding split_scheme is_prefix
split_scheme-append [] t h = refl
split_scheme-append (d ∷ s) t h =
    let r = split_scheme-append s t (ground (arith, h)) in
    let e : (b':' == d) ≡ false = ground (arith, h) in rw (r, e)

-- The parts of an address, those that do not take part in matching included.
pub record Address : Type 0 where
  pub scheme : Text
  pub credentials : Text
  pub host : Text
  pub port : Text
  pub path : Text
  pub query : Text
  pub fragment : Text

-- Behind the scheme.
abbrev pub rest_of : Address → Text
rest_of a = b'/' ∷ (a.path ++ b'?' ∷ (a.query ++ b'#' ∷ a.fragment))

abbrev pub authority_of : Address → Text
authority_of a = a.credentials ++ b'@' ∷ (a.host ++ b':' ∷ a.port)

abbrev pub printed : Address → Text
printed a = a.scheme ++ (separator ++ (authority_of a ++ rest_of a))

abbrev pub in_host : ℕ → Bool
in_host c = ends_authority c || (at_sign c || colon c)

-- No part contains a character that would end it.
abbrev pub well_formed : Address → Bool
well_formed a =
    avoids colon a.scheme
    && (avoids ends_authority a.credentials
        && (avoids in_host a.host
            && (avoids (λ c. ends_authority c || at_sign c) a.port
                && (avoids (λ c. question_mark c || hash c) a.path && avoids hash a.query))))

avoids-weaken :
    (p q : ℕ → Bool) (s : Text)
    → ((c : ℕ) → p c ≡ true → q c ≡ true)
    → avoids q s ≡ true
    → avoids p s ≡ true
avoids-weaken p q [] f h = refl
avoids-weaken p q (d ∷ s) f h =
    let rest = avoids-weaken p q s f (ground (arith, h)) in
    elim (Bool-cases (p d)) [
      | inl e ↦ let bad = f d e in absurd (ground (arith, h, bad))
      | inr e ↦ ground (arith, e, rest)
    ]

authority_avoids :
    (a : Address)
    → avoids ends_authority a.credentials ≡ true
    → avoids ends_authority a.host ≡ true
    → avoids ends_authority a.port ≡ true
    → avoids ends_authority (authority_of a) ≡ true
authority_avoids a h k l =
    avoids-append ends_authority a.credentials (b'@' ∷ (a.host ++ b':' ∷ a.port)) h
      (avoids-append ends_authority a.host (b':' ∷ a.port) k l)

host_of :
    (a : Address)
    → avoids at_sign a.host ≡ true
    → avoids colon a.host ≡ true
    → avoids at_sign a.port ≡ true
    → before_first b':' (behind_last_at (authority_of a)) ≡ a.host
host_of a h k l =
    let cut =
      behind_last_at-append a.credentials (a.host ++ b':' ∷ a.port)
        (avoids-append at_sign a.host (b':' ∷ a.port) h l) in
    rw cut (ap (λ r. r.0) (break_at-append colon a.host b':' a.port k refl))

-- What stands before the fragment.
without_fragment_of :
    (a : Address)
    → avoids hash a.path ≡ true
    → avoids hash a.query ≡ true
    → before_first b'#' (rest_of a) ≡ b'/' ∷ (a.path ++ b'?' ∷ a.query)
without_fragment_of a h k =
    let split =
      break_at-append hash (b'/' ∷ (a.path ++ b'?' ∷ a.query)) b'#' a.fragment
        (avoids-append hash a.path (b'?' ∷ a.query) h k) refl in
    let whole = append_assoc (b'/' ∷ a.path) (b'?' ∷ a.query) (b'#' ∷ a.fragment) in
    ap (before_first b'#') (sym whole) ∙ ap (λ r. r.0) split

module _ (unicode : Unicode) where
  -- What `parse` makes of an address.
  abbrev pub parsed : Address → Url
  parsed a = record {
    raw = printed a;
    host = unicode.to_lowercase a.host;
    scheme = to_ascii_lowercase a.scheme;
    path = b'/' ∷ a.path;
    query = a.query;
  }

  -- An address that is printed from its parts, none of which contains a character that ends it, and
  -- that trimming leaves alone, is parsed into those parts: scheme and host in lower case, path and
  -- query as they were. Its normal form has no credentials, no port and no fragment.
  pub parse-printed :
      (a : Address)
      → well_formed a ≡ true
      → trim (printed a) ≡ printed a
      → (parse unicode (printed a) ≡ parsed a)
        × (normalized (parse unicode (printed a))
            ≡ prefixed (to_ascii_lowercase a.scheme)
              ++ unicode.to_lowercase a.host
              ++ (b'/' ∷ a.path)
              ++ questioned a.query)
  unfolding parse normalized
  parse-printed a h t =
      let scheme_ok : avoids colon a.scheme ≡ true = ground (arith, h) in
      let at_ok : avoids at_sign a.host ≡ true =
        avoids-weaken at_sign in_host a.host (λ c e. ground (arith, e)) (ground (arith, h)) in
      let host_ok =
        avoids-weaken ends_authority in_host a.host (λ c e. ground (arith, e))
          (ground (arith, h)) in
      let colon_ok =
        avoids-weaken colon in_host a.host (λ c e. ground (arith, e)) (ground (arith, h)) in
      let ends_or_at : ℕ → Bool = λ c. ends_authority c || at_sign c in
      let port_ok =
        avoids-weaken ends_authority ends_or_at a.port (λ c e. ground (arith, e))
          (ground (arith, h)) in
      let port_at =
        avoids-weaken at_sign ends_or_at a.port (λ c e. ground (arith, e)) (ground (arith, h)) in
      let mark_or_hash : ℕ → Bool = λ c. question_mark c || hash c in
      let path_ok =
        avoids-weaken question_mark mark_or_hash a.path (λ c e. ground (arith, e))
          (ground (arith, h)) in
      let path_hash =
        avoids-weaken hash mark_or_hash a.path (λ c e. ground (arith, e)) (ground (arith, h)) in
      let e1 = split_scheme-append a.scheme (authority_of a ++ rest_of a) scheme_ok in
      let e2 =
        break_at-append ends_authority (authority_of a) b'/'
          (a.path ++ b'?' ∷ (a.query ++ b'#' ∷ a.fragment))
          (authority_avoids a (ground (arith, h)) host_ok port_ok) refl in
      let e3 = host_of a at_ok colon_ok port_at in
      let e4 = without_fragment_of a path_hash (ground (arith, h)) in
      let e5 = break_at-append question_mark (b'/' ∷ a.path) b'?' a.query path_ok refl in
      let whole : parse unicode (printed a) ≡ parsed a = rw (t, e1, e2, e3, e4, e5) in
      (whole, ap normalized whole)
