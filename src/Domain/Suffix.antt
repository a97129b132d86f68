-- ===== src/Domain/Suffix.antt =====
-- `domain_matches` of crates/curfew-core/src/target.rs and the suffixes that stand behind a dot.
use curfew.Prelude.{
  ℕ, zero, suc, ◌≡◌, ◌≢◌, ◌↔◌, ◌⊎◌, inl, inr, ◌+◌, ◌-◌, refl, sym, ap, subst, true, some, List, [],
  ◌∷◌, ◌++◌, arith, ltb, ◌==◌, Bool-cases, is_some_and, and-split,
}
use curfew.Prelude.Lists.{length, length-append, drop, get_elem?}
use curfew.Prelude.Text.{Text, eq_ignore_ascii_case}
use curfew.Domain.{dot, cleaned, covers, domain_matches}

eq_ignore_ascii_case-length :
    (xs ys : List ℕ) → eq_ignore_ascii_case xs ys ≡ true → length xs ≡ length ys
unfolding eq_ignore_ascii_case
eq_ignore_ascii_case-length [] [] h = refl
eq_ignore_ascii_case-length [] (y ∷ ys) h = absurd (cc h)
eq_ignore_ascii_case-length (x ∷ xs) [] h = absurd (cc h)
eq_ignore_ascii_case-length (x ∷ xs) (y ∷ ys) h =
    ap suc (eq_ignore_ascii_case-length xs ys (ground (arith, h)))

get_elem?-append : (p : List ℕ) (d : ℕ) (s : List ℕ) → get_elem? (p ++ d ∷ s) (length p) ≡ some d
get_elem?-append [] d s = refl
get_elem?-append (x ∷ p) d s = get_elem?-append p d s

drop-append : (p : List ℕ) (d : ℕ) (s : List ℕ) → drop (suc (length p)) (p ++ d ∷ s) ≡ s
drop-append [] d s = refl
drop-append (x ∷ p) d s = drop-append p d s

split_at :
    (o : List ℕ) (n : ℕ) {d : ℕ}
    → get_elem? o n ≡ some d
    → (p : List ℕ) × (o ≡ p ++ d ∷ drop (suc n) o)
split_at [] n h = absurd (cc h)
split_at (x ∷ o) zero h = ([], ground (arith, h))
split_at (x ∷ o) (suc n) h = let (p, e) = split_at o n h in (x ∷ p, ap (◌∷◌ x) e)

-- The name itself in either case, or what stands behind a dot of it, is the rule.
abbrev pub IsCovered : List ℕ → List ℕ → Type 0
IsCovered rule observed =
    (length rule ≢ 0)
    × ((eq_ignore_ascii_case observed rule ≡ true)
        ⊎ ((label : List ℕ) × (suffix : List ℕ) × (observed ≡ label ++ dot ∷ suffix)
            × (eq_ignore_ascii_case suffix rule ≡ true)))

behind_dot :
    (o : List ℕ) (n : ℕ)
    → is_some_and (get_elem? o n) (λ b. b == dot) ≡ true
    → get_elem? o n ≡ some dot
behind_dot o n h = ground (arith, h)

covers→IsCovered : (r o : List ℕ) → covers r o ≡ true → IsCovered r o
unfolding covers
covers→IsCovered r o h = elim (Bool-cases (length r == 0)) [
  | inl e ↦ absurd (cc (rw e at h))
  | inr e ↦
      let full : length r ≢ 0 = ground (arith, e) in
      elim (Bool-cases (ltb (length o) (length r))) [
        | inl f ↦ absurd (cc (rw (e, f) at h))
        | inr f ↦ elim (Bool-cases (length o == length r)) [
          | inl g ↦ (full, inl (rw (e, f, g) at h))
          | inr g ↦
              let (at, same) =
                and-split (is_some_and (get_elem? o (length o - length r - 1)) (λ b. b == dot))
                  (eq_ignore_ascii_case (drop (length o - length r) o) r) (rw (e, f, g) at h) in
              let (p, split) =
                split_at o (length o - length r - 1) (behind_dot o (length o - length r - 1) at) in
              let n : suc (length o - length r - 1) ≡ length o - length r = ground (arith, f, g) in
              (
                full,
                inr (
                  p,
                  drop (length o - length r) o,
                  subst (λ k. o ≡ p ++ dot ∷ drop k o) n split,
                  same,
                ),
              )
        ]
      ]
]

IsCovered→covers : (r o : List ℕ) → IsCovered r o → covers r o ≡ true
unfolding covers
IsCovered→covers r o (full, inl same) =
    let l = eq_ignore_ascii_case-length o r same in ground (arith, full, l, same)
IsCovered→covers r o (full, inr (p, s, e, same)) =
    subst (λ z. covers r z ≡ true) (sym e) (behind p s same)
  where
    behind : (p s : List ℕ) → eq_ignore_ascii_case s r ≡ true → covers r (p ++ dot ∷ s) ≡ true
    behind p s same =
        let l = eq_ignore_ascii_case-length s r same in
        let whole : length (p ++ dot ∷ s) ≡ length p + suc (length s) = length-append p (dot ∷ s) in
        let n : length (p ++ dot ∷ s) - length r ≡ suc (length p) = omega (arith, whole, l) in
        let m : suc (length p) - 1 ≡ length p = omega arith in
        rw (n, m, get_elem?-append p dot s, drop-append p dot s)
          (ground (arith, full, l, whole, same))

-- A domain rule covers an observed name exactly when the rule, trimmed of white space and dots, is not
-- empty, and the name, trimmed likewise, is the rule or ends with a dot and the rule, where ASCII
-- letters are compared in either case.
pub domain_matches-exact :
    (rule observed : Text)
    → (domain_matches rule observed ≡ true) ↔ IsCovered (cleaned rule) (cleaned observed)
unfolding domain_matches
domain_matches-exact rule observed = (
  covers→IsCovered (cleaned rule) (cleaned observed),
  IsCovered→covers (cleaned rule) (cleaned observed),
)
