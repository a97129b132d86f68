-- ===== src/Prelude/Result.antt =====
-- Rust's `Result`.
use mathlib.Core.Path.{◌≡◌, refl}
use mathlib.Core.Logic.{◌⊎◌, inl, inr}
use mathlib.Core.Bool.{Bool, true, false}
use mathlib.Core.List.{List, [], ◌∷◌}
use curfew.Prelude.Tests.{Bool-cases}
use curfew.Prelude.Lists.{filter}

pub data Result {ℓ} (A : Type ℓ) (E : Type ℓ) : Type ℓ where
  ok : A → Result A E
  err : E → Result A E

pub Result-cases {ℓ} :
    {A E : Type ℓ} (r : Result A E) → ((a : A) × (r ≡ ok a)) ⊎ ((e : E) × (r ≡ err e))
Result-cases (ok a) = inl (a, refl)
Result-cases (err e) = inr (e, refl)

-- Checks, each an early return.
module _ {E : Type 0} where
  abbrev pub refuse_if : Bool → E → Result Unit E
  refuse_if true e = err e
  refuse_if false e = ok tt

  abbrev pub and_then : Result Unit E → Result Unit E → Result Unit E
  and_then (ok u) r = r
  and_then (err e) r = err e

  unfoldable pub check_all : {A : Type 0} → (A → Result Unit E) → List A → Result Unit E
  check_all check [] = ok tt
  check_all check (x ∷ xs) = and_then (check x) (check_all check xs)

  pub and_then-split : (a b : Result Unit E) → and_then a b ≡ ok tt → (a ≡ ok tt) × (b ≡ ok tt)
  and_then-split (ok u) b h = (refl, h)
  and_then-split (err e) b h = absurd (cc h)

  pub and_then-join : (a b : Result Unit E) → a ≡ ok tt → b ≡ ok tt → and_then a b ≡ ok tt
  and_then-join a b h k = rw h k

  pub refuse_if-passed : (b : Bool) (e : E) → refuse_if b e ≡ ok tt → b ≡ false
  refuse_if-passed true e h = absurd (cc h)
  refuse_if-passed false e h = refl

  pub check_all-filter :
      {A : Type 0} (check : A → Result Unit E) (p : A → Bool) (xs : List A)
      → check_all check xs ≡ ok tt
      → check_all check (filter p xs) ≡ ok tt
  unfolding check_all
  check_all-filter check p [] h = refl
  check_all-filter check p (x ∷ xs) h =
      let (first, rest) = and_then-split (check x) (check_all check xs) h in
      elim (Bool-cases (p x)) [
        | inl k ↦ rw (k, first) (check_all-filter check p xs rest)
        | inr k ↦ rw k (check_all-filter check p xs rest)
      ]

  pub split4 :
      (a b c d : Result Unit E)
      → and_then a (and_then b (and_then c d)) ≡ ok tt
      → (a ≡ ok tt) × (b ≡ ok tt) × (c ≡ ok tt) × (d ≡ ok tt)
  split4 a b c d h =
      let (p, h1) = and_then-split a (and_then b (and_then c d)) h in
      let (q, h2) = and_then-split b (and_then c d) h1 in
      let (r, h3) = and_then-split c d h2 in (p, q, r, h3)
