-- ===== src/Prelude/Equal.antt =====
-- A derived `PartialEq`: a Boolean test that holds exactly of equal values.
use Prim.Native.Nat.{ℕ}
use mathlib.Core.Path.{◌≡◌, refl, ap, ap₂}
use mathlib.Core.Logic.{◌↔◌}
use mathlib.Core.Bool.{Bool, true, false, ◌&&◌}
use mathlib.Core.Option.{Option, none, some}
use mathlib.Core.List.{List, [], ◌∷◌}
use native.Mathlib.Omega.{arith}
use curfew.Prelude.Tests.{◌==◌, and-split}
use curfew.Prelude.Order.{nat_beq_iff}

pub record Eq {ℓ} (A : Type ℓ) : Type ℓ where
  pub same : A → A → Bool
  pub same_iff : (a b : A) → (same a b ≡ true) ↔ (a ≡ b)

module _ {ℓ} {A : Type ℓ} ⦃q : Eq A⦄ where
  pub same_refl : (a : A) → q.same a a ≡ true
  same_refl a = (q.same_iff a a).1 refl

  pub same→eq : (a b : A) → q.same a b ≡ true → a ≡ b
  same→eq a b h = (q.same_iff a b).0 h

  -- Fields are compared by what they are mapped to.
  pub key_same_iff {κ} :
      {B : Type κ} (key : B → A) (key_injective : (a b : B) → key a ≡ key b → a ≡ b) (a b : B)
      → (q.same (key a) (key b) ≡ true) ↔ (a ≡ b)
  key_same_iff key key_injective a b = (
    λ h. key_injective a b (same→eq (key a) (key b) h),
    λ e. (q.same_iff (key a) (key b)).1 (ap key e),
  )

  abbrev pub eq_by {κ} : {B : Type κ} (key : B → A) → ((a b : B) → key a ≡ key b → a ≡ b) → Eq B
  eq_by key key_injective = record {
    same = λ a b. q.same (key a) (key b);
    same_iff = key_same_iff key key_injective;
  }

instance abbrev pub nat_eq : Eq ℕ
nat_eq = record { same = ◌==◌; same_iff = nat_beq_iff }

abbrev bool_same : Bool → Bool → Bool
bool_same true b = b
bool_same false true = false
bool_same false false = true

pub bool_same_iff : (a b : Bool) → (bool_same a b ≡ true) ↔ (a ≡ b)
bool_same_iff true b = (λ h. cc, λ h. cc)
bool_same_iff false true = (λ h. cc, λ h. cc)
bool_same_iff false false = (λ h. refl, λ h. refl)

instance abbrev pub bool_eq : Eq Bool
bool_eq = record { same = bool_same; same_iff = bool_same_iff }

module _ {ℓ κ} {A : Type ℓ} {B : Type κ} ⦃q : Eq A⦄ ⦃r : Eq B⦄ where
  abbrev pair_same : A × B → A × B → Bool
  pair_same x y = q.same x.0 y.0 && r.same x.1 y.1

  pub pair_same_iff : (x y : A × B) → (pair_same x y ≡ true) ↔ (x ≡ y)
  pair_same_iff x y = (
    λ h.
        let (e, f) = and-split (q.same x.0 y.0) (r.same x.1 y.1) h in
        ap₂ (λ a b. (a, b)) (same→eq x.0 y.0 e) (same→eq x.1 y.1 f),
    λ e. rw e (ground (arith, same_refl y.0, same_refl y.1)),
  )

  instance abbrev pub pair_eq : Eq (A × B)
  pair_eq = record { same = pair_same; same_iff = pair_same_iff }

module _ {ℓ} {A : Type ℓ} ⦃q : Eq A⦄ where
  unfoldable pub list_same : List A → List A → Bool
  list_same [] [] = true
  list_same [] (y ∷ ys) = false
  list_same (x ∷ xs) [] = false
  list_same (x ∷ xs) (y ∷ ys) = q.same x y && list_same xs ys

  list_same→eq : (xs ys : List A) → list_same xs ys ≡ true → xs ≡ ys
  unfolding list_same
  list_same→eq [] [] h = refl
  list_same→eq [] (y ∷ ys) h = absurd (cc h)
  list_same→eq (x ∷ xs) [] h = absurd (cc h)
  list_same→eq (x ∷ xs) (y ∷ ys) h =
      let (e, f) = and-split (q.same x y) (list_same xs ys) h in
      ap₂ ◌∷◌ (same→eq x y e) (list_same→eq xs ys f)

  list_same_refl : (xs : List A) → list_same xs xs ≡ true
  unfolding list_same
  list_same_refl [] = refl
  list_same_refl (x ∷ xs) = ground (arith, same_refl x, list_same_refl xs)

  pub list_same_iff : (xs ys : List A) → (list_same xs ys ≡ true) ↔ (xs ≡ ys)
  list_same_iff xs ys = (list_same→eq xs ys, λ e. rw e (list_same_refl ys))

  instance abbrev pub list_same_eq : Eq (List A)
  list_same_eq = record { same = list_same; same_iff = list_same_iff }

  abbrev option_same : Option A → Option A → Bool
  option_same none none = true
  option_same (some a) (some b) = q.same a b
  option_same _ _ = false

  pub option_same_iff : (x y : Option A) → (option_same x y ≡ true) ↔ (x ≡ y)
  option_same_iff none none = (λ h. refl, λ e. refl)
  option_same_iff none (some b) = (λ h. absurd (cc h), λ e. absurd (cc e))
  option_same_iff (some a) none = (λ h. absurd (cc h), λ e. absurd (cc e))
  option_same_iff (some a) (some b) =
      (λ h. ap some (same→eq a b h), λ e. let f : a ≡ b = cc e in rw f (same_refl b))

  instance abbrev pub option_eq : Eq (Option A)
  option_eq = record { same = option_same; same_iff = option_same_iff }
