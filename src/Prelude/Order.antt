-- ===== src/Prelude/Order.antt =====
-- Rust's `Eq` and `Ord` as an interface: tests with the laws of a strict total order. A type that
-- derives `Ord` compares by a key, a list of numbers in lexicographic order.
use Prim.Native.Nat.{ℕ}
use mathlib.Core.Path.{◌≡◌, refl, ap₂}
use mathlib.Core.Logic.{◌↔◌, inl, inr}
use mathlib.Core.Bool.{Bool, true, false, ◌&&◌, ◌||◌}
use mathlib.Core.List.{List, [], ◌∷◌}
use native.Mathlib.Omega.{arith}
use curfew.Prelude.Tests.{ltb, ◌==◌, Bool-cases, and-split}

pub record Ord {ℓ} (A : Type ℓ) : Type ℓ where
  pub lt : A → A → Bool
  pub beq : A → A → Bool
  pub beq_iff : (a b : A) → (beq a b ≡ true) ↔ (a ≡ b)
  pub lt_irrefl : (a : A) → lt a a ≡ false
  pub lt_trans : (a b c : A) → lt a b ≡ true → lt b c ≡ true → lt a c ≡ true
  pub lt_connex : (a b : A) → lt a b ≡ false → lt b a ≡ false → a ≡ b

unfoldable pub list_eq : List ℕ → List ℕ → Bool
list_eq [] [] = true
list_eq [] (y ∷ ys) = false
list_eq (x ∷ xs) [] = false
list_eq (x ∷ xs) (y ∷ ys) = (x == y) && list_eq xs ys

unfoldable pub list_lt : List ℕ → List ℕ → Bool
list_lt [] [] = false
list_lt [] (y ∷ ys) = true
list_lt (x ∷ xs) [] = false
list_lt (x ∷ xs) (y ∷ ys) = ltb x y || ((x == y) && list_lt xs ys)

pub list_eq→eq : (xs ys : List ℕ) → list_eq xs ys ≡ true → xs ≡ ys
unfolding list_eq
list_eq→eq [] [] h = refl
list_eq→eq [] (y ∷ ys) h = cc
list_eq→eq (x ∷ xs) [] h = cc
list_eq→eq (x ∷ xs) (y ∷ ys) h = ground (arith, list_eq→eq xs ys)

pub list_eq_refl : (xs : List ℕ) → list_eq xs xs ≡ true
unfolding list_eq
list_eq_refl [] = refl
list_eq_refl (x ∷ xs) = ground (arith, list_eq_refl xs)

pub list_eq_iff : (xs ys : List ℕ) → (list_eq xs ys ≡ true) ↔ (xs ≡ ys)
list_eq_iff xs ys = (list_eq→eq xs ys, λ e. rw e (list_eq_refl ys))

pub list_lt_irrefl : (xs : List ℕ) → list_lt xs xs ≡ false
unfolding list_lt
list_lt_irrefl [] = refl
list_lt_irrefl (x ∷ xs) = ground (arith, list_lt_irrefl xs)

pub list_lt_trans :
    (xs ys zs : List ℕ) → list_lt xs ys ≡ true → list_lt ys zs ≡ true → list_lt xs zs ≡ true
unfolding list_lt
list_lt_trans [] [] zs p q = cc
list_lt_trans [] (y ∷ ys) [] p q = cc
list_lt_trans [] (y ∷ ys) (z ∷ zs) p q = refl
list_lt_trans (x ∷ xs) [] zs p q = cc
list_lt_trans (x ∷ xs) (y ∷ ys) [] p q = cc
list_lt_trans (x ∷ xs) (y ∷ ys) (z ∷ zs) p q = ground (arith, list_lt_trans xs ys zs)

pub list_lt_connex : (xs ys : List ℕ) → list_lt xs ys ≡ false → list_lt ys xs ≡ false → xs ≡ ys
unfolding list_lt
list_lt_connex [] [] p q = refl
list_lt_connex [] (y ∷ ys) p q = cc
list_lt_connex (x ∷ xs) [] p q = cc
list_lt_connex (x ∷ xs) (y ∷ ys) p q = ground (arith, list_lt_connex xs ys)

instance abbrev pub list_ord : Ord (List ℕ)
list_ord = record {
  lt = list_lt;
  beq = list_eq;
  beq_iff = list_eq_iff;
  lt_irrefl = list_lt_irrefl;
  lt_trans = list_lt_trans;
  lt_connex = list_lt_connex;
}

pub nat_beq_iff : (a b : ℕ) → ((a == b) ≡ true) ↔ (a ≡ b)
nat_beq_iff a b = ground arith

pub nat_lt_irrefl : (a : ℕ) → ltb a a ≡ false
nat_lt_irrefl a = ground arith

pub nat_lt_trans : (a b c : ℕ) → ltb a b ≡ true → ltb b c ≡ true → ltb a c ≡ true
nat_lt_trans a b c p q = ground arith

pub nat_lt_connex : (a b : ℕ) → ltb a b ≡ false → ltb b a ≡ false → a ≡ b
nat_lt_connex a b p q = ground arith

instance abbrev pub nat_ord : Ord ℕ
nat_ord = record {
  lt = ltb;
  beq = ◌==◌;
  beq_iff = nat_beq_iff;
  lt_irrefl = nat_lt_irrefl;
  lt_trans = nat_lt_trans;
  lt_connex = nat_lt_connex;
}

-- The order that a key induces.
module _ {ℓ} {A : Type ℓ} (key : A → List ℕ)
    (key_injective : (a b : A) → key a ≡ key b → a ≡ b) where
  pub key_iff : (a b : A) → (list_eq (key a) (key b) ≡ true) ↔ (a ≡ b)
  key_iff a b =
      (λ h. key_injective a b (list_eq→eq (key a) (key b) h), λ e. rw e (list_eq_refl (key b)))

  pub key_connex :
      (a b : A) → list_lt (key a) (key b) ≡ false → list_lt (key b) (key a) ≡ false → a ≡ b
  key_connex a b p q = key_injective a b (list_lt_connex (key a) (key b) p q)

  abbrev pub ord_by : Ord A
  ord_by = record {
    lt = λ a b. list_lt (key a) (key b);
    beq = λ a b. list_eq (key a) (key b);
    beq_iff = key_iff;
    lt_irrefl = λ a. list_lt_irrefl (key a);
    lt_trans = λ a b c. list_lt_trans (key a) (key b) (key c);
    lt_connex = key_connex;
  }

-- What holds of every such order.
module _ {ℓ} {A : Type ℓ} ⦃o : Ord A⦄ where
  pub beq_refl : (a : A) → o.beq a a ≡ true
  beq_refl a = (o.beq_iff a a).1 refl

  pub beq→eq : (a b : A) → o.beq a b ≡ true → a ≡ b
  beq→eq a b h = (o.beq_iff a b).0 h

  pub lt→ne : (a b : A) → o.lt a b ≡ true → o.beq a b ≡ false
  lt→ne a b h = elim (Bool-cases (o.beq a b)) [
    | inl e ↦ cc (h, o.lt_irrefl b, beq→eq a b e)
    | inr e ↦ e
  ]

  pub gt→ne : (a b : A) → o.lt b a ≡ true → o.beq a b ≡ false
  gt→ne a b h = elim (Bool-cases (o.beq a b)) [
    | inl e ↦ cc (h, o.lt_irrefl b, beq→eq a b e)
    | inr e ↦ e
  ]

  pub lt_asymm : (a b : A) → o.lt a b ≡ true → o.lt b a ≡ false
  lt_asymm a b h = elim (Bool-cases (o.lt b a)) [
    | inl e ↦ cc (o.lt_trans a b a h e, o.lt_irrefl a)
    | inr e ↦ e
  ]

  pub beq_symm : (a b : A) → o.beq a b ≡ o.beq b a
  beq_symm a b = elim (Bool-cases (o.beq a b)) [
    | inl e ↦ cc (beq→eq a b e)
    | inr e ↦ elim (Bool-cases (o.beq b a)) [ inl f ↦ cc (beq→eq b a f) | inr f ↦ cc (e, f) ]
  ]

  pub beq-not_lt : (a b : A) → o.lt a b ≡ false → o.lt b a ≡ false → o.beq a b ≡ true
  beq-not_lt a b p q = (o.beq_iff a b).1 (o.lt_connex a b p q)

-- The derived order of a pair: the first components decide, then the second.
module _ {ℓ κ} {A : Type ℓ} {B : Type κ} ⦃o : Ord A⦄ ⦃r : Ord B⦄ where
  abbrev pub pair_lt : A × B → A × B → Bool
  pair_lt x y = o.lt x.0 y.0 || (o.beq x.0 y.0 && r.lt x.1 y.1)

  abbrev pub pair_beq : A × B → A × B → Bool
  pair_beq x y = o.beq x.0 y.0 && r.beq x.1 y.1

  pub pair_beq_iff : (x y : A × B) → (pair_beq x y ≡ true) ↔ (x ≡ y)
  pair_beq_iff x y = (
    λ h.
        let (e, f) = and-split (o.beq x.0 y.0) (r.beq x.1 y.1) h in
        ap₂ (λ a b. (a, b)) (beq→eq x.0 y.0 e) (beq→eq x.1 y.1 f),
    λ e. rw e (ground (arith, beq_refl y.0, beq_refl y.1)),
  )

  pub pair_lt_irrefl : (x : A × B) → pair_lt x x ≡ false
  pair_lt_irrefl x = ground (arith, o.lt_irrefl x.0, r.lt_irrefl x.1)

  pub pair_lt_trans : (x y z : A × B) → pair_lt x y ≡ true → pair_lt y z ≡ true → pair_lt x z ≡ true
  pair_lt_trans x y z p q = elim (Bool-cases (o.lt x.0 y.0)) [
    | inl e ↦ elim (Bool-cases (o.lt y.0 z.0)) [
      | inl f ↦ ground (arith, o.lt_trans x.0 y.0 z.0 e f)
      | inr f ↦ ground (arith, beq→eq y.0 z.0)
    ]
    | inr e ↦ elim (Bool-cases (o.lt y.0 z.0)) [
      | inl f ↦ ground (arith, beq→eq x.0 y.0)
      | inr f ↦ ground (arith, beq→eq x.0 y.0, beq→eq y.0 z.0, r.lt_trans x.1 y.1 z.1)
    ]
  ]

  pub pair_lt_connex : (x y : A × B) → pair_lt x y ≡ false → pair_lt y x ≡ false → x ≡ y
  pair_lt_connex x y p q =
      let e : x.0 ≡ y.0 = o.lt_connex x.0 y.0 (ground arith) (ground arith) in
      ap₂ (λ a b. (a, b)) e
        (r.lt_connex x.1 y.1 (ground (arith, e, beq_refl x.0)) (ground (arith, e, beq_refl y.0)))

  instance abbrev pub pair_ord : Ord (A × B)
  pair_ord = record {
    lt = pair_lt;
    beq = pair_beq;
    beq_iff = pair_beq_iff;
    lt_irrefl = pair_lt_irrefl;
    lt_trans = pair_lt_trans;
    lt_connex = pair_lt_connex;
  }
