-- ===== src/Prelude/Lists.antt =====
-- Lists under Boolean tests: Rust's iterator methods on slices, and the predicate `All`.
use Prim.Native.Nat.{ℕ, zero, suc, ◌+◌, ◌≤◌}
use mathlib.Core.Path.{◌≡◌, refl, sym, ap, ◌∙◌, subst}
use mathlib.Core.Logic.{◌⊎◌, inl, inr}
use mathlib.Core.Bool.{Bool, true, false, ◌&&◌, ◌||◌}
use mathlib.Core.Option.{Option, none, some}
use mathlib.Core.List.{List, [], ◌∷◌, ◌++◌}
use native.Mathlib.Omega.{arith}
use curfew.Prelude.Tests.{if◌then◌else◌, Bool-cases}

module _ {ℓ} {A : Type ℓ} where
  abbrev pub length : List A → ℕ
  length [] = 0
  length (x ∷ xs) = suc (length xs)

  abbrev pub drop : ℕ → List A → List A
  drop zero xs = xs
  drop (suc n) [] = []
  drop (suc n) (x ∷ xs) = drop n xs

  -- `xs.get(n)`
  abbrev pub get_elem? : List A → ℕ → Option A
  get_elem? [] n = none
  get_elem? (x ∷ xs) zero = some x
  get_elem? (x ∷ xs) (suc n) = get_elem? xs n

  -- `iter().any(p)`
  abbrev pub any : (A → Bool) → List A → Bool
  any p [] = false
  any p (x ∷ xs) = p x || any p xs

  -- `iter().all(p)`
  abbrev pub all : (A → Bool) → List A → Bool
  all p [] = true
  all p (x ∷ xs) = p x && all p xs

  -- `iter().filter(p)`, `retain(p)`
  abbrev pub filter : (A → Bool) → List A → List A
  filter p [] = []
  filter p (x ∷ xs) = let rest = filter p xs in if p x then x ∷ rest else rest

  -- `iter().find(p)`
  abbrev pub find : (A → Bool) → List A → Option A
  find p [] = none
  find p (x ∷ xs) = let rest = find p xs in if p x then some x else rest

  abbrev pub All {κ} : (A → Type κ) → List A → Type κ
  All P [] = Unit
  All P (x ∷ xs) = P x × All P xs

module _ {ℓ} {A : Type ℓ} where
  pub All-filter {κ} :
      (P : A → Type κ) (p : A → Bool) (xs : List A) → All P xs → All P (filter p xs)
  All-filter P p [] h = tt
  All-filter P p (x ∷ xs) h = elim (Bool-cases (p x)) [
    | inl e ↦ rw e (h.0, All-filter P p xs h.1)
    | inr e ↦ rw e (All-filter P p xs h.1)
  ]

  pub All-map {κ μ} :
      (P : A → Type κ) (Q : A → Type μ) (xs : List A) → ((x : A) → P x → Q x) → All P xs → All Q xs
  All-map P Q [] f h = tt
  All-map P Q (x ∷ xs) f h = (f x h.0, All-map P Q xs f h.1)

  -- What `filter` keeps passes the test.
  pub filter-All : (p : A → Bool) (xs : List A) → All (λ x. p x ≡ true) (filter p xs)
  filter-All p [] = tt
  filter-All p (x ∷ xs) = elim (Bool-cases (p x)) [
    | inl e ↦ rw e (e, filter-All p xs)
    | inr e ↦ rw e (filter-All p xs)
  ]

  pub length-filter_le : (p : A → Bool) (xs : List A) → length (filter p xs) ≤ length xs
  length-filter_le p [] = omega arith
  length-filter_le p (x ∷ xs) = ground (arith, length-filter_le p xs)

module _ {ℓ} {A : Type ℓ} where
  -- `if let Some(x) = iter_mut().find(p) { *x = f(x) }`
  abbrev pub modify_first : (A → Bool) → (A → A) → List A → List A
  modify_first p f [] = []
  modify_first p f (x ∷ xs) = let rest = modify_first p f xs in if p x then f x ∷ xs else x ∷ rest

  -- `remove(position(p))`
  abbrev pub remove_first : (A → Bool) → List A → List A
  remove_first p [] = []
  remove_first p (x ∷ xs) = let rest = remove_first p xs in if p x then xs else x ∷ rest

module _ {A : Type 0} where
  -- Membership that can be taken apart.
  abbrev pub In : A → List A → Type 0
  In e [] = ⊥
  In e (x ∷ xs) = (e ≡ x) ⊎ In e xs

  pub In-append_left : (e : A) (xs ys : List A) → In e xs → In e (xs ++ ys)
  In-append_left e [] ys h = absurd h
  In-append_left e (x ∷ xs) ys (inl q) = inl q
  In-append_left e (x ∷ xs) ys (inr m) = inr (In-append_left e xs ys m)

  pub In-append_right : (e : A) (xs ys : List A) → In e ys → In e (xs ++ ys)
  In-append_right e [] ys h = h
  In-append_right e (x ∷ xs) ys h = inr (In-append_right e xs ys h)

  pub In-filter : (e : A) (p : A → Bool) (xs : List A) → In e xs → p e ≡ true → In e (filter p xs)
  In-filter e p [] h q = absurd h
  In-filter e p (x ∷ xs) (inl r) q = let k : p x ≡ true = ap p (sym r) ∙ q in rw k (inl r)
  In-filter e p (x ∷ xs) (inr m) q = elim (Bool-cases (p x)) [
    | inl k ↦ rw k (inr (In-filter e p xs m q))
    | inr k ↦ rw k (In-filter e p xs m q)
  ]

  -- The first element that passes is changed, and every other stays.
  pub In-modify_first :
      (e : A) (p : A → Bool) (f : A → A) (xs : List A)
      → In e xs
      → In e (modify_first p f xs) ⊎ ((p e ≡ true) × In (f e) (modify_first p f xs))
  In-modify_first e p f [] h = absurd h
  In-modify_first e p f (x ∷ xs) (inl q) = elim (Bool-cases (p x)) [
    | inl k ↦ rw k (inr (ap p q ∙ k, inl (ap f q)))
    | inr k ↦ rw k (inl (inl q))
  ]
  In-modify_first e p f (x ∷ xs) (inr m) = elim (Bool-cases (p x)) [
    | inl k ↦ rw k (inl (inr m))
    | inr k ↦ rw k (elim (In-modify_first e p f xs m) [
      | inl stays ↦ inl (inr stays)
      | inr (passes, changed) ↦ inr (passes, inr changed)
    ])
  ]

  pub find-some : (p : A → Bool) (xs : List A) {e : A} → find p xs ≡ some e → In e xs × (p e ≡ true)
  find-some p [] h = absurd (cc h)
  find-some p (x ∷ xs) {e} h = elim (Bool-cases (p x)) [
    | inl k ↦ let q : x ≡ e = cc (rw k at h) in (inl (sym q), ap p (sym q) ∙ k)
    | inr k ↦ let r = find-some p xs (rw k at h) in (inr r.0, r.1)
  ]

  pub find-none : (p : A → Bool) (xs : List A) → find p xs ≡ none → All (λ x. p x ≡ false) xs
  find-none p [] h = tt
  find-none p (x ∷ xs) h = elim (Bool-cases (p x)) [
    | inl k ↦ absurd (cc (rw k at h))
    | inr k ↦ (k, find-none p xs (rw k at h))
  ]

  pub All-In {κ} : (P : A → Type κ) (xs : List A) (e : A) → All P xs → In e xs → P e
  All-In P [] e h m = absurd m
  All-In P (x ∷ xs) e h (inl q) = subst P (sym q) h.0
  All-In P (x ∷ xs) e h (inr m) = All-In P xs e h.1 m

  pub All-append {κ} : (P : A → Type κ) (xs ys : List A) → All P xs → All P ys → All P (xs ++ ys)
  All-append P [] ys h k = k
  All-append P (x ∷ xs) ys h k = (h.0, All-append P xs ys h.1 k)

module _ {ℓ} {A : Type ℓ} where
  pub length-append : (xs ys : List A) → length (xs ++ ys) ≡ length xs + length ys
  length-append [] ys = omega arith
  length-append (x ∷ xs) ys = omega (arith, length-append xs ys)

module _ {ℓ} {A : Type ℓ} where
  abbrev pub last : List A → Option A
  last [] = none
  last (x ∷ xs) = elim (last xs) [ none ↦ some x | some y ↦ some y ]

  -- `skip(n)` is `drop`; a stable `sort_by` with the test that the order is `Less`.
  unfoldable pub insert_by : (A → A → Bool) → A → List A → List A
  insert_by lt a [] = a ∷ []
  insert_by lt a (x ∷ xs) = let rest = insert_by lt a xs in if lt x a then x ∷ rest else a ∷ x ∷ xs

  unfoldable pub sort_by : (A → A → Bool) → List A → List A
  sort_by lt [] = []
  sort_by lt (x ∷ xs) = insert_by lt x (sort_by lt xs)

  pub append_assoc : (xs ys zs : List A) → (xs ++ ys) ++ zs ≡ xs ++ (ys ++ zs)
  append_assoc [] ys zs = refl
  append_assoc (x ∷ xs) ys zs = ap (◌∷◌ x) (append_assoc xs ys zs)

  pub append_nil : (xs : List A) → xs ++ [] ≡ xs
  append_nil [] = refl
  append_nil (x ∷ xs) = ap (◌∷◌ x) (append_nil xs)

  pub All-insert_by {κ} :
      (P : A → Type κ) (lt : A → A → Bool) (a : A) (xs : List A)
      → P a
      → All P xs
      → All P (insert_by lt a xs)
  unfolding insert_by
  All-insert_by P lt a [] p h = (p, tt)
  All-insert_by P lt a (x ∷ xs) p h = elim (Bool-cases (lt x a)) [
    | inl e ↦ rw e (h.0, All-insert_by P lt a xs p h.1)
    | inr e ↦ rw e (p, h)
  ]

  pub All-sort_by {κ} :
      (P : A → Type κ) (lt : A → A → Bool) (xs : List A) → All P xs → All P (sort_by lt xs)
  unfolding sort_by
  All-sort_by P lt [] h = tt
  All-sort_by P lt (x ∷ xs) h = All-insert_by P lt x (sort_by lt xs) h.0 (All-sort_by P lt xs h.1)

  pub filter_same : (p : A → Bool) (xs : List A) → All (λ x. p x ≡ true) xs → filter p xs ≡ xs
  filter_same p [] h = refl
  filter_same p (x ∷ xs) h = rw h.0 (ap (◌∷◌ x) (filter_same p xs h.1))

  pub filter_none : (p : A → Bool) (xs : List A) → All (λ x. p x ≡ false) xs → filter p xs ≡ []
  filter_none p [] h = refl
  filter_none p (x ∷ xs) h = rw h.0 (filter_none p xs h.1)

  pub find-modify_first :
      (p : A → Bool) (f : A → A) (xs : List A) (x : A)
      → ((y : A) → p (f y) ≡ p y)
      → find p xs ≡ some x
      → find p (modify_first p f xs) ≡ some (f x)
  find-modify_first p f [] x g h = absurd (cc h)
  find-modify_first p f (y ∷ ys) x g h = elim (Bool-cases (p y)) [
    | inl k ↦ let same : y ≡ x = cc (rw k at h) in rw (k, g y, k) (ap (λ z. some (f z)) same)
    | inr k ↦ rw (k, k) (find-modify_first p f ys x g (rw k at h))
  ]

  pub filter-append :
      (p : A → Bool) (xs ys : List A) → filter p (xs ++ ys) ≡ filter p xs ++ filter p ys
  filter-append p [] ys = refl
  filter-append p (x ∷ xs) ys = elim (Bool-cases (p x)) [
    | inl h ↦ rw h (ap (◌∷◌ x) (filter-append p xs ys))
    | inr h ↦ rw h (filter-append p xs ys)
  ]
