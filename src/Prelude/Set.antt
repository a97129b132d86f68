-- ===== src/Prelude/Set.antt =====
-- `BTreeSet`: the elements in ascending order, each once.
use mathlib.Core.Path.{◌≡◌, refl, ap₂}
use mathlib.Core.Logic.{inl, inr}
use mathlib.Core.Bool.{Bool, true, false, not, ◌&&◌, ◌||◌}
use mathlib.Core.List.{List, [], ◌∷◌}
use native.Mathlib.Omega.{arith}
use curfew.Prelude.Tests.{if◌then◌else◌, Bool-cases}
use curfew.Prelude.Lists.{all, filter}
use curfew.Prelude.Order.{Ord, beq_refl, beq→eq, lt→ne}

abbrev pub BTreeSet {ℓ} : Type ℓ → Type ℓ
BTreeSet A = List A

module _ {ℓ} {A : Type ℓ} ⦃o : Ord A⦄ where
  unfoldable pub mem : A → BTreeSet A → Bool
  mem a [] = false
  mem a (x ∷ xs) = o.beq a x || mem a xs

  unfoldable pub insert : A → BTreeSet A → BTreeSet A
  insert a [] = a ∷ []
  insert a (x ∷ xs) =
      let rest = insert a xs in
      if o.lt a x then a ∷ x ∷ xs else if o.lt x a then x ∷ rest else x ∷ xs

  -- `a.union(&b).cloned().collect()`
  unfoldable pub union : BTreeSet A → BTreeSet A → BTreeSet A
  unfolding insert
  union [] ys = ys
  union (x ∷ xs) ys = insert x (union xs ys)

  -- `iter.into_iter().collect()`
  unfoldable pub from_list : List A → BTreeSet A
  unfolding union
  from_list xs = union xs []

  -- `a.difference(&b).cloned().collect()`
  unfoldable pub difference : BTreeSet A → BTreeSet A → BTreeSet A
  unfolding mem
  difference xs ys = filter (λ x. not (mem x ys)) xs

  unfoldable pub is_subset : BTreeSet A → BTreeSet A → Bool
  unfolding mem
  is_subset xs ys = all (λ x. mem x ys) xs

  abbrev Above : A → List A → Type 0
  Above a [] = Unit
  Above a (x ∷ xs) = (o.lt a x ≡ true) × Above a xs

  abbrev pub IsSorted : List A → Type 0
  IsSorted [] = Unit
  IsSorted (x ∷ xs) = Above x xs × IsSorted xs

  Above-trans : (a b : A) (xs : List A) → o.lt a b ≡ true → Above b xs → Above a xs
  Above-trans a b [] p h = tt
  Above-trans a b (x ∷ xs) p h = (o.lt_trans a b x p h.0, Above-trans a b xs p h.1)

  Above-insert : (a b : A) (xs : List A) → o.lt a b ≡ true → Above a xs → Above a (insert b xs)
  unfolding insert
  Above-insert a b [] p h = (p, tt)
  Above-insert a b (x ∷ xs) p h = elim (Bool-cases (o.lt b x)) [
    | inl e ↦ rw e (p, (h.0, h.1))
    | inr e ↦ elim (Bool-cases (o.lt x b)) [
      | inl f ↦ rw (e, f) (h.0, Above-insert a b xs p h.1)
      | inr f ↦ rw (e, f) (h.0, h.1)
    ]
  ]

  pub insert-IsSorted : (a : A) (xs : List A) → IsSorted xs → IsSorted (insert a xs)
  unfolding insert
  insert-IsSorted a [] h = (tt, tt)
  insert-IsSorted a (x ∷ xs) h = elim (Bool-cases (o.lt a x)) [
    | inl e ↦ rw e ((e, Above-trans a x xs e h.0), (h.0, h.1))
    | inr e ↦ elim (Bool-cases (o.lt x a)) [
      | inl f ↦ rw (e, f) (Above-insert x a xs f h.0, insert-IsSorted a xs h.1)
      | inr f ↦ rw (e, f) (h.0, h.1)
    ]
  ]

  pub mem-insert : (b a : A) (xs : List A) → mem b (insert a xs) ≡ (o.beq b a || mem b xs)
  unfolding mem insert
  mem-insert b a [] = refl
  mem-insert b a (x ∷ xs) = elim (Bool-cases (o.lt a x)) [
    | inl e ↦ rw e
    | inr e ↦ elim (Bool-cases (o.lt x a)) [
      | inl f ↦ rw (e, f) (ground (arith, mem-insert b a xs))
      | inr f ↦ rw (e, f) (ground (arith, o.lt_connex a x e f))
    ]
  ]

  pub mem-union : (b : A) (xs ys : List A) → mem b (union xs ys) ≡ (mem b xs || mem b ys)
  unfolding mem union
  mem-union b [] ys = refl
  mem-union b (x ∷ xs) ys = ground (arith, mem-insert b x (union xs ys), mem-union b xs ys)

  pub union-IsSorted : (xs ys : List A) → IsSorted ys → IsSorted (union xs ys)
  unfolding union
  union-IsSorted [] ys h = h
  union-IsSorted (x ∷ xs) ys h = insert-IsSorted x (union xs ys) (union-IsSorted xs ys h)

  pub from_list-IsSorted : (xs : List A) → IsSorted (from_list xs)
  unfolding from_list
  from_list-IsSorted xs = union-IsSorted xs [] tt

  not_mem_of_Above : (a : A) (xs : List A) → Above a xs → mem a xs ≡ false
  unfolding mem
  not_mem_of_Above a [] h = refl
  not_mem_of_Above a (x ∷ xs) h = ground (arith, lt→ne a x h.0, not_mem_of_Above a xs h.1)

  head_eq :
      (x y : A) (xs ys : List A)
      → IsSorted (x ∷ xs)
      → IsSorted (y ∷ ys)
      → ((a : A) → mem a (x ∷ xs) ≡ mem a (y ∷ ys))
      → x ≡ y
  unfolding mem
  head_eq x y xs ys h k same = elim (Bool-cases (o.lt x y)) [
    | inl e ↦ cc (same x, beq_refl x, not_mem_of_Above x (y ∷ ys) (e, Above-trans x y ys e k.0))
    | inr e ↦ elim (Bool-cases (o.lt y x)) [
      | inl f ↦ cc (same y, beq_refl y, not_mem_of_Above y (x ∷ xs) (f, Above-trans y x xs f h.0))
      | inr f ↦ o.lt_connex x y e f
    ]
  ]

  -- Two sets with the same members are equal.
  pub set_ext :
      (xs ys : List A) → IsSorted xs → IsSorted ys → ((a : A) → mem a xs ≡ mem a ys) → xs ≡ ys
  unfolding mem
  set_ext [] [] h k same = refl
  set_ext [] (y ∷ ys) h k same = cc (same y, beq_refl y)
  set_ext (x ∷ xs) [] h k same = cc (same x, beq_refl x)
  set_ext (x ∷ xs) (y ∷ ys) h k same =
      let e : x ≡ y = head_eq x y xs ys h k same in ap₂ ◌∷◌ e (set_ext xs ys h.1 k.1 (tails e))
    where
      tails : x ≡ y → (a : A) → mem a xs ≡ mem a ys
      tails e a = elim (Bool-cases (o.beq a x)) [
        | inl f ↦ cc (e, beq→eq a x f, not_mem_of_Above x xs h.0, not_mem_of_Above y ys k.0)
        | inr f ↦ ground (arith, same a, e)
      ]

  pub union_comm : (xs ys : List A) → IsSorted xs → IsSorted ys → union xs ys ≡ union ys xs
  union_comm xs ys h k =
      set_ext (union xs ys) (union ys xs) (union-IsSorted xs ys k) (union-IsSorted ys xs h)
        λ a. ground (arith, mem-union a xs ys, mem-union a ys xs)

  pub union_assoc :
      (xs ys zs : List A) → IsSorted zs → union (union xs ys) zs ≡ union xs (union ys zs)
  union_assoc xs ys zs k =
      set_ext (union (union xs ys) zs) (union xs (union ys zs)) (union-IsSorted (union xs ys) zs k)
        (union-IsSorted xs (union ys zs) (union-IsSorted ys zs k))
        λ a. ground (
          arith,
          mem-union a (union xs ys) zs,
          mem-union a xs ys,
          mem-union a xs (union ys zs),
          mem-union a ys zs,
        )

  pub union_self : (xs : List A) → IsSorted xs → union xs xs ≡ xs
  union_self xs h =
      set_ext (union xs xs) xs (union-IsSorted xs xs h) h λ a. ground (arith, mem-union a xs xs)

  pub union_nil : (xs : List A) → IsSorted xs → union xs [] ≡ xs
  unfolding mem
  union_nil xs h =
      set_ext (union xs []) xs (union-IsSorted xs [] tt) h λ a. ground (arith, mem-union a xs [])

  is_subset-insert :
      (x : A) (xs ys : List A) → is_subset (insert x xs) ys ≡ (mem x ys && is_subset xs ys)
  unfolding is_subset insert
  is_subset-insert x [] ys = refl
  is_subset-insert x (y ∷ xs) ys = elim (Bool-cases (o.lt x y)) [
    | inl e ↦ rw e
    | inr e ↦ elim (Bool-cases (o.lt y x)) [
      | inl f ↦ rw (e, f) (ground (arith, is_subset-insert x xs ys))
      | inr f ↦ rw (e, f) (ground (arith, o.lt_connex x y e f))
    ]
  ]

  -- A union is proved by what proves both sides.
  pub is_subset-union :
      (xs ys zs : List A) → is_subset (union xs ys) zs ≡ (is_subset xs zs && is_subset ys zs)
  unfolding is_subset union
  is_subset-union [] ys zs = refl
  is_subset-union (x ∷ xs) ys zs =
      ground (arith, is_subset-insert x (union xs ys) zs, is_subset-union xs ys zs)

  pub is_subset-mem :
      (a : A) (xs ys : List A) → is_subset xs ys ≡ true → mem a xs ≡ true → mem a ys ≡ true
  unfolding is_subset mem
  is_subset-mem a [] ys p q = cc
  is_subset-mem a (x ∷ xs) ys p q = elim (Bool-cases (o.beq a x)) [
    | inl e ↦ ground (arith, beq→eq a x e)
    | inr e ↦ is_subset-mem a xs ys (ground arith) (ground arith)
  ]

  pub is_subset_refl_of :
      (xs ys : List A) → ((a : A) → mem a xs ≡ true → mem a ys ≡ true) → is_subset xs ys ≡ true
  unfolding is_subset mem
  is_subset_refl_of [] ys f = refl
  is_subset_refl_of (x ∷ xs) ys f =
      ground (
        arith,
        f x (ground (arith, beq_refl x)),
        is_subset_refl_of xs ys (λ a m. f a (ground arith)),
      )

  pub mem-difference :
      (a : A) (xs ys : List A) → mem a (difference xs ys) ≡ (mem a xs && not (mem a ys))
  unfolding mem difference
  mem-difference a [] ys = refl
  mem-difference a (x ∷ xs) ys = elim (Bool-cases (o.beq a x)) [
    | inl e ↦ ground (arith, beq→eq a x e, mem-difference a xs ys)
    | inr e ↦ ground (arith, mem-difference a xs ys)
  ]

  pub mem-filter : (a : A) (p : A → Bool) (xs : List A) → mem a (filter p xs) ≡ (mem a xs && p a)
  unfolding mem
  mem-filter a p [] = refl
  mem-filter a p (x ∷ xs) = elim (Bool-cases (o.beq a x)) [
    | inl e ↦ ground (arith, beq→eq a x e, mem-filter a p xs)
    | inr e ↦ ground (arith, mem-filter a p xs)
  ]
