-- ===== src/Prelude/Sublist.antt =====
-- Some of the elements of a list, in their order: what Rust's `retain` leaves.
use mathlib.Core.Logic.{inl, inr}
use mathlib.Core.Bool.{Bool}
use mathlib.Core.List.{List, [], ◌∷◌, ◌++◌, map}
use curfew.Prelude.Tests.{Bool-cases}
use curfew.Prelude.Lists.{filter}

pub data IsSublist {A : Type 0} : List A → List A → Type 0 where
  nothing : IsSublist [] []
  keep : {x : A} {xs ys : List A} → IsSublist xs ys → IsSublist (x ∷ xs) (x ∷ ys)
  skip : {x : A} {xs ys : List A} → IsSublist xs ys → IsSublist xs (x ∷ ys)

pub filter-IsSublist : {A : Type 0} (p : A → Bool) (xs : List A) → IsSublist (filter p xs) xs
filter-IsSublist p [] = nothing
filter-IsSublist p (x ∷ xs) = elim (Bool-cases (p x)) [
  | inl h ↦ rw h (keep (filter-IsSublist p xs))
  | inr h ↦ rw h (skip (filter-IsSublist p xs))
]

pub map-IsSublist :
    {A B : Type 0} (f : A → B) {xs ys : List A} → IsSublist xs ys → IsSublist (map f xs) (map f ys)
map-IsSublist f nothing = nothing
map-IsSublist f (keep r) = keep (map-IsSublist f r)
map-IsSublist f (skip r) = skip (map-IsSublist f r)

pub append-IsSublist :
    {A : Type 0} {xs ys vs ws : List A}
    → IsSublist xs ys
    → IsSublist vs ws
    → IsSublist (xs ++ vs) (ys ++ ws)
append-IsSublist nothing s = s
append-IsSublist (keep r) s = keep (append-IsSublist r s)
append-IsSublist (skip r) s = skip (append-IsSublist r s)

pub IsSublist-refl : {A : Type 0} (xs : List A) → IsSublist xs xs
IsSublist-refl [] = nothing
IsSublist-refl (x ∷ xs) = keep (IsSublist-refl xs)
