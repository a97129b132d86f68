-- ===== src/Lock/Lattice.antt =====
-- `merge` of crates/curfew-core/src/lock.rs as an operation on lock sets.
use curfew.Prelude.{
  ◌≡◌, refl, true, false, Option, List, [], ◌∷◌, ◌&&◌, arith, Bool-cases, inl, inr, ◌∙◌,
}
use curfew.Prelude.I64.{I64}
use curfew.Prelude.Set
use curfew.Prelude.Set.{union_comm, union_assoc, union_self, union-IsSorted}
use curfew.Lock.{
  Lock, LockSet, IsValid, unlocked, no_conditions, is_empty, merge, merge_nonempty, latest_end,
  min_opt, lock_ord,
}

pub is_empty-eq : (s : LockSet) → is_empty s ≡ true → s ≡ unlocked
unfolding is_empty
is_empty-eq s h = ground arith

min_opt_comm : (a b : Option I64) → min_opt a b ≡ min_opt b a
min_opt_comm a b = ground arith

latest_end_comm : (a b : Option I64) → latest_end a b ≡ latest_end b a
latest_end_comm a b = ground arith

min_opt_assoc : (a b c : Option I64) → min_opt (min_opt a b) c ≡ min_opt a (min_opt b c)
min_opt_assoc a b c = ground arith

latest_end_assoc :
    (a b c : Option I64) → latest_end (latest_end a b) c ≡ latest_end a (latest_end b c)
latest_end_assoc a b c = ground arith

pub merge-IsValid : (a b : LockSet) → IsValid a → IsValid b → IsValid (merge a b)
unfolding merge
merge-IsValid a b h k = elim (Bool-cases (is_empty a)) [
  | inl e ↦ rw e k
  | inr e ↦ elim (Bool-cases (is_empty b)) [
    | inl f ↦ rw (e, f) h
    | inr f ↦ rw (e, f) (union-IsSorted a.conditions b.conditions k)
  ]
]

-- What `merge` computes on each branch.
pub merge_nil : (a b : LockSet) → is_empty a ≡ true → merge a b ≡ b
unfolding merge
merge_nil a b e = rw e

pub merge_nil_right : (a b : LockSet) → is_empty a ≡ false → is_empty b ≡ true → merge a b ≡ a
unfolding merge
merge_nil_right a b e f = rw (e, f)

pub merge_both :
    (a b : LockSet) → is_empty a ≡ false → is_empty b ≡ false → merge a b ≡ merge_nonempty a b
unfolding merge
merge_both a b e f = rw (e, f)

no_conditions-insert : (l : Lock) (xs : List Lock) → no_conditions (Set.insert l xs) ≡ false
unfolding Set.insert
no_conditions-insert l [] = refl
no_conditions-insert l (x ∷ xs) = ground arith

no_conditions-union :
    (xs ys : List Lock) → no_conditions (Set.union xs ys) ≡ (no_conditions xs && no_conditions ys)
unfolding Set.union
no_conditions-union [] ys = refl
no_conditions-union (x ∷ xs) ys = no_conditions-insert x (Set.union xs ys)

is_empty-merge_nonempty :
    (a b : LockSet)
    → is_empty a ≡ false
    → is_empty b ≡ false
    → is_empty (merge_nonempty a b) ≡ false
unfolding is_empty
is_empty-merge_nonempty a b e f = ground (arith, no_conditions-union a.conditions b.conditions)

merge_comm : (a b : LockSet) → IsValid a → IsValid b → merge a b ≡ merge b a
merge_comm a b h k = elim (Bool-cases (is_empty a)) [
  | inl e ↦ elim (Bool-cases (is_empty b)) [
    | inl f ↦ cc (is_empty-eq a e, is_empty-eq b f)
    | inr f ↦ cc (merge_nil a b e, merge_nil_right b a f e)
  ]
  | inr e ↦ elim (Bool-cases (is_empty b)) [
    | inl f ↦ cc (merge_nil b a f, merge_nil_right a b e f)
    | inr f ↦ cc (
      merge_both a b e f,
      merge_both b a f e,
      union_comm a.conditions b.conditions h k,
      latest_end_comm a.ends_at b.ends_at,
      min_opt_comm a.delayed_release_at b.delayed_release_at,
    )
  ]
]

merge_self : (a : LockSet) → IsValid a → merge a a ≡ a
merge_self a h = elim (Bool-cases (is_empty a)) [
  | inl e ↦ merge_nil a a e
  | inr e ↦ ground (arith, merge_both a a e e, union_self a.conditions h)
]

merge_nonempty_assoc :
    (a b c : LockSet)
    → IsValid c
    → merge_nonempty (merge_nonempty a b) c ≡ merge_nonempty a (merge_nonempty b c)
merge_nonempty_assoc a b c k = cc (
  union_assoc a.conditions b.conditions c.conditions k,
  latest_end_assoc a.ends_at b.ends_at c.ends_at,
  min_opt_assoc a.delayed_release_at b.delayed_release_at c.delayed_release_at,
)

merge_assoc : (a b c : LockSet) → IsValid c → merge (merge a b) c ≡ merge a (merge b c)
merge_assoc a b c k = elim (Bool-cases (is_empty a)) [
  | inl e ↦ rw (merge_nil a b e, merge_nil a (merge b c) e)
  | inr e ↦ elim (Bool-cases (is_empty b)) [
    | inl f ↦ rw (merge_nil_right a b e f, merge_nil b c f)
    | inr f ↦ elim (Bool-cases (is_empty c)) [
      | inl g ↦ cc (
        merge_both a b e f,
        merge_nil_right b c f g,
        merge_nil_right (merge_nonempty a b) c (is_empty-merge_nonempty a b e f) g,
      )
      | inr g ↦ cc (
        merge_both a b e f,
        merge_both b c f g,
        merge_both (merge_nonempty a b) c (is_empty-merge_nonempty a b e f) g,
        merge_both a (merge_nonempty b c) e (is_empty-merge_nonempty b c f g),
        merge_nonempty_assoc a b c k,
      )
    ]
  ]
]

-- On lock sets whose conditions are sorted sets, `merge` is commutative, associative and
-- idempotent, the unlocked set is its identity on both sides, and the result is again sorted.
pub merge-semilattice :
    (a b c : LockSet)
    → IsValid a
    → IsValid b
    → IsValid c
    → (merge a b ≡ merge b a)
      × (merge (merge a b) c ≡ merge a (merge b c))
      × (merge a a ≡ a)
      × (merge unlocked a ≡ a)
      × (merge a unlocked ≡ a)
      × IsValid (merge a b)
unfolding is_empty
merge-semilattice a b c h k l = (
  merge_comm a b h k,
  merge_assoc a b c l,
  merge_self a h,
  merge_nil unlocked a refl,
  merge_comm a unlocked h tt ∙ merge_nil unlocked a refl,
  merge-IsValid a b h k,
)
