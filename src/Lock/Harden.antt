-- ===== src/Lock/Harden.antt =====
-- `harden` of crates/curfew-core/src/lock.rs, which adopts an untrusted lock.
use curfew.Prelude.{◌≡◌, ◌≤◌, true, Option, none, some, ◌||◌, arith, is_some_and, leb}
use curfew.Prelude.I64.{I64}
use curfew.Prelude.Set
use curfew.Prelude.Set.{mem-union, is_subset-union, union-IsSorted, BTreeSet}
use curfew.Lock.{Lock, LockSet, IsValid, harden, harden_bound, is_expired, can_release, lock_ord}

pub harden-IsValid : (a b : LockSet) → IsValid b → IsValid (harden a b)
unfolding harden
harden-IsValid a b h = union-IsSorted a.conditions b.conditions h

-- A bound of a running lock moves later or stays, and none is added or removed.
abbrev pub BoundKept : Option I64 → Option I64 → Type 0
BoundKept (some t) (some u) = t ≤ u
BoundKept none none = Unit
BoundKept _ _ = ⊥

harden_bound-BoundKept : (a b : Option I64) → BoundKept a (harden_bound a b)
harden_bound-BoundKept (some t) (some u) = omega arith
harden_bound-BoundKept (some t) none = omega arith
harden_bound-BoundKept none b = tt

passed_of_harden :
    (a b : Option I64) (now : I64)
    → is_some_and (harden_bound a b) (λ t. leb t now) ≡ true
    → is_some_and a (λ t. leb t now) ≡ true
passed_of_harden a b now h = ground arith

pub is_expired-of_harden :
    (a b : LockSet) (now : I64) → is_expired (harden a b) now ≡ true → is_expired a now ≡ true
unfolding is_expired harden
is_expired-of_harden a b now h = ground (
  arith,
  passed_of_harden a.ends_at b.ends_at now,
  passed_of_harden a.delayed_release_at b.delayed_release_at now,
)

-- Whatever lock `b` is adopted into the running lock `a`: evidence that releases the result at any
-- instant releases `a` as well, the result asks for the conditions of both, and the end time and the
-- delayed release of `a` are each kept or moved later, never added or removed.
pub harden-never_weakens :
    (a b : LockSet)
    → ((now : I64) (satisfied : BTreeSet Lock)
        → can_release (harden a b) now satisfied ≡ true
        → can_release a now satisfied ≡ true)
      × ((l : Lock)
          → Set.mem l (harden a b).conditions ≡ (Set.mem l a.conditions || Set.mem l b.conditions))
      × BoundKept a.ends_at (harden a b).ends_at
      × BoundKept a.delayed_release_at (harden a b).delayed_release_at
unfolding harden can_release
harden-never_weakens a b = (
  λ now satisfied h.
      ground
        (arith, is_expired-of_harden a b now, is_subset-union a.conditions b.conditions satisfied),
  λ l. mem-union l a.conditions b.conditions,
  harden_bound-BoundKept a.ends_at b.ends_at,
  harden_bound-BoundKept a.delayed_release_at b.delayed_release_at,
)
