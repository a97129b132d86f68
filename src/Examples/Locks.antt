-- ===== src/Examples/Locks.antt =====
-- Examples of crates/curfew-core/src/lock.rs.
use curfew.Prelude.{◌≡◌, ◌+◌, ◌≤◌, refl, true, ◌||◌, none, some, [], arith}
use curfew.Prelude.I64.{I64}
use curfew.Prelude.Order.{list_lt, list_eq}
use curfew.Prelude.Set
use curfew.Prelude.Set.{BTreeSet}
use curfew.Lock.{
  Lock, IsValid, lock_ord, merge, harden, can_release, request_release, unlocked, is_expired,
  is_empty,
}
use curfew.Lock.Harden.{BoundKept, harden-never_weakens}
use curfew.Lock.Lattice.{merge-semilattice}
use curfew.Lock.Release.{request_release-lets_out}
use curfew.Examples.Data.{token_lock, credential_lock, morning, noon, evening}

-- Merging with a lock that ends by release alone leaves no end time.
merge_run : (merge token_lock credential_lock).ends_at ≡ none
unfolding merge is_empty
merge_run = refl

-- Hardening keeps the end time.
harden_run : (harden token_lock credential_lock).ends_at ≡ some noon
unfolding harden
harden_run = refl

harden-never_weakens_example :
    let a = token_lock in
    let b = credential_lock in
    ((now : I64) (satisfied : BTreeSet Lock)
      → can_release (harden a b) now satisfied ≡ true
      → can_release a now satisfied ≡ true)
    × ((l : Lock)
        → Set.mem l (harden a b).conditions ≡ (Set.mem l a.conditions || Set.mem l b.conditions))
    × BoundKept a.ends_at (harden a b).ends_at
    × BoundKept a.delayed_release_at (harden a b).delayed_release_at
harden-never_weakens_example = harden-never_weakens token_lock credential_lock

merge-semilattice_example :
    let a = token_lock in
    let b = credential_lock in
    let c = unlocked in
    (merge a b ≡ merge b a)
    × (merge (merge a b) c ≡ merge a (merge b c))
    × (merge a a ≡ a)
    × (merge unlocked a ≡ a)
    × (merge a unlocked ≡ a)
    × IsValid (merge a b)
merge-semilattice_example =
    merge-semilattice token_lock credential_lock unlocked (tt, tt) (tt, tt) tt

request_release-lets_out_example :
    let s = token_lock in
    let (s', at) = request_release s morning in
    (s'.conditions ≡ s.conditions)
    × (s'.ends_at ≡ s.ends_at)
    × (s'.delayed_release_at ≡ some at)
    × (at ≤ morning + 86400)
    × ((t : I64) → s.delayed_release_at ≡ some t → at ≤ t)
    × (request_release s' evening ≡ (s', at))
    × ((u : I64) → at ≤ u → can_release s' u [] ≡ true)
request_release-lets_out_example =
    request_release-lets_out token_lock morning evening (omega arith) (omega arith) (omega arith)

-- The evidence for both conditions releases the merged lock.
both_held :
    can_release
      (merge token_lock credential_lock)
      morning
      (merge token_lock credential_lock).conditions
    ≡ true
unfolding merge can_release is_empty is_expired Set.is_subset Set.union list_lt list_eq
both_held = refl
