-- ===== src/Lock/Release.antt =====
-- `is_expired`, `request_release` and `can_release` of crates/curfew-core/src/lock.rs, before and
-- after `merge`.
use curfew.Prelude.{
  ◌≡◌, ◌+◌, ◌≤◌, ◌<◌, refl, Bool, true, false, some, [], arith, Bool-cases, inl, inr, is_some_and,
  leb,
}
use curfew.Prelude.I64.{I64, modulus}
use curfew.Prelude.Set
use curfew.Prelude.Set.{mem-union, is_subset-union, BTreeSet}
use curfew.Lock.{
  Lock, LockSet, merge, merge_nonempty, is_empty, is_expired, can_release, request_release,
  delayed_release_seconds, lock_ord,
}
use curfew.Lock.Lattice.{merge_nil, merge_nil_right, merge_both}

-- A lock that has expired stays expired.
pub is_expired_mono :
    (s : LockSet) (t u : I64) → t ≤ u → is_expired s t ≡ true → is_expired s u ≡ true
unfolding is_expired
is_expired_mono s t u le h = ground arith

-- Asking for the delayed release, on any lock and at any instant at which 24 hours more can be
-- written: the conditions and the end time stay, the instant returned is the one stored, it is at
-- most 24 hours away and never later than one already promised, asking again later changes nothing,
-- and from that instant on the lock opens with no evidence at all.
pub request_release-lets_out :
    (s : LockSet) (now later : I64)
    → now + delayed_release_seconds < modulus
    → now ≤ later
    → later + delayed_release_seconds < modulus
    → let (s', at) = request_release s now in
      (s'.conditions ≡ s.conditions)
      × (s'.ends_at ≡ s.ends_at)
      × (s'.delayed_release_at ≡ some at)
      × (at ≤ now + delayed_release_seconds)
      × ((t : I64) → s.delayed_release_at ≡ some t → at ≤ t)
      × (request_release s' later ≡ (s', at))
      × ((u : I64) → at ≤ u → can_release s' u [] ≡ true)
unfolding request_release can_release
request_release-lets_out s now later h le k =
    (refl, refl, refl, ground arith, λ t e. ground arith, ground arith, λ u p. ground arith)

-- A delayed release that has already landed at `now`.
abbrev pub landed : LockSet → I64 → Bool
landed s now = is_some_and s.delayed_release_at (λ t. leb t now)

landed-can_release :
    (s : LockSet) (now : I64) (satisfied : BTreeSet Lock)
    → landed s now ≡ true
    → can_release s now satisfied ≡ true
unfolding can_release
landed-can_release s now satisfied h = ground arith

merge_nonempty_left :
    (a b : LockSet) (now : I64) (satisfied : BTreeSet Lock)
    → landed b now ≡ false
    → can_release (merge_nonempty a b) now satisfied ≡ true
    → can_release a now satisfied ≡ true
unfolding can_release
merge_nonempty_left a b now satisfied q h =
    ground (arith, is_subset-union a.conditions b.conditions satisfied)

merge_nonempty_right :
    (a b : LockSet) (now : I64) (satisfied : BTreeSet Lock)
    → landed a now ≡ false
    → can_release (merge_nonempty a b) now satisfied ≡ true
    → can_release b now satisfied ≡ true
unfolding can_release
merge_nonempty_right a b now satisfied q h =
    ground (arith, is_subset-union a.conditions b.conditions satisfied)

unlocked-can_release :
    (s : LockSet) (now : I64) (satisfied : BTreeSet Lock)
    → is_empty s ≡ true
    → can_release s now satisfied ≡ true
unfolding can_release is_empty Set.is_subset
unlocked-can_release s now satisfied e = ground arith

-- Evidence that releases the merge of two locks releases each of them, unless the delayed release of
-- the other one has landed: merging two promises weakens neither.
pub merge-never_weakens :
    (a b : LockSet) (now : I64) (satisfied : BTreeSet Lock)
    → can_release (merge a b) now satisfied ≡ true
    → (landed b now ≡ false → can_release a now satisfied ≡ true)
      × (landed a now ≡ false → can_release b now satisfied ≡ true)
merge-never_weakens a b now satisfied h = elim (Bool-cases (is_empty a)) [
  | inl e ↦ (λ _. unlocked-can_release a now satisfied e, λ _. rw (merge_nil a b e) at h)
  | inr e ↦ elim (Bool-cases (is_empty b)) [
    | inl f ↦ (λ _. rw (merge_nil_right a b e f) at h, λ _. unlocked-can_release b now satisfied f)
    | inr f ↦
        let both = rw (merge_both a b e f) at h in
        (
          λ q. merge_nonempty_left a b now satisfied q both,
          λ p. merge_nonempty_right a b now satisfied p both,
        )
  ]
]
