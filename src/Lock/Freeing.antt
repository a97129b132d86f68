-- ===== src/Lock/Freeing.antt =====
-- `can_release` of crates/curfew-core/src/lock.rs: when a lock lets go.
use curfew.Prelude.{
  ◌≡◌, ◌⊎◌, Option, is_some_and, refl, ◌≤◌, true, none, some, inl, inr, arith, Bool-cases, leb,
}
use curfew.Prelude.Order.{list_ord}
use curfew.Prelude.I64.{I64}
use curfew.Prelude.Set
use curfew.Prelude.Set.{BTreeSet, mem-difference, is_subset_refl_of, is_subset-mem}
use curfew.Lock.{Lock, LockSet, can_release, is_expired, lock_ord}

-- The lock lets go: every condition is met, or its end or its delayed release has come.
abbrev pub LetsGo : LockSet → I64 → BTreeSet Lock → Type 0
LetsGo k now satisfied =
    ((l : Lock) → Set.mem l k.conditions ≡ true → Set.mem l satisfied ≡ true)
    ⊎ (((t : I64) × (k.ends_at ≡ some t) × (t ≤ now))
        ⊎ ((t : I64) × (k.delayed_release_at ≡ some t) × (t ≤ now)))

come :
    (o : Option I64) (now : I64)
    → is_some_and o (λ t. leb t now) ≡ true
    → (t : I64) × (o ≡ some t) × (t ≤ now)
come none now h = absurd (cc h)
come (some t) now h = (t, refl, ground (arith, h))

pub LetsGo-can_release :
    (k : LockSet) (now : I64) (satisfied : BTreeSet Lock)
    → can_release k now satisfied ≡ true
    → LetsGo k now satisfied
unfolding can_release is_expired
LetsGo-can_release k now satisfied h = elim (Bool-cases (Set.is_subset k.conditions satisfied)) [
  | inl c ↦ inl (λ l m. is_subset-mem l k.conditions satisfied c m)
  | inr c ↦ elim (Bool-cases (is_some_and k.ends_at (λ t. leb t now))) [
    | inl e ↦ inr (inl (come k.ends_at now e))
    | inr e ↦ inr (inr (come k.delayed_release_at now (ground (arith, h, c, e))))
  ]
]

pub can_release-LetsGo :
    (k : LockSet) (now : I64) (satisfied : BTreeSet Lock)
    → LetsGo k now satisfied
    → can_release k now satisfied ≡ true
unfolding can_release is_expired
can_release-LetsGo k now satisfied (inl h) =
    ground (arith, is_subset_refl_of k.conditions satisfied h)
can_release-LetsGo k now satisfied (inr (inl (t, e, h))) = ground (arith, e, h)
can_release-LetsGo k now satisfied (inr (inr (t, e, h))) = ground (arith, e, h)
