-- ===== src/Session/Due.antt =====
-- `reconcile` of crates/curfew-core/src/session.rs: activations that are due.
use curfew.Prelude.{
  ◌≡◌, ◌<◌, refl, sym, ap, ◌∙◌, subst, Bool, true, false, none, some, List, [], ◌∷◌, ◌++◌, inl, inr,
  arith, Bool-cases, Option-cases, leb, ◌||◌,
}
use curfew.Prelude.Lists.{
  find, modify_first, All, All-append, All-In, In, find-some, In-append_right,
}
use curfew.Prelude.Order.{list_ord, list_lt, list_eq→eq}
use curfew.Prelude.Text.{Text}
use curfew.Prelude.I64.{I64}
use curfew.Prelude.Set.{BTreeSet}
use curfew.Lock
use curfew.Lock.{Lock, LockSet, can_release, lock_ord, min_opt}
use curfew.Lock.Release.{merge-never_weakens}
use curfew.Schedule
use curfew.Schedule.{Activation}
use curfew.Session.{
  Session, Sessions, has_profile, strengthen, start, is_dismissed, for_profile, reconcile_one,
  reconcile, activated, session_id, sort_by_id, insert_by_id,
}
use curfew.Session.Keeping.{start-new, start-again, reconcile-Keeps, In-sort_by_id}
use curfew.Session.Reconcile.{reconcile_one-skip, reconcile_one-start, is_dismissed-reconcile_one}

-- No delayed release is under way.
abbrev pub Unreleased : List Session → Type 0
Unreleased xs = All (λ x. x.lock.delayed_release_at ≡ none) xs

merge-Unreleased :
    (a b : LockSet)
    → a.delayed_release_at ≡ none
    → b.delayed_release_at ≡ none
    → (Lock.merge a b).delayed_release_at ≡ none
unfolding Lock.merge
merge-Unreleased a b h k = ground arith

Unreleased-insert_by_id :
    (x : Session) (xs : List Session)
    → x.lock.delayed_release_at ≡ none
    → Unreleased xs
    → Unreleased (insert_by_id x xs)
unfolding insert_by_id
Unreleased-insert_by_id x [] h k = (h, tt)
Unreleased-insert_by_id x (y ∷ xs) h k = elim (Bool-cases (list_lt y.id x.id)) [
  | inl e ↦ rw e (k.0, Unreleased-insert_by_id x xs h k.1)
  | inr e ↦ rw e (h, (k.0, k.1))
]

Unreleased-sort_by_id : (xs : List Session) → Unreleased xs → Unreleased (sort_by_id xs)
unfolding sort_by_id
Unreleased-sort_by_id [] h = tt
Unreleased-sort_by_id (x ∷ xs) h =
    Unreleased-insert_by_id x (sort_by_id xs) h.0 (Unreleased-sort_by_id xs h.1)

Unreleased-strengthen :
    (p : Session → Bool) (new : Session) (xs : List Session)
    → new.lock.delayed_release_at ≡ none
    → Unreleased xs
    → Unreleased (modify_first p (strengthen new) xs)
Unreleased-strengthen p new [] h k = tt
Unreleased-strengthen p new (x ∷ xs) h k = elim (Bool-cases (p x)) [
  | inl e ↦ rw e (merge-Unreleased x.lock new.lock k.0 h, k.1)
  | inr e ↦ rw e (k.0, Unreleased-strengthen p new xs h k.1)
]

Unreleased-start :
    (s : Sessions) (new : Session)
    → new.lock.delayed_release_at ≡ none
    → Unreleased s.running
    → Unreleased (start s new).running
Unreleased-start s new h k = elim (Option-cases (find (has_profile new.profile) s.running)) [
  | inl e ↦ rw (start-new s new e) (
      Unreleased-sort_by_id (s.running ++ new ∷ [])
        (All-append (λ x. x.lock.delayed_release_at ≡ none) s.running (new ∷ []) k (h, tt)))
  | inr (old, e) ↦
      rw (start-again s new e) (Unreleased-strengthen (has_profile new.profile) new s.running h k)
]

In-changed :
    (p : Session → Bool) (f : Session → Session) (xs : List Session) {x : Session}
    → find p xs ≡ some x
    → In (f x) (modify_first p f xs)
In-changed p f [] e = absurd (cc e)
In-changed p f (y ∷ xs) {x} e = elim (Bool-cases (p y)) [
  | inl c ↦ let same : y ≡ x = cc (rw c at e) in rw c (inl (ap f (sym same)))
  | inr c ↦ rw c (inr (In-changed p f xs (rw c at e)))
]

-- A session of the profile runs, and what releases it releases the lock.
abbrev pub Guarded : Text → LockSet → List Session → Type 0
Guarded profile lock xs =
    (e : Session) × In e xs
    × (e.profile ≡ profile)
    × ((u : I64) (satisfied : BTreeSet Lock)
        → can_release e.lock u satisfied ≡ true
        → can_release lock u satisfied ≡ true)

start-Guarded :
    (s : Sessions) (new : Session)
    → Unreleased s.running
    → Guarded new.profile new.lock (start s new).running
start-Guarded s new k = elim (Option-cases (find (has_profile new.profile) s.running)) [
  | inl e ↦ rw (start-new s new e) (
    new,
    In-sort_by_id new (s.running ++ new ∷ []) (In-append_right new s.running (new ∷ []) (inl refl)),
    refl,
    λ u satisfied r. r,
  )
  | inr (old, e) ↦
      let found = find-some (has_profile new.profile) s.running e in
      let none_due = All-In (λ x. x.lock.delayed_release_at ≡ none) s.running old k found.0 in
      rw (start-again s new e) (
        strengthen new old,
        In-changed (has_profile new.profile) (strengthen new) s.running e,
        list_eq→eq old.profile new.profile found.1,
        λ u satisfied r. (merge-never_weakens old.lock new.lock u satisfied r).1 (ground arith),
      )
]

module _ {M : Type 0} (mint_id : M → Activation → Text × M) where
  Unreleased-reconcile_one :
      (now : I64) (s : Sessions) (m : M) (a : Activation)
      → Unreleased s.running
      → Unreleased (reconcile_one mint_id now s m a).0.running
  Unreleased-reconcile_one now s m a k = elim (Bool-cases (leb a.end now || is_dismissed s a)) [
    | inl skip ↦ rw (reconcile_one-skip mint_id now s m a skip) k
    | inr run ↦ rw (reconcile_one-start mint_id now s m a run) (
        Unreleased-start s
          (activated mint_id (session_id mint_id (for_profile s a.profile) m a).0 now a)
          (unfold Schedule.lock Lock.new in refl) k)
  ]

  reconcile_one-Guarded :
      (now : I64) (s : Sessions) (m : M) (a : Activation)
      → (leb a.end now || is_dismissed s a) ≡ false
      → Unreleased s.running
      → Guarded a.profile (Schedule.lock a) (reconcile_one mint_id now s m a).0.running
  reconcile_one-Guarded now s m a run k = rw (reconcile_one-start mint_id now s m a run) (
      start-Guarded s (activated mint_id (session_id mint_id (for_profile s a.profile) m a).0 now a)
        k)

  -- While no delayed release is under way: for each activation that has not ended at `now` and whose
  -- occurrence was not ended by hand, a session of its profile runs after reconciling, and whatever
  -- releases that session releases the lock that the activation asks for.
  pub reconcile-starts_what_is_due :
      (now : I64) (s : Sessions) (m : M) (activations : List Activation) (a : Activation)
      → Unreleased s.running
      → In a activations
      → now < a.end
      → is_dismissed s a ≡ false
      → Guarded a.profile (Schedule.lock a) (reconcile mint_id now s m activations).0.running
  unfolding reconcile
  reconcile-starts_what_is_due now s m [] a k i due alive = absurd i
  reconcile-starts_what_is_due now s m (b ∷ rest) a k (inr i) due alive =
      let (s', m', started) = reconcile_one mint_id now s m b in
      reconcile-starts_what_is_due now s' m' rest a (Unreleased-reconcile_one now s m b k) i due
        (is_dismissed-reconcile_one mint_id now s m b a ∙ alive)
  reconcile-starts_what_is_due now s m (b ∷ rest) a k (inl q) due alive =
      let (s', m', started) = reconcile_one mint_id now s m b in
      let (e, i, p, r) = guarded b (sym q) in
      let (f, j, stronger) = reconcile-Keeps mint_id now s' m' rest e i in
      (
        f,
        j,
        stronger.same_profile ∙ p,
        λ u satisfied h. r u satisfied (stronger.releases u satisfied h),
      )
    where
      guarded :
          (c : Activation)
          → c ≡ a
          → Guarded a.profile (Schedule.lock a) (reconcile_one mint_id now s m c).0.running
      guarded c same =
          subst
            (λ z. Guarded a.profile (Schedule.lock a) (reconcile_one mint_id now s m z).0.running)
            (sym same) (reconcile_one-Guarded now s m a (ground arith) k)
