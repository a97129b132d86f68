-- ===== src/Session/Distinct.antt =====
-- The operations of crates/curfew-core/src/session.rs and the profiles of what runs.
use curfew.Prelude.{
  ◌≡◌, refl, sym, ap, ◌∙◌, subst, Bool, false, not, none, List, [], ◌∷◌, ◌++◌, inl, inr, Bool-cases,
  Option-cases, leb, ◌||◌,
}
use curfew.Prelude.Lists.{
  find, filter, modify_first, remove_first, All, All-append, All-filter, find-none,
}
use curfew.Prelude.Order.{list_ord, list_eq, list_lt, beq_symm}
use curfew.Prelude.Text.{Text}
use curfew.Prelude.I64.{I64}
use curfew.Prelude.Set.{BTreeSet}
use curfew.Lock.{Lock, can_release, lock_ord}
use curfew.Emergency.{Pass}
use curfew.Schedule.{Activation}
use curfew.Session.{
  Session, Sessions, has_profile, has_id, sort_by_id, insert_by_id, push, strengthen, hardened,
  start, restore_session, restore_running, restore_without_weakening, dismissal_covers,
  is_dismissed, for_profile, reconcile_one, reconcile, activated, session_id, end, end_with_pass,
  request_release, released, reap, is_over,
}
use curfew.Session.Keeping.{start-new, start-again, restore_session-running, restore_session-absent}

-- No session of `xs` is for the profile.
abbrev pub Free : Text → List Session → Type 0
Free profile xs = All (λ x. has_profile profile x ≡ false) xs

abbrev pub AreDistinct : List Session → Type 0
AreDistinct [] = Unit
AreDistinct (x ∷ xs) = Free x.profile xs × AreDistinct xs

abbrev pub IsValid : Sessions → Type 0
IsValid s = AreDistinct s.running

Free-insert_by_id :
    (p : Text) (x : Session) (xs : List Session)
    → has_profile p x ≡ false
    → Free p xs
    → Free p (insert_by_id x xs)
unfolding insert_by_id
Free-insert_by_id p x [] h k = (h, tt)
Free-insert_by_id p x (y ∷ xs) h k = elim (Bool-cases (list_lt y.id x.id)) [
  | inl e ↦ rw e (k.0, Free-insert_by_id p x xs h k.1)
  | inr e ↦ rw e (h, (k.0, k.1))
]

AreDistinct-insert_by_id :
    (x : Session) (xs : List Session)
    → Free x.profile xs
    → AreDistinct xs
    → AreDistinct (insert_by_id x xs)
unfolding insert_by_id
AreDistinct-insert_by_id x [] h k = (tt, tt)
AreDistinct-insert_by_id x (y ∷ xs) h k = elim (Bool-cases (list_lt y.id x.id)) [
  | inl e ↦ rw e (
    Free-insert_by_id y.profile x xs (beq_symm x.profile y.profile ∙ h.0) k.0,
    AreDistinct-insert_by_id x xs h.1 k.1,
  )
  | inr e ↦ rw e (h, (k.0, k.1))
]

pub Free-sort_by_id : (p : Text) (xs : List Session) → Free p xs → Free p (sort_by_id xs)
unfolding sort_by_id
Free-sort_by_id p [] h = tt
Free-sort_by_id p (x ∷ xs) h = Free-insert_by_id p x (sort_by_id xs) h.0 (Free-sort_by_id p xs h.1)

AreDistinct-sort_by_id : (xs : List Session) → AreDistinct xs → AreDistinct (sort_by_id xs)
unfolding sort_by_id
AreDistinct-sort_by_id [] h = tt
AreDistinct-sort_by_id (x ∷ xs) h =
    AreDistinct-insert_by_id x (sort_by_id xs) (Free-sort_by_id x.profile xs h.0)
      (AreDistinct-sort_by_id xs h.1)

AreDistinct-append_one :
    (xs : List Session) (new : Session)
    → Free new.profile xs
    → AreDistinct xs
    → AreDistinct (xs ++ new ∷ [])
AreDistinct-append_one [] new h k = (tt, tt)
AreDistinct-append_one (x ∷ xs) new h k = (
  All-append (λ y. has_profile x.profile y ≡ false) xs (new ∷ []) k.0
      (beq_symm new.profile x.profile ∙ h.0, tt),
  AreDistinct-append_one xs new h.1 k.1,
)

push-IsValid :
    (s : Sessions) (new : Session)
    → find (has_profile new.profile) s.running ≡ none
    → IsValid s
    → IsValid (push s new)
push-IsValid s new e h =
    AreDistinct-sort_by_id (s.running ++ new ∷ [])
      (AreDistinct-append_one s.running new (find-none (has_profile new.profile) s.running e) h)

-- A change that keeps the profile keeps them distinct.
Free-modify_first :
    (q : Text) (p : Session → Bool) (f : Session → Session) (xs : List Session)
    → ((x : Session) → (f x).profile ≡ x.profile)
    → Free q xs
    → Free q (modify_first p f xs)
Free-modify_first q p f [] same h = tt
Free-modify_first q p f (x ∷ xs) same h = elim (Bool-cases (p x)) [
  | inl e ↦ rw e (ap (λ t. list_eq t q) (same x) ∙ h.0, h.1)
  | inr e ↦ rw e (h.0, Free-modify_first q p f xs same h.1)
]

AreDistinct-modify_first :
    (p : Session → Bool) (f : Session → Session) (xs : List Session)
    → ((x : Session) → (f x).profile ≡ x.profile)
    → AreDistinct xs
    → AreDistinct (modify_first p f xs)
AreDistinct-modify_first p f [] same h = tt
AreDistinct-modify_first p f (x ∷ xs) same h = elim (Bool-cases (p x)) [
  | inl e ↦ rw e (subst (λ t. Free t xs) (sym (same x)) h.0, h.1)
  | inr e ↦
      rw e (Free-modify_first x.profile p f xs same h.0, AreDistinct-modify_first p f xs same h.1)
]

AreDistinct-filter :
    (p : Session → Bool) (xs : List Session) → AreDistinct xs → AreDistinct (filter p xs)
AreDistinct-filter p [] h = tt
AreDistinct-filter p (x ∷ xs) h = elim (Bool-cases (p x)) [
  | inl e ↦
      rw e (All-filter (λ y. has_profile x.profile y ≡ false) p xs h.0, AreDistinct-filter p xs h.1)
  | inr e ↦ rw e (AreDistinct-filter p xs h.1)
]

Free-remove_first :
    (q : Text) (p : Session → Bool) (xs : List Session) → Free q xs → Free q (remove_first p xs)
Free-remove_first q p [] h = tt
Free-remove_first q p (x ∷ xs) h = elim (Bool-cases (p x)) [
  | inl e ↦ rw e h.1
  | inr e ↦ rw e (h.0, Free-remove_first q p xs h.1)
]

AreDistinct-remove_first :
    (p : Session → Bool) (xs : List Session) → AreDistinct xs → AreDistinct (remove_first p xs)
AreDistinct-remove_first p [] h = tt
AreDistinct-remove_first p (x ∷ xs) h = elim (Bool-cases (p x)) [
  | inl e ↦ rw e h.1
  | inr e ↦ rw e (Free-remove_first x.profile p xs h.0, AreDistinct-remove_first p xs h.1)
]

start-IsValid : (s : Sessions) (new : Session) → IsValid s → IsValid (start s new)
start-IsValid s new h = elim (Option-cases (find (has_profile new.profile) s.running)) [
  | inl e ↦ rw (start-new s new e) (push-IsValid s new e h)
  | inr (old, e) ↦
      rw (start-again s new e) (
        AreDistinct-modify_first (has_profile new.profile) (strengthen new) s.running (λ x. refl) h)
]

restore_session-IsValid :
    (s : Sessions) (new : Session) → IsValid s → IsValid (restore_session s new)
restore_session-IsValid s new h = elim (Option-cases (find (has_profile new.profile) s.running)) [
  | inr (old, e) ↦
      rw (restore_session-running s new e)
        (AreDistinct-modify_first (has_profile new.profile) (hardened new) s.running (λ x. refl) h)
  | inl e ↦ rw (restore_session-absent s new e) (elim (Bool-cases (dismissal_covers s new)) [
    | inl c ↦ rw c h
    | inr c ↦ rw c (push-IsValid s new e h)
  ])
]

restore_running-IsValid :
    (s : Sessions) (xs : List Session) → IsValid s → IsValid (restore_running s xs)
unfolding restore_running
restore_running-IsValid s [] h = h
restore_running-IsValid s (x ∷ xs) h =
    restore_running-IsValid (restore_session s x) xs (restore_session-IsValid s x h)

restore-IsValid :
    (s incoming : Sessions) → IsValid s → IsValid (restore_without_weakening s incoming)
unfolding restore_without_weakening
restore-IsValid s incoming h = restore_running-IsValid s incoming.running h

end-IsValid :
    (s : Sessions) (id : Text) (now : I64) (satisfied : BTreeSet Lock)
    → IsValid s
    → IsValid (end s id now satisfied).0
unfolding end
end-IsValid s id now satisfied h = elim (Option-cases (find (has_id id) s.running)) [
  | inl e ↦ rw (e, end) h
  | inr (x, e) ↦
      rw (e, end)
        (elim (Bool-cases (can_release x.lock now satisfied)) [
          | inl c ↦ rw c (AreDistinct-remove_first (has_id id) s.running h)
          | inr c ↦ rw c h
        ])
]

end_with_pass-IsValid :
    (s : Sessions) (id : Text) (now : I64) (pass : Pass)
    → IsValid s
    → IsValid (end_with_pass s id now pass).0
unfolding end_with_pass
end_with_pass-IsValid s id now pass h = elim (Option-cases (find (has_id id) s.running)) [
  | inl e ↦ rw (e, end_with_pass) h
  | inr (x, e) ↦ rw (e, end_with_pass) (end-IsValid s id now x.lock.conditions h)
]

request_release-IsValid :
    (s : Sessions) (id : Text) (now : I64) → IsValid s → IsValid (request_release s id now).0
unfolding request_release
request_release-IsValid s id now h = elim (Option-cases (find (has_id id) s.running)) [
  | inl e ↦ rw (e, request_release) h
  | inr (x, e) ↦
      rw (e, request_release)
        (AreDistinct-modify_first (has_id id) (released now) s.running (λ x. refl) h)
]

module _ {M : Type 0} (mint_id : M → Activation → Text × M) where
  reconcile_one-IsValid :
      (now : I64) (s : Sessions) (m : M) (a : Activation)
      → IsValid s
      → IsValid (reconcile_one mint_id now s m a).0
  unfolding reconcile_one
  reconcile_one-IsValid now s m a h = elim (Bool-cases (leb a.end now || is_dismissed s a)) [
    | inl skip ↦ rw skip h
    | inr run ↦ rw run (
        start-IsValid s
          (activated mint_id (session_id mint_id (for_profile s a.profile) m a).0 now a) h)
  ]

  reconcile-IsValid :
      (now : I64) (s : Sessions) (m : M) (activations : List Activation)
      → IsValid s
      → IsValid (reconcile mint_id now s m activations).0
  unfolding reconcile
  reconcile-IsValid now s m [] h = h
  reconcile-IsValid now s m (a ∷ rest) h =
      let (s', m', started) = reconcile_one mint_id now s m a in
      reconcile-IsValid now s' m' rest (reconcile_one-IsValid now s m a h)

  -- From sessions of distinct profiles, starting, restoring, ending with evidence or with a pass,
  -- asking for a release, reaping and reconciling all lead to sessions of distinct profiles, whatever
  -- their arguments.
  pub operations-keep_profiles_distinct :
      (s : Sessions)
      → IsValid s
      → ((new : Session) → IsValid (start s new))
        × ((incoming : Sessions) → IsValid (restore_without_weakening s incoming))
        × ((id : Text) (now : I64) (satisfied : BTreeSet Lock) → IsValid (end s id now satisfied).0)
        × ((id : Text) (now : I64) (pass : Pass) → IsValid (end_with_pass s id now pass).0)
        × ((id : Text) (now : I64) → IsValid (request_release s id now).0)
        × ((now : I64) → IsValid (reap s now).0)
        × ((now : I64) (m : M) (activations : List Activation)
            → IsValid (reconcile mint_id now s m activations).0)
  unfolding reap
  operations-keep_profiles_distinct s h = (
    λ new. start-IsValid s new h,
    λ incoming. restore-IsValid s incoming h,
    λ id now satisfied. end-IsValid s id now satisfied h,
    λ id now pass. end_with_pass-IsValid s id now pass h,
    λ id now. request_release-IsValid s id now h,
    λ now. AreDistinct-filter (λ x. not (is_over x now)) s.running h,
    λ now m activations. reconcile-IsValid now s m activations h,
  )
