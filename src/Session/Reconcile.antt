-- ===== src/Session/Reconcile.antt =====
-- `end` and `reconcile` of crates/curfew-core/src/session.rs: occurrences that were ended by hand.
use curfew.Prelude.{
  ◌≡◌, refl, sym, ap, ◌∙◌, subst, Bool, true, false, some, List, [], ◌∷◌, ◌++◌, inl, inr, arith,
  Bool-cases, Option-cases, leb, ◌||◌,
}
use curfew.Prelude.Lists.{find, modify_first, remove_first, All-append, All-In, In, find-some}
use curfew.Prelude.Order.{list_ord, list_eq, list_eq→eq, beq_symm}
use curfew.Prelude.Text.{Text}
use curfew.Prelude.I64.{I64}
use curfew.Prelude.Set.{BTreeSet}
use curfew.Prelude.Result.{ok}
use curfew.Lock.{Lock, can_release, lock_ord}
use curfew.Schedule.{Activation}
use curfew.Session.{
  Session, Sessions, has_profile, has_id, strengthen, start, is_dismissed, for_profile,
  reconcile_one, reconcile, activated, session_id, end, without,
}
use curfew.Session.Keeping.{start-new, start-again, dismissed-start}
use curfew.Session.Distinct.{Free, AreDistinct, IsValid, Free-sort_by_id}
use curfew.Session.Ending.{Covers, is_dismissed-without, end-absent, end-found}

-- Starting a session leaves the profiles of others free.
pub Free-start :
    (p : Text) (s : Sessions) (new : Session)
    → has_profile p new ≡ false
    → Free p s.running
    → Free p (start s new).running
Free-start p s new h k = elim (Option-cases (find (has_profile new.profile) s.running)) [
  | inl e ↦ rw (start-new s new e) (
      Free-sort_by_id p (s.running ++ new ∷ [])
        (All-append (λ x. has_profile p x ≡ false) s.running (new ∷ []) k (h, tt)))
  | inr (old, e) ↦ rw (start-again s new e) (changed (has_profile new.profile) s.running k)
]
  where
    changed :
        (q : Session → Bool) (xs : List Session)
        → Free p xs
        → Free p (modify_first q (strengthen new) xs)
    changed q [] f = tt
    changed q (x ∷ xs) f = elim (Bool-cases (q x)) [
      | inl c ↦ rw c (f.0, f.1)
      | inr c ↦ rw c (f.0, changed q xs f.1)
    ]

pub Free-remove_found :
    (p : Session → Bool) (xs : List Session) (x : Session)
    → find p xs ≡ some x
    → AreDistinct xs
    → Free x.profile (remove_first p xs)
Free-remove_found p [] x e d = absurd (cc e)
Free-remove_found p (y ∷ xs) x e d = elim (Bool-cases (p y)) [
  | inl c ↦ let same : y ≡ x = cc (rw c at e) in rw c (subst (λ z. Free z.profile xs) same d.0)
  | inr c ↦
      let found = find-some p xs (rw c at e) in
      rw c (
        beq_symm y.profile x.profile
            ∙ All-In (λ z. has_profile y.profile z ≡ false) xs x d.0 found.0,
        Free-remove_found p xs x (rw c at e) d.1,
      )
]

module _ {M : Type 0} (mint_id : M → Activation → Text × M) where
  pub reconcile_one-skip :
      (now : I64) (s : Sessions) (m : M) (a : Activation)
      → (leb a.end now || is_dismissed s a) ≡ true
      → (reconcile_one mint_id now s m a).0 ≡ s
  unfolding reconcile_one
  reconcile_one-skip now s m a e = rw e

  pub reconcile_one-start :
      (now : I64) (s : Sessions) (m : M) (a : Activation)
      → (leb a.end now || is_dismissed s a) ≡ false
      → (reconcile_one mint_id now s m a).0
        ≡ start s (activated mint_id (session_id mint_id (for_profile s a.profile) m a).0 now a)
  unfolding reconcile_one
  reconcile_one-start now s m a e = rw e

  dismissed-reconcile_one :
      (now : I64) (s : Sessions) (m : M) (a : Activation)
      → (reconcile_one mint_id now s m a).0.dismissed ≡ s.dismissed
  dismissed-reconcile_one now s m a = elim (Bool-cases (leb a.end now || is_dismissed s a)) [
    | inl skip ↦ rw (reconcile_one-skip now s m a skip)
    | inr run ↦ rw (reconcile_one-start now s m a run) (
        dismissed-start s
          (activated mint_id (session_id mint_id (for_profile s a.profile) m a).0 now a))
  ]

  pub is_dismissed-reconcile_one :
      (now : I64) (s : Sessions) (m : M) (a b : Activation)
      → is_dismissed (reconcile_one mint_id now s m a).0 b ≡ is_dismissed s b
  unfolding is_dismissed
  is_dismissed-reconcile_one now s m a b = rw (dismissed-reconcile_one now s m a)

  Free-reconcile_one :
      (p : Text) (now : I64) (s : Sessions) (m : M) (a : Activation)
      → (list_eq a.profile p ≡ true → is_dismissed s a ≡ true)
      → Free p s.running
      → Free p (reconcile_one mint_id now s m a).0.running
  Free-reconcile_one p now s m a skips f = elim (Bool-cases (leb a.end now || is_dismissed s a)) [
    | inl skip ↦ rw (reconcile_one-skip now s m a skip) f
    | inr run ↦ rw (reconcile_one-start now s m a run) (
        Free-start p s
          (activated mint_id (session_id mint_id (for_profile s a.profile) m a).0 now a)
          (ground (arith, skips)) f)
  ]

  Free-reconcile :
      (p : Text) (now : I64) (s : Sessions) (m : M) (activations : List Activation)
      → ((a : Activation) → In a activations → list_eq a.profile p ≡ true → is_dismissed s a ≡ true)
      → Free p s.running
      → Free p (reconcile mint_id now s m activations).0.running
  unfolding reconcile
  Free-reconcile p now s m [] skips f = f
  Free-reconcile p now s m (a ∷ rest) skips f =
      let (s', m', started) = reconcile_one mint_id now s m a in
      Free-reconcile p now s' m' rest
        (λ b i e. is_dismissed-reconcile_one now s m a b ∙ skips b (inr i) e)
        (Free-reconcile_one p now s m a (skips a (inl refl)) f)

  -- A session that was ended, with evidence or without need of any, stays ended for the rest of
  -- its occurrence: where sessions had distinct profiles, and each activation of its profile is of
  -- the span that the session was under, which has an end after its start, no session of its
  -- profile runs after reconciling at any later reading of the clock.
  pub ended_stays_ended :
      (s : Sessions) (id : Text) (now : I64) (satisfied : BTreeSet Lock) (x : Session)
      → IsValid s
      → (end s id now satisfied).1 ≡ ok x
      → (m : M) (later : I64) (activations : List Activation)
      → ((a : Activation) → In a activations → a.profile ≡ x.profile → Covers x a)
      → Free x.profile (reconcile mint_id later (end s id now satisfied).0 m activations).0.running
  ended_stays_ended s id now satisfied x valid ended m later activations covers =
      elim (Option-cases (find (has_id id) s.running)) [
        | inl e ↦ absurd (cc (ended, end-absent s id now satisfied e))
        | inr (y, e) ↦
            let found = end-found s id now satisfied y e in
            elim (Bool-cases (can_release y.lock now satisfied)) [
              | inr c ↦ absurd (cc (ended, rw c at found))
              | inl c ↦
                  let done = rw c at found in
                  let same : y ≡ x = cc (ended, done) in
                  subst (λ z. Free x.profile (reconcile mint_id later z m activations).0.running)
                    (sym (ap (λ t. t.0) done ∙ ap (λ z. without s id z now) same))
                    (Free-reconcile x.profile later (without s id x now) m activations
                      (λ a i p.
                        is_dismissed-without s id x now a
                          (covers a i (list_eq→eq a.profile x.profile p)))
                      (Free-remove_found (has_id id) s.running x (e ∙ ap some same) valid))
            ]
      ]
