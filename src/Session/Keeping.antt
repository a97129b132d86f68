-- ===== src/Session/Keeping.antt =====
-- `start`, `restore_without_weakening` and `reconcile` of crates/curfew-core/src/session.rs, and
-- what runs before them.
use curfew.Prelude.{
  ◌≡◌, refl, sym, ◌∙◌, subst, Bool, true, none, some, List, [], ◌∷◌, ◌++◌, inl, inr, arith,
  Bool-cases, Option-cases, leb, if◌then◌else◌, ◌||◌,
}
use curfew.Prelude.Lists.{find, modify_first, In, In-append_left, In-modify_first}
use curfew.Prelude.Order.{list_ord, list_lt, list_eq→eq}
use curfew.Prelude.Text.{Text}
use curfew.Prelude.I64.{I64}
use curfew.Prelude.Map
use curfew.Prelude.Map.{BTreeMap, get-or_insert}
use curfew.Prelude.Set.{BTreeSet}
use curfew.Lock
use curfew.Lock.{Lock, LockSet, can_release, lock_ord}
use curfew.Lock.Harden.{harden-never_weakens}
use curfew.Lock.Release.{merge-never_weakens}
use curfew.Schedule
use curfew.Schedule.{Activation}
use curfew.Session.{
  Session, Sessions, has_profile, sort_by_id, insert_by_id, push, strengthen, hardened, start,
  restore_session, restore_running, restore_dismissed, restore_without_weakening, dismissal_covers,
  is_dismissed, for_profile, reconcile_one, reconcile, activated, session_id,
}

-- `new` stands for the same session as `old`, and whatever releases `new` releases `old`.
pub record Stronger (new old : Session) : Type 0 where
  pub same_id : new.id ≡ old.id
  pub same_profile : new.profile ≡ old.profile
  pub releases :
      (now : I64) (satisfied : BTreeSet Lock)
      → can_release new.lock now satisfied ≡ true
      → can_release old.lock now satisfied ≡ true

pub Stronger-refl : (e : Session) → Stronger e e
Stronger-refl e = record { same_id = refl; same_profile = refl; releases = λ now satisfied h. h }

Stronger-trans : {c b a : Session} → Stronger c b → Stronger b a → Stronger c a
Stronger-trans h k = record {
  same_id = h.same_id ∙ k.same_id;
  same_profile = h.same_profile ∙ k.same_profile;
  releases = λ now satisfied r. k.releases now satisfied (h.releases now satisfied r);
}

-- Each session that runs in `s` still runs in `t`, at least as strongly.
abbrev pub Keeps : Sessions → Sessions → Type 0
Keeps s t = (e : Session) → In e s.running → (e' : Session) × In e' t.running × Stronger e' e

pub Keeps-refl : (s : Sessions) → Keeps s s
Keeps-refl s e m = (e, m, Stronger-refl e)

pub Keeps-trans : (s t u : Sessions) → Keeps s t → Keeps t u → Keeps s u
Keeps-trans s t u h k e m =
    let (e1, m1, q1) = h e m in let (e2, m2, q2) = k e1 m1 in (e2, m2, Stronger-trans q2 q1)

In-insert_by_id_self : (x : Session) (xs : List Session) → In x (insert_by_id x xs)
unfolding insert_by_id
In-insert_by_id_self x [] = inl refl
In-insert_by_id_self x (y ∷ xs) = elim (Bool-cases (list_lt y.id x.id)) [
  | inl k ↦ rw k (inr (In-insert_by_id_self x xs))
  | inr k ↦ rw k (inl refl)
]

In-insert_by_id : (e x : Session) (xs : List Session) → In e xs → In e (insert_by_id x xs)
unfolding insert_by_id
In-insert_by_id e x [] m = inr m
In-insert_by_id e x (y ∷ xs) m = elim (Bool-cases (list_lt y.id x.id)) [
  | inl k ↦ rw k (elim m [ inl q ↦ inl q | inr r ↦ inr (In-insert_by_id e x xs r) ])
  | inr k ↦ rw k (inr m)
]

pub In-sort_by_id : (e : Session) (xs : List Session) → In e xs → In e (sort_by_id xs)
unfolding sort_by_id
In-sort_by_id e [] m = m
In-sort_by_id e (x ∷ xs) (inl q) =
    subst (λ y. In y (insert_by_id x (sort_by_id xs))) (sym q)
      (In-insert_by_id_self x (sort_by_id xs))
In-sort_by_id e (x ∷ xs) (inr m) = In-insert_by_id e x (sort_by_id xs) (In-sort_by_id e xs m)

push-Keeps : (s : Sessions) (new : Session) → Keeps s (push s new)
push-Keeps s new e m = (
  e,
  In-sort_by_id e (s.running ++ new ∷ []) (In-append_left e s.running (new ∷ []) m),
  Stronger-refl e,
)

-- A change of the first session that passes keeps the sessions if it makes that one stronger.
modify_first-Keeps :
    (s : Sessions) (p : Session → Bool) (f : Session → Session)
    → ((e : Session) → Stronger (f e) e)
    → Keeps s (record s { running = modify_first p f s.running })
modify_first-Keeps s p f g e m = elim (In-modify_first e p f s.running m) [
  | inl stays ↦ (e, stays, Stronger-refl e)
  | inr (passes, changed) ↦ (f e, changed, g e)
]

strengthen-Stronger :
    (new e : Session) → new.lock.delayed_release_at ≡ none → Stronger (strengthen new e) e
strengthen-Stronger new e fresh = record {
  same_id = refl;
  same_profile = refl;
  releases =
      λ now satisfied r. (merge-never_weakens e.lock new.lock now satisfied r).0 (ground arith);
}

hardened-Stronger : (incoming e : Session) → Stronger (hardened incoming e) e
hardened-Stronger incoming e = record {
  same_id = refl;
  same_profile = refl;
  releases = (harden-never_weakens e.lock incoming.lock).0;
}

pub start-new :
    (s : Sessions) (new : Session)
    → find (has_profile new.profile) s.running ≡ none
    → start s new ≡ push s new
unfolding start
start-new s new e = rw (e, start)

pub start-again :
    (s : Sessions) (new : Session) {old : Session}
    → find (has_profile new.profile) s.running ≡ some old
    → start s new
      ≡ record s { running = modify_first (has_profile new.profile) (strengthen new) s.running }
unfolding start
start-again s new e = rw (e, start)

-- Starting a session whose lock has no delayed release under way keeps every running session.
pub start-Keeps :
    (s : Sessions) (new : Session) → new.lock.delayed_release_at ≡ none → Keeps s (start s new)
start-Keeps s new fresh = elim (Option-cases (find (has_profile new.profile) s.running)) [
  | inl e ↦ rw (start-new s new e) (push-Keeps s new)
  | inr (old, e) ↦ rw (start-again s new e) (
      modify_first-Keeps s (has_profile new.profile) (strengthen new)
        (λ x. strengthen-Stronger new x fresh))
]

pub dismissed-start : (s : Sessions) (new : Session) → (start s new).dismissed ≡ s.dismissed
dismissed-start s new = elim (Option-cases (find (has_profile new.profile) s.running)) [
  | inl e ↦ rw (start-new s new e)
  | inr (old, e) ↦ rw (start-again s new e)
]

-- What one round of the restore does.
pub restore_session-running :
    (s : Sessions) (new : Session) {old : Session}
    → find (has_profile new.profile) s.running ≡ some old
    → restore_session s new
      ≡ record s { running = modify_first (has_profile new.profile) (hardened new) s.running }
unfolding restore_session
restore_session-running s new e = rw (e, restore_session)

pub restore_session-absent :
    (s : Sessions) (new : Session)
    → find (has_profile new.profile) s.running ≡ none
    → restore_session s new ≡ (if dismissal_covers s new then s else push s new)
unfolding restore_session
restore_session-absent s new e = rw (e, restore_session) (rw (start-new s new e))

restore_session-Keeps : (s : Sessions) (new : Session) → Keeps s (restore_session s new)
restore_session-Keeps s new = elim (Option-cases (find (has_profile new.profile) s.running)) [
  | inr (old, e) ↦
      rw (restore_session-running s new e)
        (modify_first-Keeps s (has_profile new.profile) (hardened new) (hardened-Stronger new))
  | inl e ↦ rw (restore_session-absent s new e) (elim (Bool-cases (dismissal_covers s new)) [
    | inl c ↦ rw c (Keeps-refl s)
    | inr c ↦ rw c (push-Keeps s new)
  ])
]

pub dismissed-restore_session :
    (s : Sessions) (new : Session) → (restore_session s new).dismissed ≡ s.dismissed
dismissed-restore_session s new = elim (Option-cases (find (has_profile new.profile) s.running)) [
  | inr (old, e) ↦ rw (restore_session-running s new e)
  | inl e ↦
      rw (restore_session-absent s new e)
        (elim (Bool-cases (dismissal_covers s new)) [ inl c ↦ rw c | inr c ↦ rw c ])
]

restore_running-Keeps : (s : Sessions) (xs : List Session) → Keeps s (restore_running s xs)
unfolding restore_running
restore_running-Keeps s [] = Keeps-refl s
restore_running-Keeps s (x ∷ xs) =
    Keeps-trans s (restore_session s x) (restore_running (restore_session s x) xs)
      (restore_session-Keeps s x) (restore_running-Keeps (restore_session s x) xs)

dismissed-restore_running :
    (s : Sessions) (xs : List Session) → (restore_running s xs).dismissed ≡ s.dismissed
unfolding restore_running
dismissed-restore_running s [] = refl
dismissed-restore_running s (x ∷ xs) =
    dismissed-restore_running (restore_session s x) xs ∙ dismissed-restore_session s x

get-restore_dismissed :
    (p : Text) (d : BTreeMap Text I64) (xs : List (Text × I64)) {at : I64}
    → Map.get p d ≡ some at
    → Map.get p (restore_dismissed d xs) ≡ some at
unfolding restore_dismissed
get-restore_dismissed p d [] h = h
get-restore_dismissed p d ((k, t) ∷ xs) h =
    get-restore_dismissed p (Map.or_insert k t d) xs (kept p k t d h)
  where
    kept :
        (p k : Text) (t : I64) (d : BTreeMap Text I64) {at : I64}
        → Map.get p d ≡ some at
        → Map.get p (Map.or_insert k t d) ≡ some at
    kept p k t d h = ground (arith, get-or_insert p k t d, list_eq→eq p k)

-- Whatever is read back from storage: each session that runs still runs afterwards, under the same id
-- and profile, and what releases it then would have released it before; and no dismissal that is
-- remembered is moved or forgotten.
pub restore_without_weakening-Keeps :
    (s incoming : Sessions)
    → Keeps s (restore_without_weakening s incoming)
      × ((profile : Text) (at : I64)
          → Map.get profile s.dismissed ≡ some at
          → Map.get profile (restore_without_weakening s incoming).dismissed ≡ some at)
unfolding restore_without_weakening
restore_without_weakening-Keeps s incoming = (
  restore_running-Keeps s incoming.running,
  λ profile at h.
      get-restore_dismissed profile (restore_running s incoming.running).dismissed
        incoming.dismissed (rw (dismissed-restore_running s incoming.running) h),
)

module _ {M : Type 0} (mint_id : M → Activation → Text × M) where
  reconcile_one-Keeps :
      (now : I64) (s : Sessions) (m : M) (a : Activation)
      → Keeps s (reconcile_one mint_id now s m a).0
  unfolding reconcile_one
  reconcile_one-Keeps now s m a = elim (Bool-cases (leb a.end now || is_dismissed s a)) [
    | inl skip ↦ rw skip (Keeps-refl s)
    | inr run ↦ rw run (
        start-Keeps s (activated mint_id (session_id mint_id (for_profile s a.profile) m a).0 now a)
          (unfold Schedule.lock Lock.new in refl))
  ]

  -- Whatever the schedules say, bringing the sessions into line with them ends none and makes none
  -- easier to end.
  pub reconcile-Keeps :
      (now : I64) (s : Sessions) (m : M) (activations : List Activation)
      → Keeps s (reconcile mint_id now s m activations).0
  unfolding reconcile
  reconcile-Keeps now s m [] = Keeps-refl s
  reconcile-Keeps now s m (a ∷ rest) =
      let (s', m', started) = reconcile_one mint_id now s m a in
      Keeps-trans s s' (reconcile mint_id now s' m' rest).0 (reconcile_one-Keeps now s m a)
        (reconcile-Keeps now s' m' rest)
