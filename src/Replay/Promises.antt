-- ===== src/Replay/Promises.antt =====
-- `apply` of crates/curfew-sync/src/oplog.rs: what folding entries does to a session that holds.
use curfew.Prelude.{
  ◌≡◌, refl, sym, ap, ◌∙◌, Bool, true, false, not, some, List, [], ◌∷◌, ◌++◌, inl, inr, ◌⊎◌, arith,
  Bool-cases, Option-cases, ltb, is_none_or, is_some_and, min,
}
use curfew.Prelude.Lists.{
  find-modify_first, find, modify_first, remove_first, In, In-append_left, In-modify_first, All,
}
use curfew.Prelude.Order.{list_ord}
use curfew.Prelude.Text.{Text}
use curfew.Prelude.I64.{I64, plus}
use curfew.Prelude.Set
use curfew.Prelude.Set.{BTreeSet}
use curfew.Lock
use curfew.Lock.{
  Lock, LockSet, lock_ord, can_release, is_expired, is_locked, delayed_release_seconds,
}
use curfew.Lock.Release.{landed, merge-never_weakens}
use curfew.Session
use curfew.Session.{Session, Sessions, has_profile, has_id, start, push, strengthen, without}
use curfew.Session.Keeping.{start-new, start-again, In-sort_by_id}
use curfew.Session.Ending.{end-absent, end-found}
use curfew.Oplog.{Op, Entry}
use curfew.Replay.{
  Replay, holds, apply, fold, apply_op, apply_end, propose, waits_for, earliest_release,
}

pub holds-can_release : (now : I64) (s : Session) → holds now s ≡ not (can_release s.lock now [])
unfolding is_locked can_release Set.is_subset Set.mem
holds-can_release now s = ground arith

-- At this instant, `new` stands for the same session as `old`, and what releases it releases `old`.
pub record StandsFor (now : I64) (new old : Session) : Type 0 where
  pub same_id : new.id ≡ old.id
  pub same_profile : new.profile ≡ old.profile
  pub releases :
      (satisfied : BTreeSet Lock)
      → can_release new.lock now satisfied ≡ true
      → can_release old.lock now satisfied ≡ true

StandsFor-refl : (now : I64) (s : Session) → StandsFor now s s
StandsFor-refl now s = record { same_id = refl; same_profile = refl; releases = λ satisfied h. h }

StandsFor-trans :
    (now : I64) {c b a : Session} → StandsFor now c b → StandsFor now b a → StandsFor now c a
StandsFor-trans now h k = record {
  same_id = h.same_id ∙ k.same_id;
  same_profile = h.same_profile ∙ k.same_profile;
  releases = λ satisfied r. k.releases satisfied (h.releases satisfied r);
}

StandsFor-holds :
    (now : I64) (new old : Session)
    → StandsFor now new old
    → holds now old ≡ true
    → holds now new ≡ true
StandsFor-holds now new old h k = elim (Bool-cases (can_release new.lock now [])) [
  | inl c ↦ absurd (ground (arith, h.releases [] c, holds-can_release now old))
  | inr c ↦ ground (arith, holds-can_release now new)
]

-- Each session that holds in `s` is still there in `t`.
abbrev pub KeepsHeld : I64 → Sessions → Sessions → Type 0
KeepsHeld now s t =
    (e : Session)
    → In e s.running
    → holds now e ≡ true
    → (e' : Session) × In e' t.running × StandsFor now e' e

pub KeepsHeld-refl : (now : I64) (s : Sessions) → KeepsHeld now s s
KeepsHeld-refl now s e m h = (e, m, StandsFor-refl now e)

pub KeepsHeld-trans :
    (now : I64) (s t u : Sessions) → KeepsHeld now s t → KeepsHeld now t u → KeepsHeld now s u
KeepsHeld-trans now s t u h k e m held =
    let (e1, m1, q1) = h e m held in
    let (e2, m2, q2) = k e1 m1 (StandsFor-holds now e1 e q1 held) in
    (e2, m2, StandsFor-trans now q2 q1)

modify_first-KeepsHeld :
    (now : I64) (s : Sessions) (p : Session → Bool) (f : Session → Session)
    → ((e : Session) → holds now e ≡ true → StandsFor now (f e) e)
    → KeepsHeld now s (record s { running = modify_first p f s.running })
modify_first-KeepsHeld now s p f g e m h = elim (In-modify_first e p f s.running m) [
  | inl stays ↦ (e, stays, StandsFor-refl now e)
  | inr (passes, changed) ↦ (f e, changed, g e h)
]

push-KeepsHeld : (now : I64) (s : Sessions) (new : Session) → KeepsHeld now s (push s new)
push-KeepsHeld now s new e m h = (
  e,
  In-sort_by_id e (s.running ++ new ∷ []) (In-append_left e s.running (new ∷ []) m),
  StandsFor-refl now e,
)

-- A release that is asked for has not landed.
abbrev pub is_pending : LockSet → I64 → Bool
is_pending lock now = is_none_or lock.delayed_release_at (λ t. ltb now t)

not_landed : (lock : LockSet) (now : I64) → is_pending lock now ≡ true → landed lock now ≡ false
not_landed lock now h = ground arith

merged-StandsFor :
    (now : I64) (old : Session) (lock : LockSet) (started_at : I64)
    → is_pending lock now ≡ true
    → StandsFor now (record old { lock = Lock.merge old.lock lock; started_at = started_at }) old
merged-StandsFor now old lock started_at p = record {
  same_id = refl;
  same_profile = refl;
  releases =
      λ satisfied r. (merge-never_weakens old.lock lock now satisfied r).0 (not_landed lock now p);
}

pub start-KeepsHeld :
    (now : I64) (s : Sessions) (new : Session)
    → is_pending new.lock now ≡ true
    → KeepsHeld now s (start s new)
start-KeepsHeld now s new p = elim (Option-cases (find (has_profile new.profile) s.running)) [
  | inl e ↦ rw (start-new s new e) (push-KeepsHeld now s new)
  | inr (old, e) ↦ rw (start-again s new e) (
      modify_first-KeepsHeld now s (has_profile new.profile) (strengthen new)
        (λ x h. merged-StandsFor now x new.lock (min x.started_at new.started_at) p))
]

-- The first element that passes is removed, and every other stays.
pub In-remove_first :
    (e : Session) (p : Session → Bool) (xs : List Session)
    → In e xs
    → In e (remove_first p xs) ⊎ (find p xs ≡ some e)
In-remove_first e p [] m = absurd m
In-remove_first e p (x ∷ xs) (inl q) = elim (Bool-cases (p x)) [
  | inl k ↦ rw k (inr (ap some (sym q)))
  | inr k ↦ rw k (inl (inl q))
]
In-remove_first e p (x ∷ xs) (inr m) = elim (Bool-cases (p x)) [
  | inl k ↦ rw k (inl m)
  | inr k ↦
      rw k (elim (In-remove_first e p xs m) [ inl stays ↦ inl (inr stays) | inr found ↦ inr found ])
]

-- Ending without evidence leaves the sessions that hold.
pub end-KeepsHeld :
    (now : I64) (s : Sessions) (id : Text) → KeepsHeld now s (Session.end s id now []).0
end-KeepsHeld now s id = elim (Option-cases (find (has_id id) s.running)) [
  | inl e ↦ rw (end-absent s id now [] e) (KeepsHeld-refl now s)
  | inr (x, e) ↦ rw (end-found s id now [] x e) (elim (Bool-cases (can_release x.lock now [])) [
    | inr c ↦ rw c (KeepsHeld-refl now s)
    | inl c ↦ rw c (λ y m held. elim (In-remove_first y (has_id id) s.running m) [
      | inl stays ↦ (y, stays, StandsFor-refl now y)
      | inr found ↦
          let same : x ≡ y = cc (found, e) in
          absurd (ground (arith, ap (λ z. can_release z.lock now []) same, holds-can_release now y))
    ])
  ])
]

end_op-KeepsHeld :
    (now : I64) (state : Replay) (id : Text)
    → KeepsHeld now state.sessions (apply_end state id now).sessions
end_op-KeepsHeld now state id =
    elim (Bool-cases (is_some_and (Session.get state.sessions id) (holds now))) [
      | inl h ↦ rw h (KeepsHeld-refl now state.sessions)
      | inr h ↦ rw h (end-KeepsHeld now state.sessions id)
    ]

-- An operation that cannot open a lock at `now`: the lock of a start has no release that has landed,
-- and a release was asked for less than 24 hours before.
abbrev pub CannotOpen : I64 → I64 → Op → Type 0
CannotOpen now entry_at (Op.start session) = is_pending session.lock now ≡ true
CannotOpen now entry_at (Op.release_requested id at) =
    ltb now (plus entry_at delayed_release_seconds) ≡ true
CannotOpen now entry_at _ = Unit

op-KeepsHeld :
    (now entry_at : I64) (state : Replay) (author : Text) (op : Op)
    → CannotOpen now entry_at op
    → KeepsHeld now state.sessions (apply_op state author entry_at now op).sessions
op-KeepsHeld now entry_at state author (Op.start session) p =
    start-KeepsHeld now state.sessions session p
op-KeepsHeld now entry_at state author (Op.end id) p = end_op-KeepsHeld now state id
op-KeepsHeld now entry_at state author (Op.release_requested id at) p =
    let landing = earliest_release entry_at at in
    modify_first-KeepsHeld now state.sessions (waits_for id) (propose landing) λ e h.
      merged-StandsFor now e (record e.lock { delayed_release_at = some landing }) e.started_at
        (ground arith)
op-KeepsHeld now entry_at state author (Op.used key at seconds) p =
    KeepsHeld-refl now state.sessions
op-KeepsHeld now entry_at state author (Op.launched key at) p = KeepsHeld-refl now state.sessions
op-KeepsHeld now entry_at state author (Op.revoked device) p = KeepsHeld-refl now state.sessions
op-KeepsHeld now entry_at state author (Op.calendar events) p = KeepsHeld-refl now state.sessions
op-KeepsHeld now entry_at state author (Op.released id) p = KeepsHeld-refl now state.sessions
op-KeepsHeld now entry_at state author (Op.emergency_used at) p = KeepsHeld-refl now state.sessions

-- A session that is locked and has not run out at `now` is still there once
-- the entries are folded in, under its id and profile, and what releases it then would have released
-- it before, where each release was asked for less than 24 hours before `now` and no session was
-- started with a delayed release that has landed by then.
pub fold-keeps_locked :
    (now : I64) (state : Replay) (entries : List Entry)
    → All (λ e. CannotOpen now e.at e.op) entries
    → KeepsHeld now state.sessions (fold state entries now).sessions
unfolding fold apply
fold-keeps_locked now state [] h = KeepsHeld-refl now state.sessions
fold-keeps_locked now state (e ∷ rest) h =
    KeepsHeld-trans now state.sessions (apply state e now).sessions
      (fold (apply state e now) rest now).sessions (op-KeepsHeld now e.at state e.author e.op h.0)
      (fold-keeps_locked now (apply state e now) rest h.1)

landed-merge :
    (a b : LockSet) (now : I64)
    → is_locked a ≡ true
    → landed b now ≡ true
    → is_expired (Lock.merge a b) now ≡ true
unfolding Lock.merge is_locked is_expired Lock.is_empty
landed-merge a b now h l = ground arith

-- A start is believed as it stands: where a session of the profile is locked, a start of the profile
-- whose lock has a delayed release that has landed leaves the session, under its own id, with a lock
-- that has run out, however many hours were left of it.
pub start-opens_lock :
    (now : I64) (state : Replay) (entry : Entry) (old new : Session)
    → entry.op ≡ Op.start new
    → find (has_profile new.profile) state.sessions.running ≡ some old
    → holds now old ≡ true
    → landed new.lock now ≡ true
    → (x : Session) × (find (has_profile new.profile) (apply state entry now).sessions.running
        ≡ some x)
      × (x.id ≡ old.id)
      × (is_expired x.lock now ≡ true)
unfolding apply
start-opens_lock now state entry old new e found h l = (
  strengthen new old,
  rw (e, start-again state.sessions new found)
      (find-modify_first (has_profile new.profile) (strengthen new) state.sessions.running old
        (λ x. refl) found),
  refl,
  landed-merge old.lock new.lock now (ground arith) l,
)
