-- ===== src/Mirror/Adoption.antt =====
-- `adopt` of crates/curfew-sync/src/mirror.rs: what taking the log's view back does to what runs here.
use curfew.Prelude.{
  ℕ, ◌≡◌, refl, ap, ◌∙◌, Bool, true, false, none, List, [], ◌∷◌, inl, inr, Bool-cases, Option-cases,
  is_none, ◌||◌,
}
use curfew.Prelude.Lists.{All, In, remove_first, find}
use curfew.Prelude.Order.{list_ord, list_eq, list_eq→eq}
use curfew.Prelude.Text.{Text}
use curfew.Prelude.I64.{I64}
use curfew.Prelude.Result.{Result, ok, err}
use curfew.Lock.{can_release}
use curfew.Schedule.{Activation}
use curfew.Session
use curfew.Session.{
  Session, Sessions, clamped_into, Refusal, start, has_profile, has_id, without, dismissal_covers,
  for_profile, is_dismissed,
}
use curfew.Session.Distinct.{Free}
use curfew.Session.Ending.{end-absent, end-found}
use curfew.Session.Keeping.{dismissed-start}
use curfew.Session.Reconcile.{Free-start}
use curfew.Device
use curfew.Device.{DeviceId, Crypto, Identity}
use curfew.Oplog.{Entry}
use curfew.Log.{Log, replay}
use curfew.Mirror.Publishing.{publish, adopt, pass}
use curfew.Replay.{Replay}
use curfew.Replay.Promises.{
  KeepsHeld, KeepsHeld-refl, KeepsHeld-trans, start-KeepsHeld, end-KeepsHeld, is_pending,
}
use curfew.Mirror.{
  Mirror, Local, adopt_session, adopt_sessions, after_end, end_over, over_ids, ended_here,
  adopt_replay,
}

-- A session that its user ended: it is not taken over.
abbrev pub is_left : Sessions → List Activation → Session → Bool
is_left s activations session = dismissal_covers s session || ended_here s activations session

abbrev Adopting : Type 0
Adopting = Mirror × Sessions × List Text

-- A round of the loop leaves the sessions as they are, or starts the session.
adopt_session-left :
    (activations : List Activation) (session : Session) (state : Adopting)
    → (is_none (for_profile state.1 session.profile)) ≡ true
    → is_left state.1 activations session ≡ true
    → (adopt_session activations session state).1 ≡ state.1
unfolding adopt_session
adopt_session-left activations session state e f = rw (e, f)

adopt_session-started :
    (activations : List Activation) (session : Session) (state : Adopting)
    → (is_none (for_profile state.1 session.profile)) ≡ true
    → is_left state.1 activations session ≡ false
    → (adopt_session activations session state).1 ≡ start state.1 session
unfolding adopt_session
adopt_session-started activations session state e f = rw (e, f)

adopt_session-again :
    (activations : List Activation) (session : Session) (state : Adopting)
    → (is_none (for_profile state.1 session.profile)) ≡ false
    → (adopt_session activations session state).1 ≡ start state.1 session
unfolding adopt_session
adopt_session-again activations session state e = rw e

-- What holds where nothing is changed and where the session is started holds of a round.
adopt_session-cases :
    (activations : List Activation) (session : Session) (state : Adopting) (P : Sessions → Type 0)
    → P state.1
    → P (start state.1 session)
    → P (adopt_session activations session state).1
adopt_session-cases activations session state P same started =
    elim (Bool-cases (is_none (for_profile state.1 session.profile))) [
      | inr e ↦ rw (adopt_session-again activations session state e) started
      | inl e ↦ elim (Bool-cases (is_left state.1 activations session)) [
        | inl f ↦ rw (adopt_session-left activations session state e f) same
        | inr f ↦ rw (adopt_session-started activations session state e f) started
      ]
    ]

adopt_sessions-KeepsHeld :
    (now : I64) (activations : List Activation) (believed : List Session) (state : Adopting)
    → All (λ s. is_pending s.lock now ≡ true) believed
    → KeepsHeld now state.1 (adopt_sessions activations believed state).1
unfolding adopt_sessions
adopt_sessions-KeepsHeld now activations [] state h = KeepsHeld-refl now state.1
adopt_sessions-KeepsHeld now activations (session ∷ rest) state h =
    let next = adopt_session activations session state in
    KeepsHeld-trans now state.1 next.1 (adopt_sessions activations rest next).1
      (adopt_session-cases activations session state (KeepsHeld now state.1)
        (KeepsHeld-refl now state.1) (start-KeepsHeld now state.1 session h.0))
      (adopt_sessions-KeepsHeld now activations rest next h.1)

after_end-sessions :
    (id : Text) (state : Mirror × Sessions) (done : Sessions × Result Session Refusal)
    → (after_end id state done).1 ≡ done.0
after_end-sessions id (m, s) (t, ok x) = refl
after_end-sessions id (m, s) (t, err x) = refl

end_over-KeepsHeld :
    (now : I64) (ids : List Text) (state : Mirror × Sessions)
    → KeepsHeld now state.1 (end_over now ids state).1
unfolding end_over
end_over-KeepsHeld now [] state = KeepsHeld-refl now state.1
end_over-KeepsHeld now (id ∷ rest) state =
    let done = Session.end state.1 id now [] in
    let next = after_end id state done in
    KeepsHeld-trans now state.1 next.1 (end_over now rest next).1
      (rw (after_end-sessions id state done) (end-KeepsHeld now state.1 id))
      (end_over-KeepsHeld now rest next)

adopt-keeps_locked :
    (mine : DeviceId) (believed : Replay) (now : I64) (activations : List Activation) (m : Mirror)
    (local : Local)
    → All (λ s. is_pending s.lock now ≡ true) believed.sessions.running
    → KeepsHeld now local.sessions (adopt_replay mine believed now activations m local).1.sessions
unfolding adopt_replay
adopt-keeps_locked mine believed now activations m local h =
    let (m1, sessions1, adopted) =
      adopt_sessions activations believed.sessions.running (m, local.sessions, []) in
    let over = over_ids sessions1.running believed.sessions.running in
    KeepsHeld-trans now local.sessions sessions1 (end_over now over (m1, sessions1)).1
      (adopt_sessions-KeepsHeld now activations believed.sessions.running (m, local.sessions, []) h)
      (end_over-KeepsHeld now over (m1, sessions1))

-- A whole pass of the mirror opens nothing: a session that is locked here and
-- has not run out at `now` still runs afterwards under its id and profile, and what releases it then
-- would have released it before, where no session that the log is replayed into, once what happened
-- here is recorded, has a delayed release that has landed by then.
pub pass-keeps_locked :
    {K X : Type 0} (crypto : Crypto K X) (canonical : Entry → List ℕ) (me : Identity K X)
    (now : I64) (log : Log) (activations : List Activation) (m : Mirror) (local : Local)
    → All
        (λ s. is_pending s.lock now ≡ true)
        (replay (publish crypto canonical me now m log local).1.0 now).sessions.running
    → KeepsHeld now local.sessions (pass crypto canonical me now log activations m local).2.sessions
unfolding pass adopt
pass-keeps_locked crypto canonical me now log activations m local h =
    let (m1, (log1, published)) = publish crypto canonical me now m log local in
    adopt-keeps_locked (Device.id crypto me) (replay log1 now) now activations m1 local h

find-Free : (p : Text) (xs : List Session) → Free p xs → find (has_profile p) xs ≡ none
find-Free p [] f = refl
find-Free p (x ∷ xs) f = rw f.0 (find-Free p xs f.1)

Free-remove_first :
    (p : Text) (q : Session → Bool) (xs : List Session) → Free p xs → Free p (remove_first q xs)
Free-remove_first p q [] f = tt
Free-remove_first p q (x ∷ xs) f = elim (Bool-cases (q x)) [
  | inl e ↦ rw e f.1
  | inr e ↦ rw e (f.0, Free-remove_first p q xs f.1)
]

Free-end :
    (p : Text) (s : Sessions) (id : Text) (now : I64)
    → Free p s.running
    → Free p (Session.end s id now []).0.running
Free-end p s id now f = elim (Option-cases (find (has_id id) s.running)) [
  | inl e ↦ rw (end-absent s id now [] e) f
  | inr (x, e) ↦ rw (end-found s id now [] x e) (elim (Bool-cases (can_release x.lock now [])) [
    | inr c ↦ rw c f
    | inl c ↦ rw c (Free-remove_first p (has_id id) s.running f)
  ])
]

Free-end_over :
    (p : Text) (now : I64) (ids : List Text) (state : Mirror × Sessions)
    → Free p state.1.running
    → Free p (end_over now ids state).1.running
unfolding end_over
Free-end_over p now [] state f = f
Free-end_over p now (id ∷ rest) state f =
    let done = Session.end state.1 id now [] in
    Free-end_over p now rest (after_end id state done)
      (rw (after_end-sessions id state done) (Free-end p state.1 id now f))

-- Whether a session is left depends on what was ended alone.
is_left-same :
    (s t : Sessions) (activations : List Activation) (session : Session)
    → t.dismissed ≡ s.dismissed
    → is_left t activations session ≡ is_left s activations session
unfolding dismissal_covers ended_here is_dismissed
is_left-same s t activations session e = rw e

Free-adopt_session :
    (p : Text) (activations : List Activation) (session : Session) (state : Adopting)
    → (list_eq session.profile p ≡ true → is_left state.1 activations session ≡ true)
    → Free p state.1.running
    → Free p (adopt_session activations session state).1.running
unfolding for_profile
Free-adopt_session p activations session state left f =
    elim (Bool-cases (list_eq session.profile p)) [
      | inr other ↦
          adopt_session-cases activations session state (λ s. Free p s.running) f
            (Free-start p state.1 session other f)
      | inl same ↦
          let q : session.profile ≡ p = list_eq→eq session.profile p same in
          let absent = find-Free p state.1.running f in
          rw
            (adopt_session-left activations session state
              (ap (λ z. is_none (find (has_profile z) state.1.running)) q ∙ ap is_none absent)
              (left same))
            f
    ]

Free-adopt_sessions :
    (p : Text) (s : Sessions) (activations : List Activation) (believed : List Session)
    (state : Adopting)
    → state.1.dismissed ≡ s.dismissed
    → ((b : Session) → In b believed → b.profile ≡ p → is_left s activations b ≡ true)
    → Free p state.1.running
    → Free p (adopt_sessions activations believed state).1.running
unfolding adopt_sessions
Free-adopt_sessions p s activations [] state d left f = f
Free-adopt_sessions p s activations (session ∷ rest) state d left f =
    let next = adopt_session activations session state in
    Free-adopt_sessions p s activations rest next
      (adopt_session-cases activations session state (λ t. t.dismissed ≡ s.dismissed) d
        (dismissed-start state.1 session ∙ d))
      (λ b i. left b (inr i))
      (Free-adopt_session p activations session state
        (λ e.
          is_left-same s state.1 activations session d
          ∙ left session (inl refl) (list_eq→eq session.profile p e))
        f)

pub Free-adopt_replay :
    (p : Text) (mine : DeviceId) (believed : Replay) (now : I64) (activations : List Activation)
    (m : Mirror) (local : Local)
    → Free p local.sessions.running
    → ((b : Session)
        → In b believed.sessions.running
        → b.profile ≡ p
        → is_left local.sessions activations b ≡ true)
    → Free p (adopt_replay mine believed now activations m local).1.sessions.running
unfolding adopt_replay
Free-adopt_replay p mine believed now activations m local f left =
    let (m1, sessions1, adopted) =
      adopt_sessions activations believed.sessions.running (m, local.sessions, []) in
    Free-end_over p now (over_ids sessions1.running believed.sessions.running) (m1, sessions1)
      (Free-adopt_sessions p local.sessions activations believed.sessions.running
        (m, local.sessions, []) refl left f)
