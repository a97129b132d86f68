-- ===== src/Mirror/Dismissal.antt =====
-- `ended_here` and `adopt` of crates/curfew-sync/src/mirror.rs: what was ended here and runs at a peer.
use curfew.Prelude.{
  some, arith, sym, subst, ◌≤◌, ◌<◌, ◌⊎◌, ◌&&◌, ◌==◌, ◌≡◌, ap, ◌∙◌, true, List, [], ◌∷◌, inl, inr,
  Bool-cases, Option-cases,
}
use curfew.Prelude.Lists.{any, In, find}
use curfew.Prelude.Order.{list_ord, list_eq, list_eq_refl}
use curfew.Prelude.Text.{Text}
use curfew.Prelude.I64.{I64}
use curfew.Prelude.Result.{ok}
use curfew.Lock.{Lock, can_release}
use curfew.Prelude.Set.{BTreeSet}
use curfew.Prelude.Map.{get-insert}
use curfew.Schedule.{Activation}
use curfew.Session
use curfew.Session.{
  Session, Sessions, clamped_into, Refusal, start, has_profile, has_id, without, dismissal_covers,
  for_profile, is_dismissed,
}
use curfew.Session.Distinct.{Free, IsValid}
use curfew.Session.Ending.{end-absent, end-found, Covers, is_dismissed-without, clamped_into_bounds}
use curfew.Session.Reconcile.{Free-remove_found}
use curfew.Device.{DeviceId}
use curfew.Replay.{Replay}
use curfew.Mirror.{Mirror, Local, ended_here, adopt_replay}
use curfew.Mirror.Adoption.{is_left, Free-adopt_replay}

-- The peer's session is of the span that `x` was under: it began no later and ends at the same instant,
-- or it ends with an activation of that span, whenever it began.
abbrev pub IsSameSpan : Session → List Activation → Session → Type 0
IsSameSpan x activations b =
    ((end : I64) × (x.lock.ends_at ≡ some end)
      × (b.lock.ends_at ≡ some end)
      × (x.started_at < end)
      × (b.started_at ≤ x.started_at))
    ⊎ ((a : Activation) × In a activations × Covers x a × (b.lock.ends_at ≡ some a.end))

covered-without :
    (s : Sessions) (id : Text) (x b : Session) (at end : I64)
    → b.profile ≡ x.profile
    → x.lock.ends_at ≡ some end
    → b.lock.ends_at ≡ some end
    → x.started_at < end
    → b.started_at ≤ x.started_at
    → dismissal_covers (without s id x at) b ≡ true
unfolding dismissal_covers
covered-without s id x b at end p e f long early =
    let (lo, hi) = clamped_into_bounds x at in
    rw (get-insert b.profile x.profile (clamped_into x at) s.dismissed)
      (ground (arith, p, list_eq_refl x.profile, f, early, lo, hi end e long))

any-covering :
    (s : Sessions) (id : Text) (x b : Session) (at : I64) (a : Activation)
    (activations : List Activation)
    → b.profile ≡ x.profile
    → In a activations
    → Covers x a
    → any
        (λ c.
          list_eq c.profile b.profile && ((c.end == a.end) && is_dismissed (without s id x at) c))
        activations
      ≡ true
any-covering s id x b at a [] p i c = absurd i
any-covering s id x b at a (d ∷ ds) p (inl e) c =
    let dismissed : is_dismissed (without s id x at) d ≡ true =
      ap (is_dismissed (without s id x at)) (sym e) ∙ is_dismissed-without s id x at a c in
    let named : list_eq d.profile b.profile ≡ true =
      ap (λ z. list_eq z.profile b.profile) (sym e)
      ∙ ap (λ z. list_eq z b.profile) (c.profile ∙ sym p)
      ∙ list_eq_refl b.profile in
    let ends : d.end ≡ a.end = ap (λ z. z.end) (sym e) in ground (arith, dismissed, named, ends)
any-covering s id x b at a (d ∷ ds) p (inr i) c =
    ground (arith, any-covering s id x b at a ds p i c)

is_left-without :
    (s : Sessions) (id : Text) (x b : Session) (at : I64) (activations : List Activation)
    → b.profile ≡ x.profile
    → IsSameSpan x activations b
    → is_left (without s id x at) activations b ≡ true
unfolding ended_here
is_left-without s id x b at activations p (inl (end, e, f, long, early)) =
    ground (arith, covered-without s id x b at end p e f long early)
is_left-without s id x b at activations p (inr (a, i, c, e)) =
    let held = any-covering s id x b at a activations p i c in rw e (ground (arith, held))

-- What its user ended here, a peer does not put back: after `end` returned a session, from sessions of
-- distinct profiles, taking the log's view back starts no session of its profile, where each of the
-- log's sessions of the profile is of the span that the session was under, which has an end after
-- its start: it began no later and ends at the same instant, or it ends with an activation of that
-- span, whenever it began.
pub adopt-leaves_ended :
    (local : Local) (id : Text) (at : I64) (satisfied : BTreeSet Lock) (x : Session)
    → IsValid local.sessions
    → (Session.end local.sessions id at satisfied).1 ≡ ok x
    → (mine : DeviceId) (believed : Replay) (now : I64) (activations : List Activation) (m : Mirror)
    → ((b : Session)
        → In b believed.sessions.running
        → b.profile ≡ x.profile
        → IsSameSpan x activations b)
    → let after = record local { sessions = (Session.end local.sessions id at satisfied).0 } in
      Free x.profile (adopt_replay mine believed now activations m after).1.sessions.running
adopt-leaves_ended local id at satisfied x valid ended mine believed now activations m same =
    elim (Option-cases (find (has_id id) local.sessions.running)) [
      | inl e ↦ absurd (cc (ended, end-absent local.sessions id at satisfied e))
      | inr (y, e) ↦
          let found = end-found local.sessions id at satisfied y e in
          elim (Bool-cases (can_release y.lock at satisfied)) [
            | inr c ↦ absurd (cc (ended, rw c at found))
            | inl c ↦
                let done = rw c at found in
                let is_x : y ≡ x = cc (ended, done) in
                let gone = without local.sessions id x at in
                subst
                  (λ z.
                    Free x.profile
                      (adopt_replay mine believed now activations m
                        (record local { sessions = z })).1.sessions.running)
                  (sym (ap (λ t. t.0) done ∙ ap (λ z. without local.sessions id z at) is_x))
                  (Free-adopt_replay x.profile mine believed now activations m
                    (record local { sessions = gone })
                    (Free-remove_found (has_id id) local.sessions.running x (e ∙ ap some is_x)
                      valid)
                    (λ b i p. is_left-without local.sessions id x b at activations p (same b i p)))
          ]
    ]
