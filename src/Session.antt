-- ===== src/Session.antt =====
-- crates/curfew-core/src/session.rs: the running sessions, and the only ways to change them.
pub mod Keeping
pub mod Distinct
pub mod Ending
pub mod Reconcile
pub mod Due
use curfew.Prelude.{
  ℕ, ◌+◌, ◌-◌, min, max, ◌≡◌, Bool, true, false, not, ◌&&◌, ◌||◌, Option, none, some, List, [], ◌∷◌,
  ◌++◌, map, is_none_or, is_some_and, leb, ltb, if◌then◌else◌,
}
use curfew.Prelude.Lists.{filter, find, modify_first, remove_first}
use curfew.Prelude.Order.{list_ord, list_eq, list_lt}
use curfew.Prelude.Text.{Text}
use curfew.Prelude.I64.{I64, saturating_minus}
use curfew.Prelude.Set
use curfew.Prelude.Set.{BTreeSet}
use curfew.Prelude.Map
use curfew.Prelude.Map.{BTreeMap}
use curfew.Prelude.Result.{Result, ok, err}
use curfew.Lock
use curfew.Lock.{Lock, LockSet, lock_ord, is_expired, can_release}
use curfew.Emergency.{Pass}
use curfew.Schedule
use curfew.Schedule.{Activation, ActivationSource}

pub data SessionSource : Type 0 where
  manual : SessionSource
  weekly : Text → SessionSource
  calendar : Text → Text → SessionSource

abbrev pub from_activation : ActivationSource → SessionSource
from_activation (ActivationSource.weekly schedule) = weekly schedule
from_activation (ActivationSource.calendar schedule event) = calendar schedule event

pub record Session : Type 0 where
  pub id : Text
  pub profile : Text
  pub source : SessionSource
  pub started_at : I64
  pub lock : LockSet

unfoldable pub is_over : Session → I64 → Bool
is_over s now = is_expired s.lock now

pub data Refusal : Type 0 where
  not_running : Refusal
  locked : BTreeSet Lock → Option I64 → Option I64 → Refusal

pub record Sessions : Type 0 where
  pub running : List Session
  pub dismissed : BTreeMap Text I64

abbrev pub no_sessions : Sessions
no_sessions = record { running = []; dismissed = [] }

abbrev started_by : Text → SessionSource → Bool
started_by schedule manual = false
started_by schedule (weekly id) = list_eq id schedule
started_by schedule (calendar id event) = list_eq id schedule

unfoldable pub running_from : List Session → Text → List Session
running_from running schedule = filter (λ s. started_by schedule s.source) running

abbrev pub has_profile : Text → Session → Bool
has_profile profile s = list_eq s.profile profile

abbrev pub has_id : Text → Session → Bool
has_id id s = list_eq s.id id

-- `sort_by` on ids is stable.
unfoldable pub insert_by_id : Session → List Session → List Session
insert_by_id s [] = s ∷ []
insert_by_id s (x ∷ xs) =
    let rest = insert_by_id s xs in if list_lt x.id s.id then x ∷ rest else s ∷ x ∷ xs

unfoldable pub sort_by_id : List Session → List Session
sort_by_id [] = []
sort_by_id (x ∷ xs) = insert_by_id x (sort_by_id xs)

-- The session of that profile once it is asked for again.
abbrev pub strengthen : Session → Session → Session
strengthen new existing = record existing {
  lock = Lock.merge existing.lock new.lock;
  started_at = min existing.started_at new.started_at;
}

abbrev pub push : Sessions → Session → Sessions
push s session = record s { running = sort_by_id (s.running ++ session ∷ []) }

unfoldable pub start : Sessions → Session → Sessions
start s session = elim (find (has_profile session.profile) s.running) [
  | none ↦ push s session
  | some _ ↦ record s {
    running = modify_first (has_profile session.profile) (strengthen session) s.running;
  }
]

unfoldable pub get : Sessions → Text → Option Session
get s id = find (has_id id) s.running

unfoldable pub for_profile : Sessions → Text → Option Session
for_profile s profile = find (has_profile profile) s.running

unfoldable pub is_dismissed : Sessions → Activation → Bool
is_dismissed s a =
    is_some_and (Map.get a.profile s.dismissed) (λ at. leb a.start at && ltb at a.end)

unfoldable pub dismissal_covers : Sessions → Session → Bool
dismissal_covers s session =
    is_some_and (Map.get session.profile s.dismissed)
      (λ at. leb session.started_at at && is_none_or session.lock.ends_at (λ end. ltb at end))

abbrev pub hardened : Session → Session → Session
hardened incoming existing = record existing { lock = Lock.harden existing.lock incoming.lock }

-- One round of the first loop of `restore_without_weakening`.
unfoldable pub restore_session : Sessions → Session → Sessions
restore_session s session = elim (find (has_profile session.profile) s.running) [
  | some _ ↦ record s {
    running = modify_first (has_profile session.profile) (hardened session) s.running;
  }
  | none ↦ if dismissal_covers s session then s else start s session
]

unfoldable pub restore_running : Sessions → List Session → Sessions
restore_running s [] = s
restore_running s (session ∷ rest) = restore_running (restore_session s session) rest

unfoldable pub restore_dismissed : BTreeMap Text I64 → List (Text × I64) → BTreeMap Text I64
restore_dismissed dismissed [] = dismissed
restore_dismissed dismissed ((occurrence, at) ∷ rest) =
    restore_dismissed (Map.or_insert occurrence at dismissed) rest

unfoldable pub restore_without_weakening : Sessions → Sessions → Sessions
restore_without_weakening s incoming =
    let t = restore_running s incoming.running in
    record t { dismissed = restore_dismissed t.dismissed incoming.dismissed }

-- `sort` and `dedup` leave the distinct profiles in ascending order.
unfoldable pub active_profiles : Sessions → I64 → List Text
active_profiles s now =
    Set.from_list (map (λ x. x.profile) (filter (λ x. not (is_over x now)) s.running))

merge_all : LockSet → List Session → LockSet
merge_all acc [] = acc
merge_all acc (x ∷ xs) = merge_all (Lock.merge acc x.lock) xs

unfoldable pub merged_lock : Sessions → I64 → LockSet
unfolding merge_all
merged_lock s now = merge_all Lock.unlocked (filter (λ x. not (is_over x now)) s.running)

abbrev pub clamp : I64 → I64 → I64 → I64
clamp x lo hi = if ltb x lo then lo else if ltb hi x then hi else x

abbrev clamped_under : Option I64 → I64 → I64 → I64
clamped_under (some end) started_at now =
    clamp now started_at (max (saturating_minus end 1) started_at)
clamped_under none started_at now = max now started_at

unfoldable pub clamped_into : Session → I64 → I64
clamped_into session now = clamped_under session.lock.ends_at session.started_at now

abbrev pub refused : LockSet → BTreeSet Lock → Refusal
refused lock satisfied =
    locked (Set.difference lock.conditions satisfied) lock.ends_at lock.delayed_release_at

-- The state after the session, found at its position, is removed.
abbrev pub without : Sessions → Text → Session → I64 → Sessions
without s id session now = record {
  running = remove_first (has_id id) s.running;
  dismissed = Map.insert session.profile (clamped_into session now) s.dismissed;
}

unfoldable pub end : Sessions → Text → I64 → BTreeSet Lock → Sessions × Result Session Refusal
end s id now satisfied = elim (find (has_id id) s.running) [
  | none ↦ (s, err not_running)
  | some session ↦
      if can_release session.lock now satisfied
      then (without s id session now, ok session)
      else (s, err (refused session.lock satisfied))
]

unfoldable pub end_with_pass : Sessions → Text → I64 → Pass → Sessions × Result Session Refusal
end_with_pass s id now pass = elim (find (has_id id) s.running) [
  | none ↦ (s, err not_running)
  | some session ↦ end s id now session.lock.conditions
]

abbrev released : I64 → Session → Session
released now session = record session { lock = (Lock.request_release session.lock now).0 }

unfoldable pub request_release : Sessions → Text → I64 → Sessions × Result I64 Refusal
request_release s id now = elim (find (has_id id) s.running) [
  | none ↦ (s, err not_running)
  | some session ↦ (
    record s { running = modify_first (has_id id) (released now) s.running },
    ok (Lock.request_release session.lock now).1,
  )
]

unfoldable pub reap : Sessions → I64 → Sessions × List Session
reap s now = (
  record s { running = filter (λ x. not (is_over x now)) s.running },
  filter (λ x. is_over x now) s.running,
)

-- `mint_id` is the caller's; what it changes is passed along in `M`.
module _ {M : Type 0} (mint_id : M → Activation → Text × M) where
  -- The id of the session of that profile, or a new one.
  abbrev pub session_id : Option Session → M → Activation → Text × M
  session_id (some existing) m a = (existing.id, m)
  session_id none m a = mint_id m a

  abbrev pub activated : Text → I64 → Activation → Session
  activated id now a = record {
    id = id;
    profile = a.profile;
    source = from_activation a.source;
    started_at = now;
    lock = Schedule.lock a;
  }

  abbrev started_id : Option Session → Text → List Text
  started_id (some existing) id = []
  started_id none id = id ∷ []

  -- One round of the loop: the sessions, the minting state and the ids it started.
  unfoldable pub reconcile_one : I64 → Sessions → M → Activation → Sessions × M × List Text
  reconcile_one now s m a =
      if leb a.end now || is_dismissed s a
      then (s, m, [])
      else (let existing = for_profile s a.profile in
          let (id, m') = session_id existing m a in
          (start s (activated id now a), m', started_id existing id))

  unfoldable pub reconcile : I64 → Sessions → M → List Activation → Sessions × M × List Text
  reconcile now s m [] = (s, m, [])
  reconcile now s m (a ∷ rest) =
      let (s', m', started) = reconcile_one now s m a in
      let (t, n, more) = reconcile now s' m' rest in (t, n, started ++ more)
