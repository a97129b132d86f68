-- ===== src/Replay.antt =====
-- crates/curfew-sync/src/oplog.rs: what replaying the log produces, and the rule by which each entry
-- is folded in.
pub mod Promises
use curfew.Prelude.{
  ℕ, ◌+◌, max, Bool, true, false, not, ◌&&◌, Option, none, some, List, [], ◌∷◌, ◌++◌, is_some_and,
  if◌then◌else◌,
}
use curfew.Prelude.Lists.{modify_first}
use curfew.Prelude.Order.{list_ord, list_eq}
use curfew.Prelude.Text.{Text}
use curfew.Prelude.I64.{I64, plus}
use curfew.Prelude.Set
use curfew.Prelude.Set.{BTreeSet}
use curfew.Prelude.Map
use curfew.Prelude.Map.{BTreeMap}
use curfew.Lock
use curfew.Lock.{is_locked, is_expired, delayed_release_seconds}
use curfew.Emergency
use curfew.Emergency.{Passes, no_passes}
use curfew.Budget
use curfew.Budget.{Consumption, Launches}
use curfew.Schedule.Calendar.{CalendarEvent}
use curfew.Session
use curfew.Session.{Session, Sessions, no_sessions}
use curfew.Device.{DeviceId}
use curfew.Oplog.{Op, Entry}

pub record Replay : Type 0 where
  pub sessions : Sessions
  pub usage : BTreeMap Text Consumption
  pub launches : BTreeMap Text Launches
  pub revoked : List DeviceId
  pub calendars : BTreeMap DeviceId (List CalendarEvent)
  pub still_locked : List Text
  pub released : BTreeMap Text (BTreeSet DeviceId)
  pub passes : Passes

abbrev pub default : Replay
default = record {
  sessions = no_sessions;
  usage = [];
  launches = [];
  revoked = [];
  calendars = [];
  still_locked = [];
  released = [];
  passes = no_passes;
}

abbrev pub or_default {ℓ} : {A : Type ℓ} → A → Option A → A
or_default d none = d
or_default d (some a) = a

abbrev pub holds : I64 → Session → Bool
holds now s = is_locked s.lock && not (is_expired s.lock now)

abbrev pub apply_end : Replay → Text → I64 → Replay
apply_end state id now =
    if is_some_and (Session.get state.sessions id) (holds now)
    then record state { still_locked = state.still_locked ++ id ∷ [] }
    else record state { sessions = (Session.end state.sessions id now []).0 }

abbrev pub waits_for : Text → Session → Bool
waits_for id s = list_eq s.id id && is_locked s.lock

abbrev pub propose : I64 → Session → Session
propose at s = record s {
  lock = Lock.merge s.lock (record s.lock { delayed_release_at = some at });
}

abbrev pub earliest_release : I64 → I64 → I64
earliest_release asked_at at = max at (plus asked_at delayed_release_seconds)

abbrev pub apply_release : Replay → Text → I64 → Replay
apply_release state id at = record state {
  sessions = record state.sessions {
    running = modify_first (waits_for id) (propose at) state.sessions.running;
  };
}

abbrev pub apply_used : Replay → Text → I64 → ℕ → Replay
apply_used state key at seconds = record state {
  usage =
      Map.insert key
        (Budget.record_seconds (or_default (record { rollups = [] }) (Map.get key state.usage)) at
          seconds)
        state.usage;
}

abbrev pub apply_launched : Replay → Text → I64 → Replay
apply_launched state key at = record state {
  launches =
      Map.insert key
        (Budget.record_launch (or_default (record { at = [] }) (Map.get key state.launches)) at)
        state.launches;
}

abbrev pub apply_released : Replay → Text → DeviceId → Replay
apply_released state id author = record state {
  released =
      Map.insert id (Set.insert author (or_default [] (Map.get id state.released))) state.released;
}

abbrev pub apply_op : Replay → DeviceId → I64 → I64 → Op → Replay
apply_op state author entry_at now (Op.start session) = record state {
  sessions = Session.start state.sessions session;
}
apply_op state author entry_at now (Op.end id) = apply_end state id now
apply_op state author entry_at now (Op.release_requested id at) =
    apply_release state id (earliest_release entry_at at)
apply_op state author entry_at now (Op.used key at seconds) = apply_used state key at seconds
apply_op state author entry_at now (Op.launched key at) = apply_launched state key at
apply_op state author entry_at now (Op.revoked device) = record state {
  revoked = state.revoked ++ device ∷ [];
}
apply_op state author entry_at now (Op.calendar events) = record state {
  calendars = Map.insert author events state.calendars;
}
apply_op state author entry_at now (Op.released id) = apply_released state id author
apply_op state author entry_at now (Op.emergency_used at) = record state {
  passes = Emergency.record_use state.passes at;
}

unfoldable pub apply : Replay → Entry → I64 → Replay
apply state entry now = apply_op state entry.author entry.at now entry.op

-- The loop over the entries in their order.
unfoldable pub fold : Replay → List Entry → I64 → Replay
fold state [] now = state
fold state (entry ∷ rest) now = fold (apply state entry now) rest now
