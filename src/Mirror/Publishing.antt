-- ===== src/Mirror/Publishing.antt =====
-- crates/curfew-sync/src/mirror.rs: what happened here is recorded in the log, and a whole pass.
use curfew.Prelude.{ℕ, suc, Option, none, some, List, [], ◌∷◌, if◌then◌else◌}
use curfew.Prelude.Lists.{drop, length}
use curfew.Prelude.Order.{list_ord}
use curfew.Prelude.Text.{Text}
use curfew.Prelude.I64.{I64}
use curfew.Prelude.Equal.{list_same_eq, option_eq, nat_eq}
use curfew.Prelude.Set
use curfew.Prelude.Set.{BTreeSet}
use curfew.Prelude.Map
use curfew.Prelude.Map.{BTreeMap}
use curfew.Emergency.{Passes}
use curfew.Budget.{Rollup, Consumption, Launches}
use curfew.Schedule.{Activation}
use curfew.Schedule.Calendar.{CalendarEvent}
use curfew.Session.{Session}
use curfew.Device
use curfew.Device.{Crypto, DeviceId, Identity}
use curfew.Oplog.{Op, Entry}
use curfew.Oplog.Equality.{event_eq}
use curfew.Log
use curfew.Log.{Log}
use curfew.Mirror.{
  Pass, Mirror, Local, Published, published_as, is_fresh, unannounced, gone_ids, or_zero, is_due,
  adopt_replay,
}

module _ {K X : Type 0} (crypto : Crypto K X) (canonical : Entry → List ℕ) (me : Identity K X) where
  -- `Shared::record`, counted.
  unfoldable pub record_op : I64 → Op → Log × ℕ → Log × ℕ
  record_op now op (log, wrote) = ((Log.append crypto canonical log me now op).0, suc wrote)

  -- `if` there is an operation to record.
  abbrev pub record_if : I64 → Option Op → Log × ℕ → Log × ℕ
  record_if now none out = out
  record_if now (some op) out = record_op now op out

  abbrev pub start_of : Option Published → Session → Option Op
  start_of known session = if is_fresh known session then some (Op.start session) else none

  abbrev pub release_op : Option Published → Session → Option Op
  release_op known session = elim (unannounced known session) [
    | none ↦ none
    | some at ↦ some (Op.release_requested session.id at)
  ]

  -- The first loop of `publish`.
  unfoldable pub publish_sessions :
      I64 → List Session → BTreeMap Text Published × (Log × ℕ) → BTreeMap Text Published × (Log × ℕ)
  publish_sessions now [] state = state
  publish_sessions now (session ∷ rest) (said, out) =
      let known = Map.get session.id said in
      publish_sessions now rest (
        Map.insert session.id (published_as session) said,
        record_if now (release_op known session) (record_if now (start_of known session) out),
      )

  unfoldable pub publish_ends :
      I64 → List Text → BTreeMap Text Published × (Log × ℕ) → BTreeMap Text Published × (Log × ℕ)
  publish_ends now [] state = state
  publish_ends now (id ∷ rest) (said, out) =
      publish_ends now rest (Map.remove id said, record_op now (Op.end id) out)

  -- The inner loops of `publish`.
  unfoldable pub record_used : I64 → Text → List Rollup → Log × ℕ → Log × ℕ
  record_used now key [] out = out
  record_used now key (r ∷ rest) out =
      record_used now key rest (record_op now (Op.used key r.at r.seconds) out)

  unfoldable pub record_launched : I64 → Text → List I64 → Log × ℕ → Log × ℕ
  record_launched now key [] out = out
  record_launched now key (at ∷ rest) out =
      record_launched now key rest (record_op now (Op.launched key at) out)

  unfoldable pub publish_usage :
      I64 → BTreeMap Text Consumption → BTreeMap Text ℕ × (Log × ℕ) → BTreeMap Text ℕ × (Log × ℕ)
  publish_usage now [] state = state
  publish_usage now ((key, consumption) ∷ rest) (said, out) = publish_usage now rest (
    Map.insert key (length consumption.rollups) said,
    record_used now key (drop (or_zero (Map.get key said)) consumption.rollups) out,
  )

  unfoldable pub publish_launches :
      I64 → BTreeMap Text Launches → BTreeMap Text ℕ × (Log × ℕ) → BTreeMap Text ℕ × (Log × ℕ)
  publish_launches now [] state = state
  publish_launches now ((key, opened) ∷ rest) (said, out) = publish_launches now rest (
    Map.insert key (length opened.at) said,
    record_launched now key (drop (or_zero (Map.get key said)) opened.at) out,
  )

  unfoldable pub publish : I64 → Mirror → Log → Local → Mirror × (Log × ℕ)
  publish now m log local =
      let (said1, out1) = publish_sessions now local.sessions.running (m.sessions, (log, 0)) in
      let (said2, out2) = publish_ends now (gone_ids said1 local.sessions) (said1, out1) in
      let (usage, out3) = publish_usage now local.usage (m.usage, out2) in
      let (launches, out4) = publish_launches now local.launches (m.launches, out3) in
      (record m { sessions = said2; usage = usage; launches = launches }, out4)

  unfoldable pub record_passes : I64 → List I64 → Log × ℕ → Log × ℕ
  record_passes now [] out = out
  record_passes now (at ∷ rest) out =
      record_passes now rest (record_op now (Op.emergency_used at) out)

  unfoldable pub publish_passes : I64 → Mirror → Log → Passes → Mirror × (Log × ℕ)
  publish_passes now m log passes = (
    record m { passes = length passes.used },
    record_passes now (drop m.passes passes.used) (log, 0),
  )

  unfoldable pub record_releases : I64 → List Text → Mirror × (Log × ℕ) → Mirror × (Log × ℕ)
  record_releases now [] state = state
  record_releases now (session ∷ rest) (m, out) = record_releases now rest (
    record m { released = Set.insert session m.released },
    record_op now (Op.released session) out,
  )

  unfoldable pub publish_releases : I64 → Mirror → Log → BTreeSet Text → Mirror × (Log × ℕ)
  publish_releases now m log releases =
      record_releases now (Set.difference releases m.released) (m, (log, 0))

  unfoldable pub publish_calendar : I64 → Mirror → Log → List CalendarEvent → Mirror × (Log × ℕ)
  publish_calendar now m log events =
      if is_due m.calendar events now
      then (
        record m { calendar = some (events, now) },
        ((Log.append crypto canonical log me now (Op.calendar events)).0, 1),
      )
      else (m, (log, 0))

  unfoldable pub adopt : I64 → Log → List Activation → Mirror → Local → Mirror × Local × Pass
  adopt now log activations m local =
      adopt_replay (Device.id crypto me) (Log.replay log now) now activations m local

  unfoldable pub pass : I64 → Log → List Activation → Mirror → Local → Mirror × Log × Local × Pass
  pass now log activations m local =
      let (m1, (log1, published)) = publish now m log local in
      let (m2, local2, done) = adopt now log1 activations m1 local in
      (m2, log1, local2, record done { published = published })
