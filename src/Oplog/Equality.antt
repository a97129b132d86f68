-- ===== src/Oplog/Equality.antt =====
-- crates/curfew-sync/src/oplog.rs: the derived equality of entries, with that of the sessions and the
-- calendar events that they carry.
use curfew.Prelude.{ℕ, ◌≡◌, ap, Bool, Option, List, [], ◌∷◌, arith}
use curfew.Prelude.Text.{Text}
use curfew.Prelude.I64.{I64}
use curfew.Prelude.Equal.{Eq, eq_by, nat_eq, bool_eq, pair_eq, list_same_eq, option_eq}
use curfew.Lock.{Lock, LockSet, lock_key, lock_key_injective}
use curfew.Session.{Session, SessionSource, manual}
use curfew.Schedule.Calendar.{CalendarEvent}
use curfew.Oplog.{Op, Entry, Signed}

instance abbrev pub lock_eq : Eq Lock
lock_eq = eq_by lock_key lock_key_injective

abbrev pub lock_set_key : LockSet → List Lock × (Option I64 × Option I64)
lock_set_key s = (s.conditions, (s.ends_at, s.delayed_release_at))

pub lock_set_key_injective : (a b : LockSet) → lock_set_key a ≡ lock_set_key b → a ≡ b
lock_set_key_injective a b h =
    ap (λ k. record { conditions = k.0; ends_at = k.1.0; delayed_release_at = k.1.1 }) h

instance abbrev pub lock_set_eq : Eq LockSet
lock_set_eq = eq_by lock_set_key lock_set_key_injective

abbrev pub source_key : SessionSource → List Text
source_key manual = []
source_key (SessionSource.weekly schedule) = schedule ∷ []
source_key (SessionSource.calendar schedule event) = schedule ∷ event ∷ []

pub source_key_injective : (a b : SessionSource) → source_key a ≡ source_key b → a ≡ b
source_key_injective a b h = ground arith

instance abbrev pub source_eq : Eq SessionSource
source_eq = eq_by source_key source_key_injective

abbrev pub session_key : Session → Text × (Text × (SessionSource × (I64 × LockSet)))
session_key s = (s.id, (s.profile, (s.source, (s.started_at, s.lock))))

pub session_key_injective : (a b : Session) → session_key a ≡ session_key b → a ≡ b
session_key_injective a b h =
    ap
      (λ k. record {
        id = k.0;
        profile = k.1.0;
        source = k.1.1.0;
        started_at = k.1.1.1.0;
        lock = k.1.1.1.1;
      })
      h

instance abbrev pub session_eq : Eq Session
session_eq = eq_by session_key session_key_injective

abbrev pub event_key : CalendarEvent → List Text × ((I64 × I64) × ((Bool × Bool) × List Text))
event_key e = (
  e.id ∷ e.title ∷ e.calendar ∷ e.location ∷ [],
  ((e.start, e.end), ((e.all_day, e.busy), e.categories)),
)

pub event_key_injective : (a b : CalendarEvent) → event_key a ≡ event_key b → a ≡ b
event_key_injective a b h = ground arith

instance abbrev pub event_eq : Eq CalendarEvent
event_eq = eq_by event_key event_key_injective

abbrev pub op_key : Op → ℕ × (List Session × (Text × (List ℕ × List CalendarEvent)))
op_key (Op.start session) = (0, (session ∷ [], ([], ([], []))))
op_key (Op.end id) = (1, ([], (id, ([], []))))
op_key (Op.release_requested id at) = (2, ([], (id, (at ∷ [], []))))
op_key (Op.used key at seconds) = (3, ([], (key, (at ∷ seconds ∷ [], []))))
op_key (Op.launched key at) = (4, ([], (key, (at ∷ [], []))))
op_key (Op.revoked device) = (5, ([], (device, ([], []))))
op_key (Op.calendar events) = (6, ([], ([], ([], events))))
op_key (Op.released id) = (7, ([], (id, ([], []))))
op_key (Op.emergency_used at) = (8, ([], ([], (at ∷ [], []))))

pub op_key_injective : (a b : Op) → op_key a ≡ op_key b → a ≡ b
op_key_injective a b h = ground arith

instance abbrev pub op_eq : Eq Op
op_eq = eq_by op_key op_key_injective

abbrev pub entry_key : Entry → Text × (ℕ × (List ℕ × (I64 × Op)))
entry_key e = (e.author, (e.seq, (e.prev, (e.at, e.op))))

pub entry_key_injective : (a b : Entry) → entry_key a ≡ entry_key b → a ≡ b
entry_key_injective a b h =
    ap (λ k. record { author = k.0; seq = k.1.0; prev = k.1.1.0; at = k.1.1.1.0; op = k.1.1.1.1 }) h

instance abbrev pub entry_eq : Eq Entry
entry_eq = eq_by entry_key entry_key_injective

abbrev pub signed_key : Signed → Entry × List ℕ
signed_key s = (s.entry, s.signature)

pub signed_key_injective : (a b : Signed) → signed_key a ≡ signed_key b → a ≡ b
signed_key_injective a b h = ap (λ k. record { entry = k.0; signature = k.1 }) h

instance abbrev pub signed_eq : Eq Signed
signed_eq = eq_by signed_key signed_key_injective
