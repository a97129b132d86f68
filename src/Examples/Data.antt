-- ===== src/Examples/Data.antt =====
-- Sessions, schedules and locks that the examples share.
use curfew.Prelude.{◌+◌, none, some, [], ◌∷◌, refl, map}
use curfew.Prelude.Text.{codes, ascii_lower}
use curfew.Prelude.Unicode.{Unicode}
use curfew.Prelude.I64.{I64, epoch}
use curfew.Lock.{LockSet, confirm, device_credential, token, timer}
use curfew.Schedule.{Activation, weekly}
use curfew.Session
use curfew.Session.{Session, Sessions, manual}

-- The ASCII mapping, for any text.
abbrev pub ascii_only : Unicode
ascii_only = record { to_lowercase = λ s. map ascii_lower s; to_lowercase-ascii = λ s h. refl }

abbrev pub morning : I64
morning = epoch + 1788510600

abbrev pub noon : I64
noon = morning + 10000

abbrev pub evening : I64
evening = morning + 36000

-- Held by a token until noon.
abbrev pub token_lock : LockSet
token_lock = record {
  conditions = token (codes "fridge") ∷ [];
  ends_at = some noon;
  delayed_release_at = none;
}

abbrev pub credential_lock : LockSet
credential_lock = record {
  conditions = device_credential ∷ [];
  ends_at = none;
  delayed_release_at = none;
}

abbrev pub work : Session
work = record {
  id = codes "s1";
  profile = codes "work";
  source = Session.weekly (codes "weekdays");
  started_at = morning;
  lock = token_lock;
}

abbrev pub focus : Session
focus = record {
  id = codes "s2";
  profile = codes "focus";
  source = manual;
  started_at = morning;
  lock = credential_lock;
}

abbrev pub two_running : Sessions
two_running = record { running = work ∷ focus ∷ []; dismissed = [] }

abbrev pub weekdays : Activation
weekdays = record {
  profile = codes "work";
  source = weekly (codes "weekdays");
  start = morning;
  end = noon;
  locks = token (codes "fridge") ∷ [];
}

abbrev pub bedtime : Activation
bedtime = record {
  profile = codes "sleep";
  source = weekly (codes "nights");
  start = morning;
  end = evening;
  locks = confirm ∷ timer ∷ [];
}
