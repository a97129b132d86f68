-- ===== src/Schedule.antt =====
-- crates/curfew-core/src/schedule.rs: the spans that schedules ask for.
pub mod Instants
pub mod Weekly
pub mod Calendar
pub mod Opening
pub mod Padding
use curfew.Prelude.{List, Option, some}
use curfew.Prelude.Text.{Text}
use curfew.Prelude.I64.{I64}
use curfew.Lock
use curfew.Lock.{Lock, LockSet}

pub data ActivationSource : Type 0 where
  weekly : Text → ActivationSource
  calendar : Text → Text → ActivationSource

-- One profile that should run over [start, end), with the conditions of its lock.
pub record Activation : Type 0 where
  pub profile : Text
  pub source : ActivationSource
  pub start : I64
  pub end : I64
  pub locks : List Lock

unfoldable pub lock : Activation → LockSet
lock a = Lock.new a.locks (some a.end)
