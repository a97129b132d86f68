-- ===== src/Oplog.antt =====
-- crates/curfew-sync/src/oplog.rs: operations and the signed entries that carry them.
pub mod Equality
use curfew.Prelude.{ℕ, zero, suc, List, [], ◌∷◌, ◌++◌}
use curfew.Prelude.Text.{Text, codes}
use curfew.Prelude.I64.{I64}
use curfew.Prelude.Result.{Result}
use curfew.Device.{Crypto, DeviceId}
use curfew.Pair
use curfew.Pair.{Peers}
use curfew.Session.{Session}
use curfew.Schedule.Calendar.{CalendarEvent}

abbrev pub Hash : Type 0
Hash = List ℕ

abbrev zeros : ℕ → List ℕ
zeros zero = []
zeros (suc n) = 0 ∷ zeros n

abbrev pub genesis : Hash
genesis = zeros 32

pub data Op : Type 0 where
  start : Session → Op
  end : Text → Op
  release_requested : Text → I64 → Op
  used : Text → I64 → ℕ → Op
  launched : Text → I64 → Op
  revoked : DeviceId → Op
  calendar : List CalendarEvent → Op
  released : Text → Op
  emergency_used : I64 → Op

pub record Entry : Type 0 where
  pub author : DeviceId
  pub seq : ℕ
  pub prev : Hash
  pub at : I64
  pub op : Op

pub record Signed : Type 0 where
  pub entry : Entry
  pub signature : List ℕ

-- `canonical` is `serde_json::to_vec`.
module _ {K X : Type 0} (crypto : Crypto K X) (canonical : Entry → List ℕ) where
  unfoldable pub hash : Entry → Hash
  hash e = crypto.sha256 (codes "curfew-entry-v1" ++ canonical e)

  unfoldable pub verify : Signed → Peers → Result Unit Pair.Error
  verify signed peers =
      Pair.verify crypto peers signed.entry.author (canonical signed.entry) signed.signature
