-- ===== src/Pair.antt =====
-- crates/curfew-sync/src/pair.rs: invites, and the devices that this one listens to.
pub mod Trust
use curfew.Prelude.{
  ℕ, min, Bool, true, false, not, Option, none, some, List, is_none, leb, ltb, if◌then◌else◌, map,
}
use curfew.Prelude.Lists.{all, filter}
use curfew.Prelude.Order.{list_ord, list_eq}
use curfew.Prelude.I64.{I64, plus}
use curfew.Prelude.Map
use curfew.Prelude.Map.{BTreeMap}
use curfew.Prelude.Result.{Result, ok, err}
use curfew.Device
use curfew.Device.{Crypto, DeviceId, PublicIdentity, Identity}

abbrev pub invite_seconds : ℕ
invite_seconds = 300

pub data Error : Type 0 where
  expired : Error
  not_yet_valid : Error
  itself : Error
  revoked : I64 → Error
  unknown : Error
  malformed : Error
  device : Device.Error → Error

pub record Invite : Type 0 where
  pub from : PublicIdentity
  pub nonce : List ℕ
  pub issued_at : I64
  pub expires_at : I64

unfoldable pub check : Invite → I64 → Result Unit Error
check invite now =
    if leb invite.expires_at now
    then err expired
    else if ltb now invite.issued_at
    then err not_yet_valid
    else ok tt

pub record Peer : Type 0 where
  pub identity : PublicIdentity
  pub paired_at : I64
  pub revoked_at : Option I64

abbrev pub is_active : Peer → Bool
is_active peer = is_none peer.revoked_at

pub record Peers : Type 0 where
  pub devices : BTreeMap DeviceId Peer

abbrev pub earliest : Option I64 → I64 → I64
earliest none now = now
earliest (some existing) now = min existing now

unfoldable pub revoke : Peers → DeviceId → I64 → Peers × Result Unit Error
revoke peers id now = elim (Map.get id peers.devices) [
  | none ↦ (peers, err unknown)
  | some peer ↦ (
    record {
      devices =
          Map.insert id (record peer { revoked_at = some (earliest peer.revoked_at now) })
            peers.devices;
    },
    ok tt,
  )
]

abbrev unless_revoked : Peer → Option I64 → Result Peer Error
unless_revoked peer (some at) = err (revoked at)
unless_revoked peer none = ok peer

unfoldable pub active : Peers → DeviceId → Result Peer Error
active peers id = elim (Map.get id peers.devices) [
  | none ↦ err unknown
  | some peer ↦ unless_revoked peer peer.revoked_at
]

unfoldable pub active_ids : Peers → List DeviceId
active_ids peers = map (λ e. e.0) (filter (λ e. is_active e.1) peers.devices)

abbrev pub paired : Peers → Invite → I64 → DeviceId → Peers
paired peers invite now id = record {
  devices =
      Map.insert id (record { identity = invite.from; paired_at = now; revoked_at = none })
        peers.devices;
}

-- The error of a device, passed on by `?`.
abbrev pub from_device : Result Unit Device.Error → Result Unit Error
from_device (ok u) = ok u
from_device (err e) = err (device e)

module _ {K X : Type 0} (crypto : Crypto K X) where
  -- `Invite::new`
  unfoldable pub new_invite : Identity K X → I64 → List ℕ → Invite
  new_invite me now nonce = record {
    from = Device.public crypto me;
    nonce = nonce;
    issued_at = now;
    expires_at = plus now invite_seconds;
  }

  -- What follows once the invite stands.
  abbrev pub accept_from :
      Peers
      → Identity K X
      → Invite
      → I64
      → Result DeviceId Device.Error
      → Peers × Result DeviceId Error
  accept_from peers me invite now (err e) = (peers, err (device e))
  accept_from peers me invite now (ok id) =
      if list_eq id (Device.id crypto me)
      then (peers, err itself)
      else (paired peers invite now id, ok id)

  unfoldable pub accept : Peers → Identity K X → Invite → I64 → Peers × Result DeviceId Error
  accept peers me invite now = elim (check invite now) [
    | err e ↦ (peers, err e)
    | ok _ ↦ accept_from peers me invite now (Device.public_id crypto invite.from)
  ]

  unfoldable pub verify : Peers → DeviceId → List ℕ → List ℕ → Result Unit Error
  verify peers id message signature = elim (active peers id) [
    | err e ↦ err e
    | ok peer ↦ from_device (Device.verify crypto peer.identity message signature)
  ]
