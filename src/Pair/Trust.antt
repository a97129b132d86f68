-- ===== src/Pair/Trust.antt =====
-- `revoke`, `accept`, `active` and `verify` of crates/curfew-sync/src/pair.rs: who is listened to.
use curfew.Prelude.{
  ℕ, ◌≤◌, ◌<◌, ◌≡◌, refl, ap, ◌∙◌, subst, true, false, Option, none, some, List, inl, inr, arith,
  Bool-cases, if◌then◌else◌,
}
use curfew.Prelude.Order.{list_ord, list_eq, list_eq_refl}
use curfew.Prelude.I64.{I64}
use curfew.Prelude.Map
use curfew.Prelude.Map.{get-insert}
use curfew.Prelude.Result.{Result, Result-cases, ok, err}
use curfew.Device
use curfew.Device.{Crypto, DeviceId, PublicIdentity, Identity}
use curfew.Pair.{
  Peers, Peer, Error, unknown, revoked, active, revoke, earliest, unless_revoked, from_device,
  verify, accept, accept_from, Invite, check, paired,
}

active-insert :
    (peers : Peers) (id other : DeviceId) (peer : Peer)
    → active (record { devices = Map.insert id peer peers.devices }) other
      ≡ (if list_eq other id then unless_revoked peer peer.revoked_at else active peers other)
unfolding active
active-insert peers id other peer =
    rw (active, get-insert other id peer peers.devices)
      (elim (Bool-cases (list_eq other id)) [ inl e ↦ rw e | inr e ↦ rw e ])

revoke-known :
    (peers : Peers) (id : DeviceId) (now : I64) (peer : Peer)
    → Map.get id peers.devices ≡ some peer
    → revoke peers id now ≡ (
      record {
        devices =
            Map.insert id
              (record peer { revoked_at = some (earliest peer.revoked_at now) })
              peers.devices;
      },
      ok tt,
    )
unfolding revoke
revoke-known peers id now peer e = rw (revoke, e)

revoke-unknown :
    (peers : Peers) (id : DeviceId) (now : I64)
    → Map.get id peers.devices ≡ none
    → revoke peers id now ≡ (peers, err unknown)
unfolding revoke
revoke-unknown peers id now e = rw (revoke, e)

check-timely :
    (invite : Invite) (now : I64)
    → check invite now ≡ ok tt
    → (invite.issued_at ≤ now) × (now < invite.expires_at)
unfolding check
check-timely invite now h = (ground (arith, h), ground (arith, h))

module _ {K X : Type 0} (crypto : Crypto K X) where
  pub verify-active :
      (peers : Peers) (id : DeviceId) (message signature : List ℕ) (peer : Peer)
      → active peers id ≡ ok peer
      → verify crypto peers id message signature
        ≡ from_device (Device.verify crypto peer.identity message signature)
  unfolding verify
  verify-active peers id message signature peer e = rw (verify, e)

  verify-refused :
      (peers : Peers) (id : DeviceId) (message signature : List ℕ) (e : Error)
      → active peers id ≡ err e
      → verify crypto peers id message signature ≡ err e
  unfolding verify
  verify-refused peers id message signature e h = rw (verify, h)

  pub verify-valid :
      (p : PublicIdentity) (message signature : List ℕ)
      → crypto.from_bytes p.signing ≡ true
      → crypto.verify p.signing message signature ≡ true
      → Device.verify crypto p message signature ≡ ok tt
  unfolding Device.verify
  verify-valid p message signature e f = rw (e, f)

  -- Removing a device: an unknown one is an error that changes nothing; after any other, no signature
  -- of the device is accepted, the removal is dated no later than this instant and than an earlier
  -- removal, and every other device is listened to as before.
  pub revoke-silences :
      (peers : Peers) (id : DeviceId) (now : I64)
      → let (peers', result) = revoke peers id now in
        ((Map.get id peers.devices ≡ none) → (peers' ≡ peers) × (result ≡ err unknown))
        × ((peer : Peer)
            → Map.get id peers.devices ≡ some peer
            → (result ≡ ok tt)
              × ((at : I64) × (at ≤ now)
                  × ((before : I64) → peer.revoked_at ≡ some before → at ≤ before)
                  × ((message signature : List ℕ)
                      → verify crypto peers' id message signature ≡ err (revoked at)))
              × ((other : DeviceId)
                  → list_eq other id ≡ false
                  → active peers' other ≡ active peers other))
  revoke-silences peers id now = (
    λ e. (
      ap (λ r. r.0) (revoke-unknown peers id now e),
      ap (λ r. r.1) (revoke-unknown peers id now e),
    ),
    λ peer e.
        let at = earliest peer.revoked_at now in
        let gone : Peer = record peer { revoked_at = some at } in
        rw (revoke-known peers id now peer e) (
          refl,
          (
            at,
            early peer.revoked_at,
            earlier peer.revoked_at,
            λ message signature.
                verify-refused (record { devices = Map.insert id gone peers.devices }) id message
                  signature (revoked at) (active-insert peers id id gone ∙ rw (list_eq_refl id)),
          ),
          λ other n. active-insert peers id other gone ∙ rw n,
        ),
  )
    where
      early : (o : Option I64) → earliest o now ≤ now
      early none = omega arith
      early (some b) = omega arith

      earlier : (o : Option I64) (before : I64) → o ≡ some before → earliest o now ≤ before
      earlier none before q = absurd (cc q)
      earlier (some b) before q = let r : b ≡ before = cc q in omega (arith, r)

  accept-late :
      (peers : Peers) (me : Identity K X) (invite : Invite) (now : I64) (e : Error)
      → check invite now ≡ err e
      → accept crypto peers me invite now ≡ (peers, err e)
  unfolding accept
  accept-late peers me invite now e h = rw (accept, h)

  accept-timely :
      (peers : Peers) (me : Identity K X) (invite : Invite) (now : I64)
      → check invite now ≡ ok tt
      → accept crypto peers me invite now
        ≡ accept_from crypto peers me invite now (Device.public_id crypto invite.from)
  unfolding accept
  accept-timely peers me invite now h = rw (accept, h)

  -- Pairing: an invite is taken only from the instant that it was issued at until before the one that
  -- it expires at, from a valid key and from another device, and then that device is listened to under
  -- the keys of the invite, whether or not it was removed before; in every other case nothing changes.
  pub accept-pairs :
      (peers : Peers) (me : Identity K X) (invite : Invite) (now : I64)
      → let (peers', result) = accept crypto peers me invite now in
        ((e : Error) → result ≡ err e → peers' ≡ peers)
        × ((id : DeviceId)
            → result ≡ ok id
            → (invite.issued_at ≤ now)
              × (now < invite.expires_at)
              × (Device.public_id crypto invite.from ≡ ok id)
              × (list_eq id (Device.id crypto me) ≡ false)
              × (active peers' id
                  ≡ ok (record { identity = invite.from; paired_at = now; revoked_at = none })))
  accept-pairs peers me invite now = elim (Result-cases (check invite now)) [
    | inr (e, h) ↦ rw (accept-late peers me invite now e h) (λ d q. refl, λ id q. absurd (cc q))
    | inl (u, h) ↦
        rw (accept-timely peers me invite now h)
          (elim (Result-cases (Device.public_id crypto invite.from)) [
            | inr (e, k) ↦ rw k (λ d q. refl, λ id q. absurd (cc q))
            | inl (id, k) ↦ rw k (elim (Bool-cases (list_eq id (Device.id crypto me))) [
              | inl own ↦ rw own (λ d q. refl, λ id' q. absurd (cc q))
              | inr other ↦ rw other (
                λ d q. absurd (cc q),
                λ id' q.
                    let same : id ≡ id' = cc q in
                    subst
                      (λ z.
                        (invite.issued_at ≤ now)
                        × (now < invite.expires_at)
                        × ◌≡◌ {A = Result DeviceId Device.Error} (ok id) (ok z)
                        × (list_eq z (Device.id crypto me) ≡ false)
                        × (active (paired peers invite now id) z
                            ≡ ok (record {
                              identity = invite.from;
                              paired_at = now;
                              revoked_at = none;
                            })))
                      same
                      (
                        (check-timely invite now h).0,
                        (check-timely invite now h).1,
                        refl,
                        other,
                        active-insert peers id id (record {
                          identity = invite.from;
                          paired_at = now;
                          revoked_at = none;
                        })
                            ∙ rw (list_eq_refl id),
                      ),
              )
            ])
          ])
  ]
