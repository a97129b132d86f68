-- ===== src/Examples/Rounds.antt =====
-- Examples of crates/curfew-sync/src/pair.rs, oplog.rs and wire.rs: entries that travel.
use curfew.Prelude.{
  ℕ, ◌+◌, ◌≤◌, ◌<◌, ◌≡◌, refl, Bool, true, false, none, some, List, [], ◌∷◌, ◌++◌, arith, inl, inr,
  Bool-cases,
}
use curfew.Prelude.Lists.{All, sort_by, insert_by}
use curfew.Prelude.Order.{list_ord, list_eq, nat_ord, beq_symm}
use curfew.Prelude.Text.{codes}
use curfew.Prelude.I64.{I64}
use curfew.Prelude.Map
use curfew.Prelude.Result.{ok, err}
use curfew.Device
use curfew.Device.{DeviceId, Identity}
use curfew.Pair
use curfew.Pair.{Peer, Peers, Invite, active, revoke, unknown, revoked, check}
use curfew.Pair.Trust.{revoke-silences, accept-pairs}
use curfew.Oplog
use curfew.Oplog.{Op, Signed, hash}
use curfew.Log
use curfew.Log.{Log, Error, range, head, since, heads, accept, append, apply}
use curfew.Log.Chains.{IsValid, IsChain, extended}
use curfew.Log.Arrival.{accept_errors}
use curfew.Log.Authorship.{append-accepted}
use curfew.Wire.{receive, is_verified}
use curfew.Wire.Order.{swap, receive-any_order}
use curfew.Wire.Chain.{keyed}
use curfew.Wire.Groups.{chain_in}
use curfew.Wire.Batches.{IsNews, receive-takes_news}
use curfew.Wire.Exchange.{exchange-completes}
use curfew.Examples.Data.{morning, noon}
use curfew.Examples.Devices.{
  toy, toy_canonical, pc, peers, pc_peer, first, second, short_log, long_log, extra, extra_exact,
  short_log-IsValid, long_log-IsValid,
}

verified : All (λ e. is_verified toy toy_canonical peers e.1 ≡ true) long_log.entries
unfolding Oplog.verify Pair.verify Pair.active Device.verify Map.get list_eq
verified = (refl, (refl, tt))

exchange-completes_example :
    let (log, out) = receive toy toy_canonical short_log peers (since long_log (heads short_log)) in
    (log ≡ long_log) × (out.known ≡ 0) × (out.refused ≡ 0)
exchange-completes_example =
    exchange-completes toy toy_canonical long_log short_log peers extra long_log-IsValid
      short_log-IsValid refl refl verified (omega arith, (omega arith, tt)) extra_exact

receive-any_order_example :
    receive toy toy_canonical Log.empty peers (second ∷ first ∷ [])
    ≡ receive toy toy_canonical Log.empty peers (first ∷ second ∷ [])
unfolding list_eq
receive-any_order_example =
    receive-any_order toy toy_canonical Log.empty peers
      (swap {x = second} {y = first} {xs = []} refl)

accept_errors_example :
    ((e : Error)
      → (accept toy toy_canonical short_log second peers).1 ≡ err e
      → (accept toy toy_canonical short_log second peers).0 ≡ short_log)
    × ((b : Bool)
        → (accept toy toy_canonical short_log second peers).1 ≡ ok b
        → (Oplog.verify toy toy_canonical second peers ≡ ok tt)
          × (accept toy toy_canonical
                (accept toy toy_canonical short_log second peers).0
                second
                peers
              ≡ ((accept toy toy_canonical short_log second peers).0, ok false)))
accept_errors_example = accept_errors toy toy_canonical short_log second peers

news : IsNews toy toy_canonical short_log peers (second ∷ [])
unfolding head hash sort_by insert_by Oplog.verify Pair.verify Pair.active Device.verify Map.get
    list_eq
news = ((refl, tt), (omega arith, tt), chains)
  where
    chains :
        (a : DeviceId)
        → IsChain toy toy_canonical
            (head toy toy_canonical short_log a)
            (keyed (chain_in a (second ∷ [])))
    chains a = elim (Bool-cases (list_eq pc a)) [
      | inl e ↦ rw (e, beq_symm a pc, e) (refl, refl, tt)
      | inr e ↦ rw (e, beq_symm a pc, e) tt
    ]

receive-takes_news_example :
    let xs = second ∷ [] in
    let (log', out) = receive toy toy_canonical short_log peers xs in
    IsValid toy toy_canonical log'
    × ((a : DeviceId) → range a log'.entries ≡ range a short_log.entries ++ keyed (chain_in a xs))
    × (log'.checkpoint ≡ none)
    × (out.known ≡ 0)
    × (out.refused ≡ 0)
receive-takes_news_example =
    receive-takes_news toy toy_canonical short_log peers (second ∷ []) short_log-IsValid news

abbrev phone : Identity (List ℕ) (List ℕ)
phone = record { name = codes "phone"; signing = 9 ∷ []; exchange = 9 ∷ [] }

abbrev phone_peer : Peer
phone_peer = record {
  identity = record { name = codes "phone"; signing = 9 ∷ []; exchange = 9 ∷ [] };
  paired_at = morning;
  revoked_at = none;
}

abbrev phone_only : Peers
phone_only = record { devices = (codes "14", phone_peer) ∷ [] }

revoke-silences_example :
    let (peers', result) = revoke peers pc noon in
    ((Map.get pc peers.devices ≡ none) → (peers' ≡ peers) × (result ≡ err unknown))
    × ((peer : Peer)
        → Map.get pc peers.devices ≡ some peer
        → (result ≡ ok tt)
          × ((at : I64) × (at ≤ noon)
              × ((before : I64) → peer.revoked_at ≡ some before → at ≤ before)
              × ((message signature : List ℕ)
                  → Pair.verify toy peers' pc message signature ≡ err (revoked at)))
          × ((other : DeviceId)
              → list_eq other pc ≡ false
              → active peers' other ≡ active peers other))
revoke-silences_example = revoke-silences toy peers pc noon

abbrev invite : Invite
invite = record {
  from = pc_peer.identity;
  nonce = 1 ∷ [];
  issued_at = morning;
  expires_at = morning + 300;
}

accept-pairs_example :
    let (peers', result) = Pair.accept toy phone_only phone invite morning in
    ((e : Pair.Error) → result ≡ err e → peers' ≡ phone_only)
    × ((id : DeviceId)
        → result ≡ ok id
        → (invite.issued_at ≤ morning)
          × (morning < invite.expires_at)
          × (Device.public_id toy invite.from ≡ ok id)
          × (list_eq id (Device.id toy phone) ≡ false)
          × (active peers' id
              ≡ ok (record { identity = invite.from; paired_at = morning; revoked_at = none })))
accept-pairs_example = accept-pairs toy phone_only phone invite morning

id_run : Device.id toy phone ≡ codes "14"
unfolding Device.id Device.device_id Device.base32 Device.base32_from Device.drain
id_run = refl

append-accepted_example :
    let (log', signed) = append toy toy_canonical Log.empty phone noon (Op.released (codes "s1")) in
    IsValid toy toy_canonical log'
    × (head toy toy_canonical log' (Device.id toy phone)
        ≡ (signed.entry.seq, hash toy toy_canonical signed.entry))
    × (accept toy toy_canonical Log.empty signed phone_only ≡ (extended Log.empty signed, ok true))
    × IsValid toy toy_canonical (extended Log.empty signed)
unfolding Device.id Device.device_id Device.base32 Device.base32_from Device.drain Pair.active
    Map.get list_eq head
append-accepted_example =
    append-accepted toy toy_canonical Log.empty Log.empty phone phone_only phone_peer noon
      (Op.released (codes "s1")) (tt, tt, λ a. tt) (tt, tt, λ a. tt) (omega arith) refl refl refl
