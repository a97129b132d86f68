-- ===== src/Log/Authorship.antt =====
-- `append` of crates/curfew-sync/src/oplog.rs: a device's own entries, here and at a peer.
use curfew.Prelude.{ℕ, suc, ◌<◌, ◌≡◌, refl, sym, ap, ◌∙◌, subst, true, List, arith}
use curfew.Prelude.Order.{list_ord}
use curfew.Prelude.I64.{I64, u64_mod}
use curfew.Prelude.Result.{ok}
use curfew.Device
use curfew.Device.{Crypto, Identity}
use curfew.Pair
use curfew.Pair.{Peers, Peer, from_device}
use curfew.Pair.Trust.{verify-active, verify-valid}
use curfew.Oplog
use curfew.Oplog.{Hash, Op, Entry, Signed, hash}
use curfew.Log.{Log, head, append, accept, signed_by, successor}
use curfew.Log.Chains.{IsValid, ComesNext, extended, extended-IsValid, head-extended}
use curfew.Log.Arrival.{apply-ComesNext, accept-verified}

module _ {K X : Type 0} (crypto : Crypto K X) (canonical : Entry → List ℕ) where
  own-ComesNext :
      (log : Log) (me : Identity K X) (at : I64) (op : Op)
      → suc (head crypto canonical log (Device.id crypto me)).0 < u64_mod
      → ComesNext crypto canonical log (append crypto canonical log me at op).1
  unfolding append
  own-ComesNext log me at op bound =
      (numbered (head crypto canonical log (Device.id crypto me)) bound, refl)
    where
      numbered : (h : ℕ × Hash) → suc h.0 < u64_mod → successor h.0 ≡ suc h.0
      numbered h b = ground (arith, b)

  verify-own :
      (peers : Peers) (peer : Peer) (me : Identity K X) (entry : Entry)
      → entry.author ≡ Device.id crypto me
      → Pair.active peers (Device.id crypto me) ≡ ok peer
      → peer.identity.signing ≡ crypto.verifying_key me.signing
      → Oplog.verify crypto canonical (signed_by crypto canonical me entry) peers ≡ ok tt
  unfolding Oplog.verify
  verify-own peers peer me entry a active same =
      let message = canonical entry in
      let signature = Device.sign crypto me message in
      verify-active crypto peers entry.author message signature peer
        (ap (Pair.active peers) a ∙ active)
      ∙ ap from_device (
          verify-valid crypto peer.identity message signature
            (ap crypto.from_bytes same ∙ crypto.from_bytes-verifying_key me.signing)
            (ap (λ z. crypto.verify z message signature) same
              ∙ unfold Device.sign in crypto.verify-sign me.signing message))

  -- What a device writes is taken in by a peer that listens to it under its own key and holds its
  -- chain as far as the device does: where the log is valid and the next number is a 64-bit one, the
  -- log of the device stays valid and ends in the entry, and the peer's valid log takes the entry as
  -- new.
  pub append-accepted :
      (log other : Log) (me : Identity K X) (peers : Peers) (peer : Peer) (at : I64) (op : Op)
      → IsValid crypto canonical log
      → IsValid crypto canonical other
      → suc (head crypto canonical log (Device.id crypto me)).0 < u64_mod
      → head crypto canonical other (Device.id crypto me)
        ≡ head crypto canonical log (Device.id crypto me)
      → Pair.active peers (Device.id crypto me) ≡ ok peer
      → peer.identity.signing ≡ crypto.verifying_key me.signing
      → let (log', signed) = append crypto canonical log me at op in
        IsValid crypto canonical log'
        × (head crypto canonical log' (Device.id crypto me)
            ≡ (signed.entry.seq, hash crypto canonical signed.entry))
        × (accept crypto canonical other signed peers ≡ (extended other signed, ok true))
        × IsValid crypto canonical (extended other signed)
  unfolding append
  append-accepted log other me peers peer at op valid valid' bound same active key =
      let signed = (append crypto canonical log me at op).1 in
      let next = own-ComesNext log me at op bound in
      let next' : ComesNext crypto canonical other signed =
        (next.0 ∙ ap (λ h. suc h.0) (sym same), next.1 ∙ ap (λ h. h.1) (sym same)) in
      (
        extended-IsValid crypto canonical log signed valid next,
        head-extended crypto canonical log signed valid next,
        accept-verified crypto canonical other signed peers
              (verify-own peers peer me signed.entry refl active key)
            ∙ apply-ComesNext crypto canonical other signed valid' next'
                (subst (λ n. n < u64_mod) (sym next.0) bound),
        extended-IsValid crypto canonical other signed valid' next',
      )
