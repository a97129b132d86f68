-- ===== src/Examples/Devices.antt =====
-- Two devices, their logs, and stand-ins for the cryptography, which the examples of
-- crates/curfew-sync/src share.
use curfew.Prelude.{ℕ, ◌≡◌, refl, true, none, List, [], ◌∷◌, ◌++◌, inl, inr, Bool-cases}
use curfew.Prelude.Order.{list_ord, list_eq, list_lt, list_eq_refl}
use curfew.Prelude.Text.{codes}
use curfew.Device.{Crypto, DeviceId, PublicIdentity}
use curfew.Pair.{Peers, Peer}
use curfew.Oplog.{Op, Entry, Signed, hash, genesis}
use curfew.Log.{Log, Entries, range}
use curfew.Log.Chains.{IsValid, IsChain}
use curfew.Examples.Data.{morning, noon, work, focus}

-- A key is its own public half, and a signature is the key in front of the message.
abbrev pub toy : Crypto (List ℕ) (List ℕ)
toy = record {
  sha256 = λ bytes. bytes;
  from_bytes = λ bytes. true;
  verifying_key = λ k. k;
  sign = λ k message. k ++ message;
  verify = λ k message signature. list_eq signature (k ++ message);
  exchange_public = λ k. k;
  diffie_hellman = λ k other. other;
  from_bytes-verifying_key = λ k. refl;
  verify-sign = λ k message. list_eq_refl (k ++ message);
}

abbrev pub toy_canonical : Entry → List ℕ
toy_canonical e = e.seq ∷ e.at ∷ []

abbrev pub pc : DeviceId
pc = codes "PC"

abbrev pub pc_identity : PublicIdentity
pc_identity = record { name = codes "desk"; signing = 7 ∷ []; exchange = 8 ∷ [] }

abbrev pub pc_peer : Peer
pc_peer = record { identity = pc_identity; paired_at = morning; revoked_at = none }

abbrev pub peers : Peers
peers = record { devices = (pc, pc_peer) ∷ [] }

abbrev pub first : Signed
first = record {
  entry = record { author = pc; seq = 1; prev = genesis; at = morning; op = Op.start work };
  signature = 7 ∷ 1 ∷ morning ∷ [];
}

abbrev pub second : Signed
second = record {
  entry = record {
    author = pc;
    seq = 2;
    prev = codes "curfew-entry-v1" ++ 1 ∷ morning ∷ [];
    at = noon;
    op = Op.start focus;
  };
  signature = 7 ∷ 2 ∷ noon ∷ [];
}

abbrev pub first_entries : Entries
first_entries = ((pc, 1), first) ∷ []

abbrev pub second_entries : Entries
second_entries = ((pc, 2), second) ∷ []

abbrev pub short_log : Log
short_log = record { entries = first_entries; checkpoint = none }

abbrev pub long_log : Log
long_log = record { entries = first_entries ++ second_entries; checkpoint = none }

abbrev pub extra : DeviceId → Entries
extra a = range a second_entries

pub extra_exact : (a : DeviceId) → range a long_log.entries ≡ range a short_log.entries ++ extra a
extra_exact a = elim (Bool-cases (list_eq pc a)) [ inl e ↦ rw e | inr e ↦ rw e ]

pub short_log-IsValid : IsValid toy toy_canonical short_log
unfolding hash
short_log-IsValid = ((tt, tt), (refl, tt), chains)
  where
    chains : (a : DeviceId) → IsChain toy toy_canonical (0, genesis) (range a first_entries)
    chains a = elim (Bool-cases (list_eq pc a)) [ inl e ↦ rw e (refl, refl, tt) | inr e ↦ rw e tt ]

pub long_log-IsValid : IsValid toy toy_canonical long_log
unfolding hash list_lt list_eq
long_log-IsValid = (((refl, tt), (tt, tt)), (refl, (refl, tt)), chains)
  where
    chains : (a : DeviceId) → IsChain toy toy_canonical (0, genesis) (range a long_log.entries)
    chains a = elim (Bool-cases (list_eq pc a)) [
      | inl e ↦ rw e (refl, refl, (refl, refl, tt))
      | inr e ↦ rw e tt
    ]
