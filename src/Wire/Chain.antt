-- ===== src/Wire/Chain.antt =====
-- `receive` of crates/curfew-sync/src/wire.rs: entries of one author that continue its chain.
use curfew.Prelude.{
  ℕ, suc, ◌<◌, ◌≡◌, refl, sym, ap, ◌∙◌, subst, true, false, List, [], ◌∷◌, ◌++◌, map,
}
use curfew.Prelude.Lists.{All, append_assoc, append_nil}
use curfew.Prelude.Order.{list_ord, nat_ord, pair_ord, list_eq}
use curfew.Prelude.I64.{u64_mod}
use curfew.Prelude.Result.{ok}
use curfew.Device.{Crypto, DeviceId}
use curfew.Oplog.{Entry, Signed, hash}
use curfew.Log
use curfew.Log.{Log, Key, Entries, range, key_of, base_of, last_or, head, follows, successor}
use curfew.Log.Ranges.{range-insert_other}
use curfew.Log.Chains.{
  IsChain, IsValid, ComesNext, extended, extended-IsValid, range-extended, head-extended,
}
use curfew.Log.Arrival.{apply-ComesNext}
use curfew.Wire.{Received, apply_chain, counted}

abbrev pub keyed : List Signed → Entries
keyed xs = map (λ s. (key_of s, s)) xs

module _ {K X : Type 0} (crypto : Crypto K X) (canonical : Entry → List ℕ) where
  apply_chain-accepted :
      (log log' : Log) (s : Signed) (cs : List Signed) (out : Received)
      → Log.apply crypto canonical log s ≡ (log', ok true)
      → apply_chain crypto canonical log out (s ∷ cs)
        ≡ apply_chain crypto canonical log' (record out { accepted = suc out.accepted }) cs
  unfolding apply_chain
  apply_chain-accepted log log' s cs out e =
      ap (λ r. apply_chain crypto canonical r.0 (counted r.1 out) cs) e

  -- What entries of one author do that continue its chain.
  abbrev pub Continued : Log → DeviceId → List Signed → Received → Log × Received → Type 0
  Continued log author cs out r =
      IsValid crypto canonical r.0
      × (range author r.0.entries ≡ range author log.entries ++ keyed cs)
      × ((b : DeviceId) → list_eq author b ≡ false → range b r.0.entries ≡ range b log.entries)
      × (r.0.checkpoint ≡ log.checkpoint)
      × (r.1.known ≡ out.known)
      × (r.1.refused ≡ out.refused)

  pub apply_chain-Continued :
      (log : Log) (author : DeviceId) (cs : List Signed) (out : Received)
      → IsValid crypto canonical log
      → All (λ s. s.entry.author ≡ author) cs
      → All (λ s. s.entry.seq < u64_mod) cs
      → IsChain crypto canonical (head crypto canonical log author) (keyed cs)
      → Continued log author cs out (apply_chain crypto canonical log out cs)
  unfolding apply_chain
  apply_chain-Continued log author [] out valid a b c =
      (valid, sym (append_nil (range author log.entries)), λ d n. refl, refl, refl, refl)
  apply_chain-Continued log author (s ∷ cs) out valid a b c =
      let q : s.entry.author ≡ author = a.0 in
      let next : ComesNext crypto canonical log s = (
        c.0 ∙ ap (λ z. suc (head crypto canonical log z).0) (sym q),
        c.1 ∙ ap (λ z. (head crypto canonical log z).1) (sym q),
      ) in
      let log' = extended log s in
      let at : head crypto canonical log' author ≡ (s.entry.seq, hash crypto canonical s.entry) =
        ap (head crypto canonical log') (sym q) ∙ head-extended crypto canonical log s valid next in
      let out' : Received = record out { accepted = suc out.accepted } in
      let rest =
        apply_chain-Continued log' author cs out'
          (extended-IsValid crypto canonical log s valid next) a.1 b.1
          (subst (λ h. IsChain crypto canonical h (keyed cs)) (sym at) c.2) in
      let grown : range author log'.entries ≡ range author log.entries ++ (key_of s, s) ∷ [] =
        subst (λ z. range z log'.entries ≡ range z log.entries ++ (key_of s, s) ∷ []) q
          (range-extended crypto canonical log s valid next) in
      subst (Continued log author (s ∷ cs) out)
        (sym (
          apply_chain-accepted log log' s cs out
            (apply-ComesNext crypto canonical log s valid next b.0)))
        (
          rest.0,
          rest.1
              ∙ ap (λ z. z ++ keyed cs) grown
              ∙ append_assoc (range author log.entries) ((key_of s, s) ∷ []) (keyed cs),
          λ d n.
              rest.2 d n
              ∙ range-insert_other (key_of s) s d log.entries (ap (λ z. list_eq z d) q ∙ n),
          rest.3,
          rest.4,
          rest.5,
        )
