-- ===== src/Wire/Batches.antt =====
-- `receive` of crates/curfew-sync/src/wire.rs: a batch that continues the chains that are held.
use curfew.Prelude.{
  ℕ, ◌<◌, ◌≡◌, refl, sym, ap, ap₂, ◌∙◌, subst, true, false, not, none, some, List, [], ◌∷◌, ◌++◌,
  inl, inr, Bool-cases,
}
use curfew.Prelude.Lists.{
  All, All-filter, filter, last, sort_by, append_nil, All-map, filter-All, All-sort_by, filter_same,
  filter_none,
}
use curfew.Prelude.Order.{list_ord, nat_ord, pair_ord, list_eq, list_eq→eq, lt→ne, beq_symm}
use curfew.Prelude.I64.{u64_mod}
use curfew.Prelude.Map
use curfew.Prelude.Map.{BTreeMap, IsSortedMap, AboveKeys, get-AboveKeys, All-get}
use curfew.Device.{Crypto, DeviceId}
use curfew.Pair.{Peers}
use curfew.Oplog.{Entry, Signed}
use curfew.Log.{Log, range, base_of, last_or, head}
use curfew.Log.Chains.{IsChain, IsValid}
use curfew.Wire.{
  Received, apply_chain, apply_chains, group, lower_seq, or_no_chain, receive, is_verified, nothing,
}
use curfew.Wire.Groups.{by, chain_in, or_no_chain-pushed, get-group, group-IsSortedMap}
use curfew.Wire.Chain.{keyed, apply_chain-Continued}

module _ {K X : Type 0} (crypto : Crypto K X) (canonical : Entry → List ℕ) where
  same_range-head :
      (log log' : Log) (b : DeviceId)
      → range b log'.entries ≡ range b log.entries
      → log'.checkpoint ≡ log.checkpoint
      → head crypto canonical log' b ≡ head crypto canonical log b
  unfolding head
  same_range-head log log' b e c = ap₂ (λ x y. last_or crypto canonical (base_of x b) (last y)) c e

  -- A group that continues its author's chain, once sorted.
  abbrev Fits : Log → DeviceId × List Signed → Type 0
  Fits log e =
      All (λ s. s.entry.author ≡ e.0) (sort_by lower_seq e.1)
      × All (λ s. s.entry.seq < u64_mod) (sort_by lower_seq e.1)
      × IsChain crypto canonical (head crypto canonical log e.0) (keyed (sort_by lower_seq e.1))

  Fits-other :
      (log log' : Log) (a : DeviceId) (m : BTreeMap DeviceId (List Signed))
      → ((b : DeviceId)
          → list_eq a b ≡ false
          → head crypto canonical log' b ≡ head crypto canonical log b)
      → AboveKeys a m
      → All (Fits log) m
      → All (Fits log') m
  Fits-other log log' a [] same h f = tt
  Fits-other log log' a ((b, d) ∷ m) same h f = (
    (
      f.0.0,
      f.0.1,
      subst (λ z. IsChain crypto canonical z (keyed (sort_by lower_seq d)))
          (sym (same b (lt→ne a b h.0))) f.0.2,
    ),
    Fits-other log log' a m same h.1 f.1,
  )

  -- What groups do that each continue a chain.
  abbrev AllContinued : Log → BTreeMap DeviceId (List Signed) → Received → Log × Received → Type 0
  AllContinued log m out r =
      IsValid crypto canonical r.0
      × ((b : DeviceId)
          → range b r.0.entries
            ≡ range b log.entries ++ keyed (sort_by lower_seq (or_no_chain (Map.get b m))))
      × (r.0.checkpoint ≡ log.checkpoint)
      × (r.1.known ≡ out.known)
      × (r.1.refused ≡ out.refused)

  apply_chains-AllContinued :
      (log : Log) (m : BTreeMap DeviceId (List Signed)) (out : Received)
      → IsValid crypto canonical log
      → IsSortedMap m
      → All (Fits log) m
      → AllContinued log m out (apply_chains crypto canonical log out m)
  unfolding apply_chains sort_by Map.get
  apply_chains-AllContinued log [] out valid h f =
      (valid, λ b. sym (append_nil (range b log.entries)), refl, refl, refl)
  apply_chains-AllContinued log ((a, c) ∷ m) out valid h f =
      let sorted = sort_by lower_seq c in
      let first = apply_chain crypto canonical log out sorted in
      let done = apply_chain-Continued crypto canonical log a sorted out valid f.0.0 f.0.1 f.0.2 in
      let same_head : (b : DeviceId)
          → list_eq a b ≡ false
          → head crypto canonical first.0 b ≡ head crypto canonical log b =
        λ b n. same_range-head log first.0 b (done.2 b n) done.3 in
      let rest =
        apply_chains-AllContinued first.0 m first.1 done.0 h.1
          (Fits-other log first.0 a m same_head h.0 f.1) in
      (
        rest.0,
        λ b. rest.1 b ∙ elim (Bool-cases (list_eq b a)) [
          | inl e ↦
              let same : a ≡ b = sym (list_eq→eq b a e) in
              let gone : Map.get b m ≡ none =
                get-AboveKeys b m (subst (λ z. AboveKeys z m) same h.0) in
              let grown : range b first.0.entries ≡ range b log.entries ++ keyed sorted =
                subst (λ z. range z first.0.entries ≡ range z log.entries ++ keyed sorted) same
                  done.1 in
              rw (e, gone) (append_nil (range b first.0.entries) ∙ grown)
          | inr n ↦ rw (n, done.2 b (beq_symm a b ∙ n))
        ],
        rest.2 ∙ done.3,
        rest.3 ∙ done.4,
        rest.4 ∙ done.5,
      )

  -- A batch that continues the chains: it verifies, and each author's entries in it, sorted by their
  -- numbers, follow the head that is held.
  abbrev pub IsNews : Log → Peers → List Signed → Type 0
  IsNews log peers xs =
      All (λ s. is_verified crypto canonical peers s ≡ true) xs
      × All (λ s. s.entry.seq < u64_mod) xs
      × ((a : DeviceId)
          → IsChain crypto canonical (head crypto canonical log a) (keyed (chain_in a xs)))

  receive-verified :
      (log : Log) (peers : Peers) (xs : List Signed)
      → All (λ s. is_verified crypto canonical peers s ≡ true) xs
      → receive crypto canonical log peers xs
        ≡ apply_chains crypto canonical log nothing (group [] xs)
  unfolding receive
  receive-verified log peers xs h =
      let ok_by = is_verified crypto canonical peers in
      rw (
        filter_same ok_by xs h,
        filter_none (λ s. not (ok_by s)) xs (All-map _ _ xs (λ s e. rw e) h),
      )

  chain-group :
      (a : DeviceId) (xs : List Signed) → or_no_chain (Map.get a (group [] xs)) ≡ filter (by a) xs
  unfolding Map.get
  chain-group a xs = ap or_no_chain (get-group a [] xs) ∙ or_no_chain-pushed (filter (by a) xs)

  group-Fits :
      (log : Log) (peers : Peers) (xs : List Signed)
      → IsNews log peers xs
      → (k : DeviceId) (v : List Signed) → Map.get k (group [] xs) ≡ some v
      → Fits log (k, v)
  group-Fits log peers xs news k v e =
      let same : filter (by k) xs ≡ v = sym (chain-group k xs) ∙ ap or_no_chain e in
      subst (λ z. Fits log (k, z)) same
        (
          All-sort_by _ lower_seq (filter (by k) xs) (
              All-map _ _ (filter (by k) xs) (λ s h. sym (list_eq→eq k s.entry.author h))
                (filter-All (by k) xs)),
          All-sort_by _ lower_seq (filter (by k) xs) (All-filter _ (by k) xs news.1),
          news.2 k,
        )

  -- A batch in which every entry verifies and each author's entries, sorted by their 64-bit numbers,
  -- continue the chain that a valid log holds of it, whatever their order in the batch, is taken in
  -- whole: nothing is refused or known already, the log stays valid, and each chain is extended by
  -- exactly the author's entries.
  pub receive-takes_news :
      (log : Log) (peers : Peers) (xs : List Signed)
      → IsValid crypto canonical log
      → IsNews log peers xs
      → let (log', out) = receive crypto canonical log peers xs in
        IsValid crypto canonical log'
        × ((a : DeviceId) → range a log'.entries ≡ range a log.entries ++ keyed (chain_in a xs))
        × (log'.checkpoint ≡ log.checkpoint)
        × (out.known ≡ 0)
        × (out.refused ≡ 0)
  receive-takes_news log peers xs valid news =
      let m = group [] xs in
      let r =
        apply_chains-AllContinued log m nothing valid (group-IsSortedMap [] xs tt)
          (All-get (Fits log) m (group-IsSortedMap [] xs tt) (group-Fits log peers xs news)) in
      rw (receive-verified log peers xs news.0) (
        r.0,
        λ a.
            r.1 a ∙ ap (λ z. range a log.entries ++ keyed (sort_by lower_seq z)) (chain-group a xs),
        r.2,
        r.3,
        r.4,
      )
