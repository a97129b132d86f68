-- ===== src/Log/Arrival.antt =====
-- `apply`, `accept` and `append` of crates/curfew-sync/src/oplog.rs: entries that are taken in.
use curfew.Prelude.{
  ℕ, suc, ◌<◌, ◌≡◌, refl, sym, ap, ◌∙◌, subst, Bool, true, false, none, some, List, inl, inr, ◌⊎◌,
  arith, Bool-cases, Option-cases,
}
use curfew.Prelude.Lists.{All-filter}
use curfew.Prelude.Order.{list_ord, nat_ord, pair_ord, list_eq_refl, beq_refl}
use curfew.Prelude.I64.{u64_mod}
use curfew.Prelude.Equal.{same_refl, same→eq}
use curfew.Prelude.Result.{Result, Result-cases, ok, err}
use curfew.Prelude.Map
use curfew.Prelude.Map.{get-insert}
use curfew.Device.{Crypto}
use curfew.Pair
use curfew.Pair.{Peers}
use curfew.Oplog
use curfew.Oplog.{Hash, Op, Entry, Signed, hash}
use curfew.Oplog.Equality.{signed_eq}
use curfew.Log.{
  Log, Error, range, base_of, peer, forked, rewritten, key_of, head, follows, apply, accept,
}
use curfew.Log.Ranges.{Below, get-range, get-Below}
use curfew.Log.Chains.{
  IsValid, IsChain-Below, ComesNext, extended, extended-IsValid, follows-ComesNext,
}

module _ {K X : Type 0} (crypto : Crypto K X) (canonical : Entry → List ℕ) where
  apply-held :
      (log : Log) (signed : Signed)
      → Map.get (key_of signed) log.entries ≡ some signed
      → apply crypto canonical log signed ≡ (log, ok false)
  unfolding apply
  apply-held log signed e = rw (apply, e, same_refl signed)

  apply-rewritten :
      (log : Log) (signed existing : Signed)
      → Map.get (key_of signed) log.entries ≡ some existing
      → signed_eq.same existing signed ≡ false
      → apply crypto canonical log signed
        ≡ (log, err (rewritten signed.entry.author signed.entry.seq))
  unfolding apply
  apply-rewritten log signed existing e n = rw (apply, e, n)

  pub apply-next :
      (log : Log) (signed : Signed)
      → Map.get (key_of signed) log.entries ≡ none
      → follows crypto canonical signed (head crypto canonical log signed.entry.author) ≡ true
      → apply crypto canonical log signed ≡ (extended log signed, ok true)
  unfolding apply
  apply-next log signed e f = rw (apply, e, f)

  apply-forked :
      (log : Log) (signed : Signed)
      → Map.get (key_of signed) log.entries ≡ none
      → follows crypto canonical signed (head crypto canonical log signed.entry.author) ≡ false
      → apply crypto canonical log signed ≡ (log, err (forked signed.entry.author signed.entry.seq))
  unfolding apply
  apply-forked log signed e f = rw (apply, e, f)

  -- What becomes of an entry, with why.
  abbrev pub Outcome : Log → Signed → Log × Result Bool Error → Type 0
  Outcome log signed r =
      ((Map.get (key_of signed) log.entries ≡ some signed) × (r ≡ (log, ok false)))
      ⊎ ((existing : Signed) × (Map.get (key_of signed) log.entries ≡ some existing)
          × (signed_eq.same existing signed ≡ false)
          × (r ≡ (log, err (rewritten signed.entry.author signed.entry.seq))))
      ⊎ ((Map.get (key_of signed) log.entries ≡ none)
          × (follows crypto canonical signed (head crypto canonical log signed.entry.author) ≡ true)
          × (r ≡ (extended log signed, ok true)))
      ⊎ ((Map.get (key_of signed) log.entries ≡ none)
          × (follows crypto canonical signed (head crypto canonical log signed.entry.author)
              ≡ false)
          × (r ≡ (log, err (forked signed.entry.author signed.entry.seq))))

  pub apply-outcome :
      (log : Log) (signed : Signed) → Outcome log signed (apply crypto canonical log signed)
  apply-outcome log signed = elim (Option-cases (Map.get (key_of signed) log.entries)) [
    | inr (existing, e) ↦ elim (Bool-cases (signed_eq.same existing signed)) [
      | inl s ↦
          let held = e ∙ ap some (same→eq existing signed s) in
          inl (held, apply-held log signed held)
      | inr n ↦ inr (inl (existing, e, n, apply-rewritten log signed existing e n))
    ]
    | inl e ↦
        elim (Bool-cases
          (follows crypto canonical signed (head crypto canonical log signed.entry.author))) [
            | inl f ↦ inr (inr (inl (e, f, apply-next log signed e f)))
            | inr f ↦ inr (inr (inr (e, f, apply-forked log signed e f)))
          ]
  ]

  get-extended :
      (log : Log) (signed : Signed)
      → Map.get (key_of signed) (extended log signed).entries ≡ some signed
  get-extended log signed =
      get-insert (key_of signed) (key_of signed) signed log.entries
      ∙ rw (list_eq_refl signed.entry.author, beq_refl signed.entry.seq)

  -- The next entry is new to the log and follows.
  pub apply-ComesNext :
      (log : Log) (s : Signed)
      → IsValid crypto canonical log
      → ComesNext crypto canonical log s
      → s.entry.seq < u64_mod
      → apply crypto canonical log s ≡ (extended log s, ok true)
  unfolding head
  apply-ComesNext log s valid next bound =
      let author = s.entry.author in
      let below : Below s.entry.seq (range author log.entries) =
        subst (λ n. Below n (range author log.entries)) (sym next.0)
          (IsChain-Below crypto canonical (base_of log.checkpoint author) (range author log.entries)
            (valid.2 author) (All-filter _ _ log.entries valid.1)) in
      apply-next log s
        (sym (get-range (key_of s) log.entries)
          ∙ get-Below (key_of s) (range author log.entries) below)
        (numbered (head crypto canonical log author) next)
    where
      numbered :
          (h : ℕ × Hash)
          → (s.entry.seq ≡ suc h.0) × (s.entry.prev ≡ h.1)
          → follows crypto canonical s h ≡ true
      numbered h n = rw (sym n.1, list_eq_refl s.entry.prev) (ground (arith, n.0, bound))

  -- Taking an entry in leaves the chains whole.
  pub apply-IsValid :
      (log : Log) (signed : Signed)
      → IsValid crypto canonical log
      → suc (head crypto canonical log signed.entry.author).0 < u64_mod
      → IsValid crypto canonical (apply crypto canonical log signed).0
  apply-IsValid log signed valid bound = elim (apply-outcome log signed) [
    | inl (_, r) ↦ rw r valid
    | inr (inl (_, _, _, r)) ↦ rw r valid
    | inr (inr (inl (_, f, r))) ↦ rw r (
        extended-IsValid crypto canonical log signed valid
          (follows-ComesNext crypto canonical log signed f bound))
    | inr (inr (inr (_, _, r))) ↦ rw r valid
  ]

  -- What an entry that was let in leaves: it is held, and taking it in again is no news.
  apply-again :
      (log : Log) (signed : Signed) (b : Bool)
      → (apply crypto canonical log signed).1 ≡ ok b
      → apply crypto canonical (apply crypto canonical log signed).0 signed
        ≡ ((apply crypto canonical log signed).0, ok false)
  apply-again log signed b done = elim (apply-outcome log signed) [
    | inl (e, r) ↦ rw r (apply-held log signed e)
    | inr (inl (_, _, _, r)) ↦ absurd (cc (rw r at done))
    | inr (inr (inl (_, _, r))) ↦
        rw r (apply-held (extended log signed) signed (get-extended log signed))
    | inr (inr (inr (_, _, r))) ↦ absurd (cc (rw r at done))
  ]

  apply-refused :
      (log : Log) (signed : Signed) (e : Error)
      → (apply crypto canonical log signed).1 ≡ err e
      → (apply crypto canonical log signed).0 ≡ log
  apply-refused log signed e done = elim (apply-outcome log signed) [
    | inl (_, r) ↦ rw r
    | inr (inl (_, _, _, r)) ↦ rw r
    | inr (inr (inl (_, _, r))) ↦ absurd (cc (rw r at done))
    | inr (inr (inr (_, _, r))) ↦ rw r
  ]

  pub accept-verified :
      (log : Log) (signed : Signed) (peers : Peers)
      → Oplog.verify crypto canonical signed peers ≡ ok tt
      → accept crypto canonical log signed peers ≡ apply crypto canonical log signed
  unfolding accept
  accept-verified log signed peers v = rw (accept, v)

  accept-unverified :
      (log : Log) (signed : Signed) (peers : Peers) (e : Pair.Error)
      → Oplog.verify crypto canonical signed peers ≡ err e
      → accept crypto canonical log signed peers ≡ (log, err (peer e))
  unfolding accept
  accept-unverified log signed peers e v = rw (accept, v)

  -- An entry that is refused, for whatever reason, leaves the log as it was; one that is let in is
  -- signed by a device that is listened to, and offering it again to the log that it left changes
  -- nothing and is no error.
  pub accept_errors :
      (log : Log) (signed : Signed) (peers : Peers)
      → ((e : Error)
          → (accept crypto canonical log signed peers).1 ≡ err e
          → (accept crypto canonical log signed peers).0 ≡ log)
        × ((b : Bool)
            → (accept crypto canonical log signed peers).1 ≡ ok b
            → (Oplog.verify crypto canonical signed peers ≡ ok tt)
              × (accept crypto canonical (accept crypto canonical log signed peers).0 signed peers
                  ≡ ((accept crypto canonical log signed peers).0, ok false)))
  accept_errors log signed peers =
      elim (Result-cases (Oplog.verify crypto canonical signed peers)) [
        | inl (u, v) ↦
            let through = accept-verified log signed peers v in
            rw through (
              λ e done. apply-refused log signed e done,
              λ b done. (
                v,
                accept-verified (apply crypto canonical log signed).0 signed peers v
                    ∙ apply-again log signed b done,
              ),
            )
        | inr (e, v) ↦
            rw (accept-unverified log signed peers e v) (λ d done. refl, λ b done. absurd (cc done))
      ]
