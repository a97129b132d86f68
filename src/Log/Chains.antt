-- ===== src/Log/Chains.antt =====
-- `Log` of crates/curfew-sync/src/oplog.rs: every author's entries are a chain from the checkpoint on.
use curfew.Prelude.{
  ℕ, suc, ◌≤◌, ◌<◌, ◌≡◌, refl, sym, ap, ◌∙◌, subst, true, false, some, List, [], ◌∷◌, ◌++◌, inl,
  inr, arith, Bool-cases, Option-cases, ◌==◌, and-split,
}
use curfew.Prelude.Lists.{All, All-filter, last}
use curfew.Prelude.Order.{list_ord, nat_ord, pair_ord, list_eq, list_eq→eq}
use curfew.Prelude.I64.{u64_mod}
use curfew.Prelude.Map
use curfew.Prelude.Map.{BTreeMap, IsSortedMap, insert-IsSortedMap, All-insert}
use curfew.Device.{Crypto, DeviceId}
use curfew.Oplog.{Hash, Entry, Signed, hash}
use curfew.Log.{Log, Key, Entries, range, key_of, base_of, last_or, head, successor, follows}
use curfew.Log.Ranges.{Below, range-insert, range-insert_other}

-- An entry is filed under its author and its number.
abbrev pub AreKeyed : Entries → Type 0
AreKeyed m = All (λ e. e.0 ≡ key_of e.1) m

pub last-append {ℓ} : {A : Type ℓ} (xs : List A) (a : A) → last (xs ++ a ∷ []) ≡ some a
last-append [] a = refl
last-append (x ∷ xs) a = rw (last-append xs a)

abbrev pub extended : Log → Signed → Log
extended log signed = record log { entries = Map.insert (key_of signed) signed log.entries }

module _ {K X : Type 0} (crypto : Crypto K X) (canonical : Entry → List ℕ) where
  -- Each entry has the next number and names the hash of the one before it.
  abbrev pub IsChain : ℕ × Hash → Entries → Type 0
  IsChain base [] = Unit
  IsChain base (e ∷ es) =
      (e.1.entry.seq ≡ suc base.0)
      × (e.1.entry.prev ≡ base.1)
      × IsChain (e.1.entry.seq, hash crypto canonical e.1.entry) es

  abbrev pub IsValid : Log → Type 0
  IsValid log =
      IsSortedMap log.entries
      × AreKeyed log.entries
      × ((author : DeviceId) → IsChain (base_of log.checkpoint author) (range author log.entries))

  pub last_or-cons :
      (base : ℕ × Hash) (e : Key × Signed) (es : Entries)
      → last_or crypto canonical base (last (e ∷ es))
        ≡ last_or crypto canonical (e.1.entry.seq, hash crypto canonical e.1.entry) (last es)
  last_or-cons base e es = elim (Option-cases (last es)) [ inl h ↦ rw h | inr (x, h) ↦ rw h ]

  IsChain-le :
      (base : ℕ × Hash) (es : Entries)
      → IsChain base es
      → base.0 ≤ (last_or crypto canonical base (last es)).0
  IsChain-le base [] c = omega arith
  IsChain-le base (e ∷ es) c =
      rw (last_or-cons base e es)
        (omega (arith, c.0, IsChain-le (e.1.entry.seq, hash crypto canonical e.1.entry) es c.2))

  pub IsChain-Below :
      (base : ℕ × Hash) (es : Entries)
      → IsChain base es
      → AreKeyed es
      → Below (suc (last_or crypto canonical base (last es)).0) es
  IsChain-Below base [] c k = tt
  IsChain-Below base (e ∷ es) c k =
      let next : ℕ × Hash = (e.1.entry.seq, hash crypto canonical e.1.entry) in
      subst (λ h. Below (suc h.0) (e ∷ es)) (sym (last_or-cons base e es))
        (ground (arith, ap (λ z. z.1) k.0, IsChain-le next es c.2), IsChain-Below next es c.2 k.1)

  pub IsChain-append :
      (base : ℕ × Hash) (es : Entries) (e : Key × Signed)
      → IsChain base es
      → e.1.entry.seq ≡ suc (last_or crypto canonical base (last es)).0
      → e.1.entry.prev ≡ (last_or crypto canonical base (last es)).1
      → IsChain base (es ++ e ∷ [])
  IsChain-append base [] e c s p = (s, p, tt)
  IsChain-append base (x ∷ es) e c s p =
      let next : ℕ × Hash = (x.1.entry.seq, hash crypto canonical x.1.entry) in
      (
        c.0,
        c.1,
        IsChain-append next es e c.2 (s ∙ ap (λ z. suc z.0) (last_or-cons base x es))
            (p ∙ ap (λ z. z.1) (last_or-cons base x es)),
      )

  -- The entry that comes next, below the end of the numbers.
  abbrev pub ComesNext : Log → Signed → Type 0
  ComesNext log signed =
      (signed.entry.seq ≡ suc (head crypto canonical log signed.entry.author).0)
      × (signed.entry.prev ≡ (head crypto canonical log signed.entry.author).1)

  pub range-extended :
      (log : Log) (signed : Signed)
      → IsValid log
      → ComesNext log signed
      → range signed.entry.author (extended log signed).entries
        ≡ range signed.entry.author log.entries ++ (key_of signed, signed) ∷ []
  unfolding head
  range-extended log signed valid next =
      let author = signed.entry.author in
      range-insert (key_of signed) signed log.entries valid.0 (
        subst (λ n. Below n (range author log.entries)) (sym next.0)
          (IsChain-Below (base_of log.checkpoint author) (range author log.entries) (valid.2 author)
            (All-filter _ _ log.entries valid.1)))

  pub extended-IsValid :
      (log : Log) (signed : Signed)
      → IsValid log
      → ComesNext log signed
      → IsValid (extended log signed)
  unfolding head
  extended-IsValid log signed valid next = (
    insert-IsSortedMap (key_of signed) signed log.entries valid.0,
    All-insert (λ e. e.0 ≡ key_of e.1) (key_of signed) signed log.entries refl valid.1,
    λ author.
        let base = base_of log.checkpoint author in
        elim (Bool-cases (list_eq signed.entry.author author)) [
          | inl e ↦
              let same = list_eq→eq signed.entry.author author e in
              subst
                (λ a. IsChain (base_of log.checkpoint a) (range a (extended log signed).entries))
                same
                (rw (range-extended log signed valid next) (
                  IsChain-append (base_of log.checkpoint signed.entry.author)
                    (range signed.entry.author log.entries) (key_of signed, signed)
                    (valid.2 signed.entry.author) next.0 next.1))
          | inr e ↦
              rw (range-insert_other (key_of signed) signed author log.entries e) (valid.2 author)
        ],
  )

  pub head-extended :
      (log : Log) (signed : Signed)
      → IsValid log
      → ComesNext log signed
      → head crypto canonical (extended log signed) signed.entry.author
        ≡ (signed.entry.seq, hash crypto canonical signed.entry)
  unfolding head
  head-extended log signed valid next = rw (
    range-extended log signed valid next,
    last-append (range signed.entry.author log.entries) (key_of signed, signed),
  )

  pub head-extended_other :
      (log : Log) (signed : Signed) (author : DeviceId)
      → list_eq signed.entry.author author ≡ false
      → head crypto canonical (extended log signed) author ≡ head crypto canonical log author
  unfolding head
  head-extended_other log signed author n =
      rw (range-insert_other (key_of signed) signed author log.entries n)

  -- What `follows` tests, where the numbers do not wrap.
  pub follows-ComesNext :
      (log : Log) (signed : Signed)
      → follows crypto canonical signed (head crypto canonical log signed.entry.author) ≡ true
      → suc (head crypto canonical log signed.entry.author).0 < u64_mod
      → ComesNext log signed
  follows-ComesNext log signed f bound =
      let h = head crypto canonical log signed.entry.author in
      let (s, p) =
        and-split (signed.entry.seq == successor h.0) (list_eq signed.entry.prev h.1) f in
      (ground (arith, bound), list_eq→eq signed.entry.prev h.1 p)
