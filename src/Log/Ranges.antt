-- ===== src/Log/Ranges.antt =====
-- `range` of crates/curfew-sync/src/oplog.rs: one author's entries, under an insertion.
use curfew.Prelude.{
  ℕ, ◌≡◌, refl, ap, true, false, none, [], ◌∷◌, ◌++◌, inl, inr, arith, Bool-cases, ltb,
}
use curfew.Prelude.Lists.{All}
use curfew.Prelude.Order.{
  Ord, list_ord, nat_ord, pair_ord, pair_lt, list_lt_irrefl, list_eq, beq_symm, list_eq→eq,
  list_eq_refl,
}
use curfew.Prelude.Map
use curfew.Prelude.Map.{BTreeMap, IsSortedMap, AboveKeys, AboveKeys-trans, insert-IsSortedMap}
use curfew.Device.{DeviceId}
use curfew.Oplog.{Signed}
use curfew.Log.{Key, Entries, range}

abbrev pub key_ord : Ord Key
key_ord = pair_ord

-- Entries of an author that are all below a number.
abbrev pub Below : ℕ → Entries → Type 0
Below n m = All (λ e. ltb e.0.1 n ≡ true) m

range_above : (k : Key) (m : Entries) → AboveKeys k m → Below k.1 (range k.0 m) → range k.0 m ≡ []
range_above k [] h b = refl
range_above k ((i, w) ∷ m) h b = elim (Bool-cases (list_eq i.0 k.0)) [
  | inl e ↦
      let same = list_eq→eq i.0 k.0 e in
      let low = (rw e at b).0 in
      absurd (ground (arith, h.0, low, same, list_eq_refl k.0, list_lt_irrefl k.0))
  | inr e ↦ rw e (range_above k m h.1 (rw e at b))
]

pub range-insert :
    (k : Key) (v : Signed) (m : Entries)
    → IsSortedMap m
    → Below k.1 (range k.0 m)
    → range k.0 (Map.insert k v m) ≡ range k.0 m ++ (k, v) ∷ []
unfolding Map.insert
range-insert k v [] h b = rw (list_eq_refl k.0)
range-insert k v ((i, w) ∷ m) h b = elim (Bool-cases (pair_lt k i)) [
  | inl e ↦
      let none_here = range_above k ((i, w) ∷ m) (e, AboveKeys-trans k i m e h.0) b in
      rw (e, list_eq_refl k.0, none_here)
  | inr e ↦ elim (Bool-cases (list_eq i.0 k.0)) [
    | inl f ↦
        let same = list_eq→eq i.0 k.0 f in
        let low = (rw f at b).0 in
        let first : pair_lt i k ≡ true = ground (arith, low, f) in
        rw (e, first, f) (ap (◌∷◌ (i, w)) (range-insert k v m h.1 (rw f at b).1))
    | inr f ↦ elim (Bool-cases (pair_lt i k)) [
      | inl g ↦ rw (e, g, f) (range-insert k v m h.1 (rw f at b))
      | inr g ↦
          let same : k ≡ i = key_ord.lt_connex k i e g in
          absurd (cc (f, list_eq_refl i.0, ap (λ z. z.0) same))
    ]
  ]
]

pub range-insert_other :
    (k : Key) (v : Signed) (author : DeviceId) (m : Entries)
    → list_eq k.0 author ≡ false
    → range author (Map.insert k v m) ≡ range author m
unfolding Map.insert
range-insert_other k v author [] n = rw n
range-insert_other k v author ((i, w) ∷ m) n = elim (Bool-cases (pair_lt k i)) [
  | inl e ↦ rw (e, n)
  | inr e ↦ elim (Bool-cases (pair_lt i k)) [
    | inl g ↦ rw (e, g) (ground (arith, range-insert_other k v author m n))
    | inr g ↦
        let same : k ≡ i = key_ord.lt_connex k i e g in
        let other : list_eq i.0 author ≡ false = cc (n, ap (λ z. z.0) same) in rw (e, g, n, other)
  ]
]

pub get-range : (k : Key) (m : Entries) → Map.get k (range k.0 m) ≡ Map.get k m
unfolding Map.get
get-range k [] = refl
get-range k ((i, w) ∷ m) = elim (Bool-cases (list_eq i.0 k.0)) [
  | inl e ↦ rw e (ground (arith, get-range k m))
  | inr e ↦ rw e (ground (arith, get-range k m, beq_symm k.0 i.0))
]

pub get-Below : (k : Key) (m : Entries) → Below k.1 m → Map.get k m ≡ none
unfolding Map.get
get-Below k [] h = refl
get-Below k ((i, w) ∷ m) h = ground (arith, h.0, get-Below k m h.1)
