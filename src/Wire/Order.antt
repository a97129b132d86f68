-- ===== src/Wire/Order.antt =====
-- `receive` of crates/curfew-sync/src/wire.rs: the order of a batch.
use curfew.Prelude.{
  ℕ, suc, ◌≡◌, ◌≢◌, not, refl, sym, ap, ◌∙◌, Bool, true, false, Option, none, some, List, [], ◌∷◌,
  map, inl, inr, arith, Bool-cases,
}
use curfew.Prelude.Lists.{filter, length, insert_by, sort_by}
use curfew.Prelude.Order.{list_ord, list_eq, list_eq→eq}
use curfew.Prelude.Map
use curfew.Prelude.Map.{BTreeMap, IsSortedMap, AboveKeys, map_ext, get-insert, insert-IsSortedMap}
use curfew.Device.{Crypto, DeviceId}
use curfew.Pair.{Peers}
use curfew.Oplog.{Entry, Signed}
use curfew.Log.{Log, key_of}
use curfew.Log.Ranges.{key_ord}
use curfew.Wire.Groups.{by, chain_in, pushed, get-group, group-IsSortedMap}
use curfew.Wire.{
  Received, nothing, group, lower_seq, apply_chain, apply_chains, receive, is_verified,
}

-- The same entries in another order, where two of one author with the same number keep theirs.
pub data IsReordered : List Signed → List Signed → Type 0 where
  done : IsReordered [] []
  keep : {x : Signed} {xs ys : List Signed} → IsReordered xs ys → IsReordered (x ∷ xs) (x ∷ ys)
  swap :
      {x y : Signed} {xs : List Signed}
      → key_ord.beq (key_of x) (key_of y) ≡ false
      → IsReordered (x ∷ y ∷ xs) (y ∷ x ∷ xs)
  and_then : {xs ys zs : List Signed} → IsReordered xs ys → IsReordered ys zs → IsReordered xs zs

insert_by_swap :
    (x y : Signed) (xs : List Signed)
    → lower_seq x y ≡ true
    → insert_by lower_seq x (insert_by lower_seq y xs)
      ≡ insert_by lower_seq y (insert_by lower_seq x xs)
unfolding insert_by
insert_by_swap x y [] h = ground arith
insert_by_swap x y (z ∷ zs) h = elim (Bool-cases (lower_seq z x)) [
  | inl e ↦
      let f : lower_seq z y ≡ true = ground arith in
      rw (e, f, e) (ap (◌∷◌ z) (insert_by_swap x y zs h))
  | inr e ↦ elim (Bool-cases (lower_seq z y)) [
    | inl f ↦ rw (e, f, e, h)
    | inr f ↦ let g : lower_seq y x ≡ false = ground arith in rw (e, f, g, h)
  ]
]

-- Two different numbers are inserted in either order.
insert_by_other :
    (x y : Signed) (xs : List Signed)
    → key_ord.beq (key_of x) (key_of y) ≡ false
    → list_eq x.entry.author y.entry.author ≡ true
    → insert_by lower_seq x (insert_by lower_seq y xs)
      ≡ insert_by lower_seq y (insert_by lower_seq x xs)
insert_by_other x y xs n same = elim (Bool-cases (lower_seq x y)) [
  | inl h ↦ insert_by_swap x y xs h
  | inr h ↦ sym (insert_by_swap y x xs (ground arith))
]

chain_in-keep :
    (author : DeviceId) (x : Signed) (xs ys : List Signed)
    → chain_in author xs ≡ chain_in author ys
    → chain_in author (x ∷ xs) ≡ chain_in author (x ∷ ys)
unfolding sort_by
chain_in-keep author x xs ys e = elim (Bool-cases (by author x)) [
  | inl h ↦ rw (h, e)
  | inr h ↦ rw h e
]

chain_in-swap :
    (author : DeviceId) (x y : Signed) (xs : List Signed)
    → key_ord.beq (key_of x) (key_of y) ≡ false
    → chain_in author (x ∷ y ∷ xs) ≡ chain_in author (y ∷ x ∷ xs)
unfolding sort_by
chain_in-swap author x y xs n = elim (Bool-cases (by author x)) [
  | inl h ↦ elim (Bool-cases (by author y)) [
    | inl k ↦
        let a : author ≡ x.entry.author = list_eq→eq author x.entry.author h in
        let same : list_eq x.entry.author y.entry.author ≡ true =
          ap (λ z. list_eq z y.entry.author) (sym a) ∙ k in
        rw (h, k) (insert_by_other x y (chain_in author xs) n same)
    | inr k ↦ rw (h, k)
  ]
  | inr h ↦ rw h
]

chain_in-IsReordered :
    (author : DeviceId) {xs ys : List Signed}
    → IsReordered xs ys
    → chain_in author xs ≡ chain_in author ys
chain_in-IsReordered author done = refl
chain_in-IsReordered author (keep {x} {xs} {ys} r) =
    chain_in-keep author x xs ys (chain_in-IsReordered author r)
chain_in-IsReordered author (swap {x} {y} {xs} n) = chain_in-swap author x y xs n
chain_in-IsReordered author (and_then r s) =
    chain_in-IsReordered author r ∙ chain_in-IsReordered author s

-- The groups, each sorted as it is before it is applied.
abbrev in_order : BTreeMap DeviceId (List Signed) → BTreeMap DeviceId (List Signed)
in_order m = map (λ e. (e.0, sort_by lower_seq e.1)) m

abbrev sorted_chain : Option (List Signed) → Option (List Signed)
sorted_chain none = none
sorted_chain (some chain) = some (sort_by lower_seq chain)

get-in_order :
    (author : DeviceId) (m : BTreeMap DeviceId (List Signed))
    → Map.get author (in_order m) ≡ sorted_chain (Map.get author m)
unfolding Map.get
get-in_order author [] = refl
get-in_order author ((a, chain) ∷ m) = elim (Bool-cases (list_eq author a)) [
  | inl h ↦ rw h
  | inr h ↦ rw h (get-in_order author m)
]

AboveKeys-in_order :
    (a : DeviceId) (m : BTreeMap DeviceId (List Signed)) → AboveKeys a m → AboveKeys a (in_order m)
AboveKeys-in_order a [] h = tt
AboveKeys-in_order a (e ∷ m) h = (h.0, AboveKeys-in_order a m h.1)

in_order-IsSortedMap :
    (m : BTreeMap DeviceId (List Signed)) → IsSortedMap m → IsSortedMap (in_order m)
in_order-IsSortedMap [] h = tt
in_order-IsSortedMap ((a, chain) ∷ m) h = (AboveKeys-in_order a m h.0, in_order-IsSortedMap m h.1)

insert_by-cons : (x : Signed) (xs : List Signed) → insert_by lower_seq x xs ≢ []
unfolding insert_by
insert_by-cons x [] e = cc e
insert_by-cons x (y ∷ ys) e = elim (Bool-cases (lower_seq y x)) [
  | inl h ↦ cc (rw h at e)
  | inr h ↦ cc (rw h at e)
]

-- A chain that is sorted is empty where another is, so that the groups have the same authors.
sorted_chain-pushed :
    (xs ys : List Signed)
    → sort_by lower_seq xs ≡ sort_by lower_seq ys
    → sorted_chain (pushed none xs) ≡ sorted_chain (pushed none ys)
unfolding sort_by
sorted_chain-pushed [] [] e = refl
sorted_chain-pushed [] (y ∷ ys) e = absurd (insert_by-cons y (sort_by lower_seq ys) (sym e))
sorted_chain-pushed (x ∷ xs) [] e = absurd (insert_by-cons x (sort_by lower_seq xs) e)
sorted_chain-pushed (x ∷ xs) (y ∷ ys) e = ap some e

in_order-group :
    {xs ys : List Signed} → IsReordered xs ys → in_order (group [] xs) ≡ in_order (group [] ys)
unfolding Map.get
in_order-group {xs} {ys} r =
    map_ext (in_order (group [] xs)) (in_order (group [] ys))
      (in_order-IsSortedMap (group [] xs) (group-IsSortedMap [] xs tt))
      (in_order-IsSortedMap (group [] ys) (group-IsSortedMap [] ys tt))
      λ author.
        get-in_order author (group [] xs)
        ∙ ap sorted_chain (get-group author [] xs)
        ∙ sorted_chain-pushed (filter (by author) xs) (filter (by author) ys)
            (chain_in-IsReordered author r)
        ∙ sym (ap sorted_chain (get-group author [] ys))
        ∙ sym (get-in_order author (group [] ys))

IsReordered-refl : (xs : List Signed) → IsReordered xs xs
IsReordered-refl [] = done
IsReordered-refl (x ∷ xs) = keep (IsReordered-refl xs)

filter-IsReordered :
    (p : Signed → Bool) {xs ys : List Signed}
    → IsReordered xs ys
    → IsReordered (filter p xs) (filter p ys)
filter-IsReordered p done = done
filter-IsReordered p (keep {x} {xs} {ys} r) = elim (Bool-cases (p x)) [
  | inl h ↦ rw h (keep (filter-IsReordered p r))
  | inr h ↦ rw h (filter-IsReordered p r)
]
filter-IsReordered p (swap {x} {y} {xs} n) = elim (Bool-cases (p x)) [
  | inl h ↦ elim (Bool-cases (p y)) [
    | inl k ↦ rw (h, k) (swap n)
    | inr k ↦ rw (h, k) (IsReordered-refl (x ∷ filter p xs))
  ]
  | inr h ↦ elim (Bool-cases (p y)) [
    | inl k ↦ rw (h, k) (IsReordered-refl (y ∷ filter p xs))
    | inr k ↦ rw (h, k) (IsReordered-refl (filter p xs))
  ]
]
filter-IsReordered p (and_then r s) = and_then (filter-IsReordered p r) (filter-IsReordered p s)

length-IsReordered : {xs ys : List Signed} → IsReordered xs ys → length xs ≡ length ys
length-IsReordered done = refl
length-IsReordered (keep r) = ap suc (length-IsReordered r)
length-IsReordered (swap n) = refl
length-IsReordered (and_then r s) = length-IsReordered r ∙ length-IsReordered s

module _ {K X : Type 0} (crypto : Crypto K X) (canonical : Entry → List ℕ) where
  -- Only the sorted chains count.
  apply_chains-in_order :
      (log : Log) (out : Received) (m n : BTreeMap DeviceId (List Signed))
      → in_order m ≡ in_order n
      → apply_chains crypto canonical log out m ≡ apply_chains crypto canonical log out n
  unfolding apply_chains
  apply_chains-in_order log out [] [] e = refl
  apply_chains-in_order log out [] (y ∷ n) e = absurd (cc e)
  apply_chains-in_order log out (x ∷ m) [] e = absurd (cc e)
  apply_chains-in_order log out ((a, c) ∷ m) ((b, d) ∷ n) e =
      let chains : sort_by lower_seq c ≡ sort_by lower_seq d = cc e in
      let tails : in_order m ≡ in_order n = cc e in
      let r = apply_chain crypto canonical log out (sort_by lower_seq c) in
      rw (sym chains) (apply_chains-in_order r.0 r.1 m n tails)

  -- Where two batches hold the same entries, and two different
  -- entries of one author with the same number stand in the same order in both, they leave the same
  -- log and are counted alike.
  pub receive-any_order :
      (log : Log) (peers : Peers) {xs ys : List Signed}
      → IsReordered xs ys
      → receive crypto canonical log peers xs ≡ receive crypto canonical log peers ys
  unfolding receive
  receive-any_order log peers {xs} {ys} r =
      let ok_by = is_verified crypto canonical peers in
      rw (length-IsReordered (filter-IsReordered (λ s. not (ok_by s)) r)) (
        apply_chains-in_order log
          (record nothing { refused = length (filter (λ s. not (ok_by s)) ys) })
          (group [] (filter ok_by xs)) (group [] (filter ok_by ys))
          (in_order-group (filter-IsReordered ok_by r)))
