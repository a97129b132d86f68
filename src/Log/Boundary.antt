-- ===== src/Log/Boundary.antt =====
-- `replay` and `compact` of crates/curfew-sync/src/oplog.rs: entries on both sides of the boundary.
use curfew.Prelude.{
  ◌≤◌, ◌≡◌, refl, ap, ◌∙◌, Bool, true, false, not, List, [], ◌∷◌, ◌++◌, map, inl, inr, arith,
  Bool-cases, ltb, leb, if◌then◌else◌,
}
use curfew.Prelude.Lists.{All, filter, filter-All, All-map, insert_by, sort_by, All-sort_by}
use curfew.Prelude.I64.{I64}
use curfew.Oplog.{Entry}
use curfew.Log.{Entries, before}

abbrev pub old : I64 → Entry → Bool
old through e = ltb e.at through

insert_by-old :
    (through : I64) (e : Entry) (xs ys : List Entry)
    → old through e ≡ true
    → All (λ y. old through y ≡ false) ys
    → insert_by before e (xs ++ ys) ≡ insert_by before e xs ++ ys
unfolding insert_by
insert_by-old through e [] [] h n = refl
insert_by-old through e [] (y ∷ ys) h n =
    let later : before y e ≡ false = ground (arith, h, n.0) in rw later
insert_by-old through e (x ∷ xs) ys h n = elim (Bool-cases (before x e)) [
  | inl k ↦ rw k (ap (◌∷◌ x) (insert_by-old through e xs ys h n))
  | inr k ↦ rw k
]

insert_by-new :
    (through : I64) (e : Entry) (xs ys : List Entry)
    → old through e ≡ false
    → All (λ x. old through x ≡ true) xs
    → insert_by before e (xs ++ ys) ≡ xs ++ insert_by before e ys
unfolding insert_by
insert_by-new through e [] ys h n = refl
insert_by-new through e (x ∷ xs) ys h n =
    let earlier : before x e ≡ true = ground (arith, h, n.0) in
    rw earlier (ap (◌∷◌ x) (insert_by-new through e xs ys h n.1))

-- Sorting puts the old entries first.
pub sort_by-split :
    (through : I64) (xs : List Entry)
    → sort_by before xs
      ≡ sort_by before (filter (old through) xs)
        ++ sort_by before (filter (λ x. not (old through x)) xs)
unfolding sort_by
sort_by-split through [] = refl
sort_by-split through (x ∷ xs) =
    let os = sort_by before (filter (old through) xs) in
    let ns = sort_by before (filter (λ e. not (old through e)) xs) in
    ap (insert_by before x) (sort_by-split through xs) ∙ elim (Bool-cases (old through x)) [
      | inl h ↦ rw h (
          insert_by-old through x os ns h (
            All-sort_by _ before (filter (λ e. not (old through e)) xs) (
              All-map _ _ (filter (λ e. not (old through e)) xs) (λ e k. ground arith)
                (filter-All (λ e. not (old through e)) xs))))
      | inr h ↦ rw h (
          insert_by-new through x os ns h
            (All-sort_by _ before (filter (old through) xs) (filter-All (old through) xs)))
    ]

-- The entries that are old, or not, and not of the future.
pub filter-kept :
    (p q : Entry → Bool) (m : Entries)
    → filter q (map (λ e. e.1.entry) (filter (λ e. p e.1.entry) m))
      ≡ filter p (filter q (map (λ e. e.1.entry) m))
filter-kept p q [] = refl
filter-kept p q (e ∷ m) = elim (Bool-cases (p e.1.entry)) [
  | inl h ↦ elim (Bool-cases (q e.1.entry)) [
    | inl k ↦ rw (h, k, h) (ap (◌∷◌ e.1.entry) (filter-kept p q m))
    | inr k ↦ rw (h, k) (filter-kept p q m)
  ]
  | inr h ↦ elim (Bool-cases (q e.1.entry)) [
    | inl k ↦ rw (h, k, h) (filter-kept p q m)
    | inr k ↦ rw (h, k) (filter-kept p q m)
  ]
]

-- The old entries are the same ones at every instant from the boundary on.
pub filter-old :
    (through now later : I64) (xs : List Entry)
    → through ≤ now
    → now ≤ later
    → filter (old through) (filter (λ e. leb e.at later) xs)
      ≡ filter (old through) (filter (λ e. leb e.at now) xs)
filter-old through now later [] h k = refl
filter-old through now later (e ∷ es) h k =
    let rest = filter-old through now later es h k in
    elim (Bool-cases (old through e)) [
      | inl o ↦
          let early : leb e.at now ≡ true = ground (arith, o) in
          let early' : leb e.at later ≡ true = ground (arith, o) in
          rw (early, early', o) (ap (◌∷◌ e) rest)
      | inr o ↦ dropped (leb e.at now) (leb e.at later) o rest
    ]
  where
    dropped :
        (a b : Bool)
        → old through e ≡ false
        → filter (old through) (filter (λ z. leb z.at later) es)
          ≡ filter (old through) (filter (λ z. leb z.at now) es)
        → filter
            (old through)
            (if b then e ∷ filter (λ z. leb z.at later) es else filter (λ z. leb z.at later) es)
          ≡ filter
              (old through)
              (if a then e ∷ filter (λ z. leb z.at now) es else filter (λ z. leb z.at now) es)
    dropped true true o r = rw o r
    dropped true false o r = rw o r
    dropped false true o r = rw o r
    dropped false false o r = r
