-- ===== src/Prelude/Map.antt =====
-- `BTreeMap`: entries in ascending order of their keys. Reading, writing and dropping by key do not
-- depend on the order; a `retain` that reads the values does, and its law asks for it.
use mathlib.Core.Path.{◌≡◌, refl, sym, ap, ap₂, ◌∙◌, subst}
use mathlib.Core.Logic.{inl, inr}
use mathlib.Core.Bool.{Bool, true, false, not}
use mathlib.Core.Option.{Option, none, some}
use mathlib.Core.List.{List, [], ◌∷◌, map}
use curfew.Prelude.Set
use native.Mathlib.Omega.{arith}
use curfew.Prelude.Tests.{if◌then◌else◌, Bool-cases, is_none}
use curfew.Prelude.Lists.{All, filter}
use curfew.Prelude.Order.{Ord, beq→eq, lt→ne, lt_asymm, beq-not_lt, beq_refl}

abbrev pub BTreeMap {ℓ κ} : Type ℓ → Type κ → Type (ℓ ⊔ κ)
BTreeMap K V = List (K × V)

module _ {ℓ κ} {K : Type ℓ} {V : Type κ} ⦃o : Ord K⦄ where
  unfoldable pub get : K → BTreeMap K V → Option V
  get k [] = none
  get k ((j, v) ∷ m) = let rest = get k m in if o.beq k j then some v else rest

  unfoldable pub insert : K → V → BTreeMap K V → BTreeMap K V
  insert k v [] = (k, v) ∷ []
  insert k v ((j, w) ∷ m) =
      let rest = insert k v m in
      if o.lt k j then (k, v) ∷ (j, w) ∷ m else if o.lt j k then (j, w) ∷ rest else (k, v) ∷ m

  -- `entry(k).or_insert(v)`
  unfoldable pub or_insert : K → V → BTreeMap K V → BTreeMap K V
  or_insert k v m = elim (get k m) [ none ↦ insert k v m | some w ↦ m ]

  unfoldable pub remove : K → BTreeMap K V → BTreeMap K V
  remove k m = filter (λ e. not (o.beq k e.0)) m

  -- `retain(|k, _| p(k))`
  unfoldable pub retain_keys : (K → Bool) → BTreeMap K V → BTreeMap K V
  retain_keys p m = filter (λ e. p e.0) m

  pub get-insert :
      (j k : K) (v : V) (m : BTreeMap K V)
      → get j (insert k v m) ≡ (if o.beq j k then some v else get j m)
  unfolding get insert
  get-insert j k v [] = refl
  get-insert j k v ((i, w) ∷ m) = elim (Bool-cases (o.lt k i)) [
    | inl e ↦ rw e
    | inr e ↦ elim (Bool-cases (o.lt i k)) [
      | inl f ↦ elim (Bool-cases (o.beq j i)) [
        | inl g ↦ rw (e, f) (ground (arith, beq→eq j i g, lt→ne i k f))
        | inr g ↦ rw (e, f) (ground (arith, get-insert j k v m))
      ]
      | inr f ↦ rw (e, f) (ground (arith, o.lt_connex k i e f))
    ]
  ]

  pub get-or_insert :
      (j k : K) (v : V) (m : BTreeMap K V)
      → get j (or_insert k v m)
        ≡ (if o.beq j k then elim (get k m) [ none ↦ some v | some w ↦ some w ] else get j m)
  unfolding or_insert
  get-or_insert j k v m = elim (Bool-cases (o.beq j k)) [
    | inl e ↦ ground (arith, get-insert j k v m, beq→eq j k e)
    | inr e ↦ ground (arith, get-insert j k v m)
  ]

  pub get-retain_keys :
      (p : K → Bool) (j : K) (m : BTreeMap K V)
      → get j (retain_keys p m) ≡ (if p j then get j m else none)
  unfolding get retain_keys
  get-retain_keys p j [] = ground arith
  get-retain_keys p j ((i, w) ∷ m) = elim (Bool-cases (o.beq j i)) [
    | inl e ↦ ground (arith, beq→eq j i e, get-retain_keys p j m)
    | inr e ↦ ground (arith, get-retain_keys p j m)
  ]

  pub get-remove :
      (k j : K) (m : BTreeMap K V) → get j (remove k m) ≡ (if o.beq k j then none else get j m)
  unfolding remove retain_keys
  get-remove k j m = ground (arith, get-retain_keys (λ i. not (o.beq k i)) j m)

-- Maps whose keys ascend.
module _ {ℓ κ} {K : Type ℓ} {V : Type κ} ⦃o : Ord K⦄ where
  abbrev pub AboveKeys : K → BTreeMap K V → Type 0
  AboveKeys k [] = Unit
  AboveKeys k (e ∷ m) = (o.lt k e.0 ≡ true) × AboveKeys k m

  abbrev pub IsSortedMap : BTreeMap K V → Type 0
  IsSortedMap [] = Unit
  IsSortedMap (e ∷ m) = AboveKeys e.0 m × IsSortedMap m

  pub AboveKeys-trans :
      (a b : K) (m : BTreeMap K V) → o.lt a b ≡ true → AboveKeys b m → AboveKeys a m
  AboveKeys-trans a b [] p h = tt
  AboveKeys-trans a b (e ∷ m) p h = (o.lt_trans a b e.0 p h.0, AboveKeys-trans a b m p h.1)

  AboveKeys-insert :
      (a k : K) (v : V) (m : BTreeMap K V)
      → o.lt a k ≡ true
      → AboveKeys a m
      → AboveKeys a (insert k v m)
  unfolding insert
  AboveKeys-insert a k v [] p h = (p, tt)
  AboveKeys-insert a k v ((i, w) ∷ m) p h = elim (Bool-cases (o.lt k i)) [
    | inl e ↦ rw e (p, (h.0, h.1))
    | inr e ↦ elim (Bool-cases (o.lt i k)) [
      | inl f ↦ rw (e, f) (h.0, AboveKeys-insert a k v m p h.1)
      | inr f ↦ rw (e, f) (p, h.1)
    ]
  ]

  pub insert-IsSortedMap :
      (k : K) (v : V) (m : BTreeMap K V) → IsSortedMap m → IsSortedMap (insert k v m)
  unfolding insert
  insert-IsSortedMap k v [] h = (tt, tt)
  insert-IsSortedMap k v ((i, w) ∷ m) h = elim (Bool-cases (o.lt k i)) [
    | inl e ↦ rw e ((e, AboveKeys-trans k i m e h.0), (h.0, h.1))
    | inr e ↦ elim (Bool-cases (o.lt i k)) [
      | inl f ↦ rw (e, f) (AboveKeys-insert i k v m f h.0, insert-IsSortedMap k v m h.1)
      | inr f ↦ rw (e, f) (subst (λ z. AboveKeys z m) (sym (o.lt_connex k i e f)) h.0, h.1)
    ]
  ]

  pub get-AboveKeys : (k : K) (m : BTreeMap K V) → AboveKeys k m → get k m ≡ none
  unfolding get
  get-AboveKeys k [] h = refl
  get-AboveKeys k ((i, w) ∷ m) h = ground (arith, lt→ne k i h.0, get-AboveKeys k m h.1)

  pub AboveKeys-filter :
      (k : K) (p : K × V → Bool) (m : BTreeMap K V) → AboveKeys k m → AboveKeys k (filter p m)
  AboveKeys-filter k p [] h = tt
  AboveKeys-filter k p (e ∷ m) h = elim (Bool-cases (p e)) [
    | inl c ↦ rw c (h.0, AboveKeys-filter k p m h.1)
    | inr c ↦ rw c (AboveKeys-filter k p m h.1)
  ]

  abbrev pub if_stands : (K × V → Bool) → K → Option V → Option V
  if_stands p k none = none
  if_stands p k (some v) = if p (k, v) then some v else none

  -- `retain` by keys and values.
  pub get-filter :
      (p : K × V → Bool) (k : K) (m : BTreeMap K V)
      → IsSortedMap m
      → get k (filter p m) ≡ if_stands p k (get k m)
  unfolding get
  get-filter p k [] h = refl
  get-filter p k ((i, w) ∷ m) h = elim (Bool-cases (o.beq k i)) [
    | inl e ↦
        let same = beq→eq k i e in
        let gone =
          get-AboveKeys k (filter p m)
            (AboveKeys-filter k p m (subst (λ z. AboveKeys z m) (sym same) h.0)) in
        elim (Bool-cases (p (i, w))) [
          | inl c ↦ ground (arith, e, same, c)
          | inr c ↦ ground (arith, e, same, c, gone)
        ]
    | inr e ↦ ground (arith, e, get-filter p k m h.1)
  ]

  pub mem-keys : (k : K) (m : BTreeMap K V) → Set.mem k (map (λ e. e.0) m) ≡ not (is_none (get k m))
  unfolding get Set.mem
  mem-keys k [] = refl
  mem-keys k ((i, w) ∷ m) = ground (arith, mem-keys k m)

  pub All-insert {μ} :
      (P : K × V → Type μ) (k : K) (v : V) (m : BTreeMap K V)
      → P (k, v)
      → All P m
      → All P (insert k v m)
  unfolding insert
  All-insert P k v [] p h = (p, tt)
  All-insert P k v ((i, w) ∷ m) p h = elim (Bool-cases (o.lt k i)) [
    | inl e ↦ rw e (p, h)
    | inr e ↦ elim (Bool-cases (o.lt i k)) [
      | inl f ↦ rw (e, f) (h.0, All-insert P k v m p h.1)
      | inr f ↦ rw (e, f) (p, h.1)
    ]
  ]

-- The order in which different keys are written does not matter.
module _ {ℓ κ} {K : Type ℓ} {V : Type κ} ⦃o : Ord K⦄ where
  insert_comm_lt :
      (k j : K) (v w : V) (m : BTreeMap K V)
      → o.lt k j ≡ true
      → insert k v (insert j w m) ≡ insert j w (insert k v m)
  unfolding insert
  insert_comm_lt k j v w [] h = let g = lt_asymm k j h in rw (h, g)
  insert_comm_lt k j v w ((i, u) ∷ m) h =
      let g = lt_asymm k j h in
      elim (Bool-cases (o.lt j i)) [
        | inl e ↦ let f = o.lt_trans k j i h e in rw (e, f, h, g, e)
        | inr e ↦ elim (Bool-cases (o.lt i j)) [
          | inl f ↦ elim (Bool-cases (o.lt k i)) [
            | inl c ↦ rw (e, f, c, g, h, e, f)
            | inr c ↦ elim (Bool-cases (o.lt i k)) [
              | inl d ↦ rw (e, f, c, d, e, f) (ap (◌∷◌ (i, u)) (insert_comm_lt k j v w m h))
              | inr d ↦ rw (e, f, c, d, g, h)
            ]
          ]
          | inr f ↦
              let same : j ≡ i = o.lt_connex j i e f in
              let c : o.lt k i ≡ true = subst (λ z. o.lt k z ≡ true) same h in
              rw (e, f, h, c, g, e, f, h)
        ]
      ]

  pub insert_comm :
      (k j : K) (v w : V) (m : BTreeMap K V)
      → o.beq k j ≡ false
      → insert k v (insert j w m) ≡ insert j w (insert k v m)
  insert_comm k j v w m n = elim (Bool-cases (o.lt k j)) [
    | inl h ↦ insert_comm_lt k j v w m h
    | inr h ↦ elim (Bool-cases (o.lt j k)) [
      | inl g ↦ sym (insert_comm_lt j k w v m g)
      | inr g ↦ absurd (cc (n, beq-not_lt k j h g))
    ]
  ]

  get_nil : (k : K) → get {V = V} k [] ≡ none
  unfolding get
  get_nil k = refl

  get_head : (e : K × V) (m : BTreeMap K V) → get e.0 (e ∷ m) ≡ some e.1
  unfolding get
  get_head e m = rw (beq_refl e.0)

  -- The first key of one map is not below that of a map with the same lookups.
  head_not_lt :
      (e f : K × V) (m n : BTreeMap K V)
      → IsSortedMap (f ∷ n)
      → ((k : K) → get k (e ∷ m) ≡ get k (f ∷ n))
      → o.lt e.0 f.0 ≡ false
  head_not_lt e f m n g same = elim (Bool-cases (o.lt e.0 f.0)) [
    | inl c ↦
        let missing = get-AboveKeys e.0 (f ∷ n) (c, AboveKeys-trans e.0 f.0 n c g.0) in
        absurd (cc (same e.0, get_head e m, missing))
    | inr c ↦ c
  ]

  -- Two maps with the same lookups are equal.
  pub map_ext :
      (m n : BTreeMap K V) → IsSortedMap m → IsSortedMap n → ((k : K) → get k m ≡ get k n) → m ≡ n
  unfolding get
  map_ext [] [] h g same = refl
  map_ext [] (f ∷ n) h g same = absurd (cc (same f.0, get_head f n, get_nil f.0))
  map_ext (e ∷ m) [] h g same = absurd (cc (same e.0, get_head e m, get_nil e.0))
  map_ext (e ∷ m) (f ∷ n) h g same =
      let key : e.0 ≡ f.0 =
        o.lt_connex e.0 f.0 (head_not_lt e f m n g same)
          (head_not_lt f e n m h (λ k. sym (same k))) in
      let value : e.1 ≡ f.1 = ground (arith, same e.0, get_head e m, get_head f n, key) in
      ap₂ ◌∷◌ (ap₂ (λ a b. (a, b)) key value) (map_ext m n h.1 g.1 (tails key))
    where
      tails : e.0 ≡ f.0 → (k : K) → get k m ≡ get k n
      tails key k = elim (Bool-cases (o.beq k e.0)) [
        | inl c ↦
            let at = beq→eq k e.0 c in
            cc (
              get-AboveKeys k m (subst (λ z. AboveKeys z m) (sym at) h.0),
              get-AboveKeys k n (subst (λ z. AboveKeys z n) (sym (at ∙ key)) g.0),
            )
        | inr c ↦ ground (arith, same k, key, c)
      ]

  -- What every lookup satisfies, every entry does.
  pub All-get {μ} :
      (P : K × V → Type μ) (m : BTreeMap K V)
      → IsSortedMap m
      → ((k : K) (v : V) → get k m ≡ some v → P (k, v))
      → All P m
  unfolding get
  All-get P [] h g = tt
  All-get P ((i, w) ∷ m) h g = (
    g i w (get_head (i, w) m),
    All-get P m h.1 (λ k v e. g k v (ground (arith, e, beq→eq k i, get-AboveKeys i m h.0))),
  )
