-- ===== src/Prelude/Fill.antt =====
-- A map that is filled from a list, one insertion for each element, as the loops over a collection do.
use mathlib.Core.Path.{◌≡◌, refl, sym, ap, ap₂, ◌∙◌, subst}
use mathlib.Core.Logic.{inl, inr}
use mathlib.Core.Bool.{Bool, not}
use mathlib.Core.Option.{some}
use mathlib.Core.List.{List, [], ◌∷◌}
use curfew.Prelude.Tests.{Bool-cases}
use curfew.Prelude.Lists.{filter, In}
use curfew.Prelude.Order.{Ord, beq_refl, beq→eq}
use curfew.Prelude.Map
use curfew.Prelude.Map.{
  BTreeMap, get, insert, remove, IsSortedMap, AboveKeys-filter, get-insert, get-remove, map_ext,
  insert-IsSortedMap, get-AboveKeys,
}

module _ {K V : Type 0} ⦃o : Ord K⦄ where
  pub filter-IsSortedMap :
      (p : K × V → Bool) (m : BTreeMap K V) → IsSortedMap m → IsSortedMap (filter p m)
  filter-IsSortedMap p [] h = tt
  filter-IsSortedMap p (e ∷ m) h = elim (Bool-cases (p e)) [
    | inl c ↦ rw c (AboveKeys-filter e.0 p m h.0, filter-IsSortedMap p m h.1)
    | inr c ↦ rw c (filter-IsSortedMap p m h.1)
  ]

  pub remove-IsSortedMap : (k : K) (m : BTreeMap K V) → IsSortedMap m → IsSortedMap (remove k m)
  unfolding remove Map.retain_keys
  remove-IsSortedMap k m h = filter-IsSortedMap (λ e. not (o.beq k e.0)) m h

  -- What is there already changes nothing.
  pub insert-same :
      (k : K) (v : V) (m : BTreeMap K V) → IsSortedMap m → get k m ≡ some v → insert k v m ≡ m
  insert-same k v m h e = map_ext (insert k v m) m (insert-IsSortedMap k v m h) h λ j.
      get-insert j k v m ∙ elim (Bool-cases (o.beq j k)) [
        | inl c ↦ rw c (sym e ∙ ap (λ z. get z m) (sym (beq→eq j k c)))
        | inr c ↦ rw c
      ]

  get-In : (m : BTreeMap K V) → IsSortedMap m → (c : K × V) → In c m → get c.0 m ≡ some c.1
  unfolding get
  get-In [] h c i = absurd i
  get-In (e ∷ m) h c (inl q) = subst (λ z. get z.0 (e ∷ m) ≡ some z.1) (sym q) (rw (beq_refl e.0))
  get-In (e ∷ m) h c (inr i) = elim (Bool-cases (o.beq c.0 e.0)) [
    | inr f ↦ rw f (get-In m h.1 c i)
    | inl f ↦
        let missing = get-AboveKeys e.0 m h.0 in
        absurd (cc (missing, get-In m h.1 c i, beq→eq c.0 e.0 f))
  ]

  -- In a map the entries of one key are one entry.
  pub one_entry :
      (m : BTreeMap K V) → IsSortedMap m → (a b : K × V) → In a m → In b m → a.0 ≡ b.0 → a ≡ b
  one_entry m h a b i j e =
      let held : some a.1 ≡ some b.1 =
        sym (get-In m h a i) ∙ ap (λ k. get k m) e ∙ get-In m h b j in
      let same : a.1 ≡ b.1 = cc held in ap₂ (λ k v. (k, v)) e same

module _ {A K V : Type 0} ⦃o : Ord K⦄ (key : A → K) (value : A → V) where
  unfoldable pub fill : List A → BTreeMap K V → BTreeMap K V
  fill [] m = m
  fill (x ∷ xs) m = fill xs (insert (key x) (value x) m)

  -- What the map holds of each element of the list.
  abbrev pub Holds : List A → BTreeMap K V → Type 0
  Holds xs m = (a : A) → In a xs → get (key a) m ≡ some (value a)

  abbrev pub HaveOneKey : List A → Type 0
  HaveOneKey xs = (a b : A) → In a xs → In b xs → key a ≡ key b → a ≡ b

  pub fill-IsSortedMap : (xs : List A) (m : BTreeMap K V) → IsSortedMap m → IsSortedMap (fill xs m)
  unfolding fill
  fill-IsSortedMap [] m h = h
  fill-IsSortedMap (x ∷ xs) m h =
      fill-IsSortedMap xs (insert (key x) (value x) m) (insert-IsSortedMap (key x) (value x) m h)

  fill-kept :
      (a : A) (xs : List A) (m : BTreeMap K V)
      → ((b : A) → In b xs → key a ≡ key b → a ≡ b)
      → get (key a) m ≡ some (value a)
      → get (key a) (fill xs m) ≡ some (value a)
  unfolding fill
  fill-kept a [] m one e = e
  fill-kept a (x ∷ xs) m one e =
      fill-kept a xs (insert (key x) (value x) m) (λ b i. one b (inr i))
        (get-insert (key a) (key x) (value x) m ∙ elim (Bool-cases (o.beq (key a) (key x))) [
          | inl c ↦
              rw c (ap (λ z. some (value z)) (sym (one x (inl refl) (beq→eq (key a) (key x) c))))
          | inr c ↦ rw c e
        ])

  pub fill-Holds : (xs : List A) (m : BTreeMap K V) → HaveOneKey xs → Holds xs (fill xs m)
  unfolding fill
  fill-Holds [] m one a i = absurd i
  fill-Holds (x ∷ xs) m one a (inl e) =
      fill-kept a xs (insert (key x) (value x) m) (λ b j. one a b (inl e) (inr j))
        (subst (λ z. get (key a) (insert (key z) (value z) m) ≡ some (value a)) e
          (get-insert (key a) (key a) (value a) m ∙ rw (beq_refl (key a))))
  fill-Holds (x ∷ xs) m one a (inr i) =
      fill-Holds xs (insert (key x) (value x) m) (λ b c j k. one b c (inr j) (inr k)) a i

  pub fill-same : (xs : List A) (m : BTreeMap K V) → IsSortedMap m → Holds xs m → fill xs m ≡ m
  unfolding fill
  fill-same [] m h held = refl
  fill-same (x ∷ xs) m h held =
      ap (fill xs) (insert-same (key x) (value x) m h (held x (inl refl)))
      ∙ fill-same xs m h (λ a i. held a (inr i))
