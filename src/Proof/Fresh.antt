-- ===== src/Proof/Fresh.antt =====
-- `record`, `fresh` and `prune` of crates/curfew-core/src/proof.rs.
use mathlib.Core.Path.{ap₂}
use curfew.Prelude.{
  ◌≡◌, refl, sym, ap, ◌∙◌, subst, false, ◌&&◌, List, [], ◌∷◌, map, Option, none, some, arith,
  is_some_and, if◌then◌else◌, Bool-cases, inl, inr,
}
use curfew.Prelude.Lists.{All}
use curfew.Prelude.Order.{list_ord, list_eq, list_lt, list_eq→eq}
use curfew.Prelude.Text.{Text}
use curfew.Prelude.I64.{I64}
use curfew.Prelude.Set
use curfew.Prelude.Set.{BTreeSet, mem-union}
use curfew.Prelude.Map
use curfew.Prelude.Map.{
  BTreeMap, IsSortedMap, get-insert, get-remove, get-filter, mem-keys, insert-IsSortedMap,
  if_stands, get-AboveKeys, AboveKeys, AboveKeys-filter,
}
use curfew.Lock.{Lock, lock_ord}
use curfew.Proof.{
  Proofs, record_proof, stands, standing, fresh, or_default, prune, prune_held, has_proofs,
}

abbrev AllSorted : BTreeMap Text (BTreeMap Lock I64) → Type 0
AllSorted m = All (λ e. IsSortedMap e.1) m

-- What `BTreeMap` maintains, of the map and of the maps in it.
pub record IsValid (p : Proofs) : Type 0 where
  pub outer : IsSortedMap p.held
  pub inner : AllSorted p.held

or_default-IsSortedMap :
    (s : Text) (m : BTreeMap Text (BTreeMap Lock I64))
    → AllSorted m
    → IsSortedMap (or_default (Map.get s m))
unfolding Map.get
or_default-IsSortedMap s [] h = tt
or_default-IsSortedMap s ((k, proofs) ∷ m) h = elim (Bool-cases (list_eq s k)) [
  | inl e ↦ rw e h.0
  | inr e ↦ rw e (or_default-IsSortedMap s m h.1)
]

mem-fresh :
    (p : Proofs) (s : Text) (now : I64) (l : Lock)
    → IsValid p
    → Set.mem l (fresh p s now)
      ≡ is_some_and (Map.get l (or_default (Map.get s p.held))) (stands now)
unfolding fresh Set.from_list Set.mem
mem-fresh p s now l v =
    let proofs = or_default (Map.get s p.held) in
    ground (
      arith,
      mem-union l (map (λ e. e.0) (standing now proofs)) [],
      mem-keys l (standing now proofs),
      get-filter (λ e. stands now e.1) l proofs (or_default-IsSortedMap s p.held v.inner),
    )

no_proofs_nil : (m : BTreeMap Lock I64) → has_proofs m ≡ false → m ≡ []
no_proofs_nil [] h = refl
no_proofs_nil (e ∷ m) h = cc

AllSorted-insert :
    (s : Text) (proofs : BTreeMap Lock I64) (m : BTreeMap Text (BTreeMap Lock I64))
    → IsSortedMap proofs
    → AllSorted m
    → AllSorted (Map.insert s proofs m)
unfolding Map.insert
AllSorted-insert s proofs [] h k = (h, tt)
AllSorted-insert s proofs (e ∷ m) h k = elim (Bool-cases (list_lt s e.0)) [
  | inl c ↦ rw c (h, (k.0, k.1))
  | inr c ↦ elim (Bool-cases (list_lt e.0 s)) [
    | inl d ↦ rw (c, d) (k.0, AllSorted-insert s proofs m h k.1)
    | inr d ↦ rw (c, d) (h, k.1)
  ]
]

pub record_proof-IsValid :
    (p : Proofs) (s : Text) (l : Lock) (now : I64) → IsValid p → IsValid (record_proof p s l now)
unfolding record_proof
record_proof-IsValid p s l now v =
    let proofs = Map.insert l now (or_default (Map.get s p.held)) in
    let sorted =
      insert-IsSortedMap l now (or_default (Map.get s p.held))
        (or_default-IsSortedMap s p.held v.inner) in
    record {
      outer = insert-IsSortedMap s proofs p.held v.outer;
      inner = AllSorted-insert s proofs p.held sorted v.inner;
    }

held-record_proof :
    (p : Proofs) (s t : Text) (l k : Lock) (at : I64)
    → Map.get k (or_default (Map.get t (record_proof p s l at).held)) ≡ (
        if list_eq t s && lock_ord.beq k l
        then some at
        else Map.get k (or_default (Map.get t p.held)))
unfolding record_proof
held-record_proof p s t l k at =
    let old = or_default (Map.get s p.held) in
    ground
      (arith, get-insert t s (Map.insert l at old) p.held, get-insert k l at old, list_eq→eq t s)

get-prune_held :
    (now : I64) (live : BTreeSet Text) (s : Text) (m : BTreeMap Text (BTreeMap Lock I64))
    → IsSortedMap m
    → or_default (Map.get s (prune_held now live m))
      ≡ (if Set.mem s live then standing now (or_default (Map.get s m)) else [])
unfolding prune_held Map.get
get-prune_held now live s [] h = ground arith
get-prune_held now live s ((k, proofs) ∷ m) h = elim (Bool-cases (list_eq s k)) [
  | inl e ↦
      let same = list_eq→eq s k e in
      let gone = get-AboveKeys s m (subst (λ z. AboveKeys z m) (sym same) h.0) in
      ground
        (arith, e, same, gone, get-prune_held now live s m h.1, no_proofs_nil (standing now proofs))
  | inr e ↦ ground (arith, e, get-prune_held now live s m h.1)
]

-- On maps that ascend: a proof checked at `at` counts for its session and condition exactly while
-- it stands, in place of an earlier proof of the same, and changes no other answer.
pub fresh-record_proof :
    (p : Proofs) (s t : Text) (l k : Lock) (at now : I64)
    → IsValid p
    → Set.mem k (fresh (record_proof p s l at) t now)
      ≡ (if list_eq t s && lock_ord.beq k l then stands now at else Set.mem k (fresh p t now))
fresh-record_proof p s t l k at now v = ground (
  arith,
  mem-fresh (record_proof p s l at) t now k (record_proof-IsValid p s l at v),
  mem-fresh p t now k v,
  held-record_proof p s t l k at,
)

AboveKeys-prune_held :
    (k : Text) (now : I64) (live : BTreeSet Text) (m : BTreeMap Text (BTreeMap Lock I64))
    → AboveKeys k m
    → AboveKeys k (prune_held now live m)
unfolding prune_held
AboveKeys-prune_held k now live [] h = tt
AboveKeys-prune_held k now live (e ∷ m) h =
    elim (Bool-cases (Set.mem e.0 live && has_proofs (standing now e.1))) [
      | inl c ↦ rw c (h.0, AboveKeys-prune_held k now live m h.1)
      | inr c ↦ rw c (AboveKeys-prune_held k now live m h.1)
    ]

AboveKeys-standing :
    (k : Lock) (now : I64) (m : BTreeMap Lock I64) → AboveKeys k m → AboveKeys k (standing now m)
AboveKeys-standing k now m h = AboveKeys-filter k (λ e. stands now e.1) m h

standing-IsSortedMap :
    (now : I64) (m : BTreeMap Lock I64) → IsSortedMap m → IsSortedMap (standing now m)
standing-IsSortedMap now [] h = tt
standing-IsSortedMap now (e ∷ m) h = elim (Bool-cases (stands now e.1)) [
  | inl c ↦ rw c (AboveKeys-standing e.0 now m h.0, standing-IsSortedMap now m h.1)
  | inr c ↦ rw c (standing-IsSortedMap now m h.1)
]

prune_held-IsValid :
    (now : I64) (live : BTreeSet Text) (m : BTreeMap Text (BTreeMap Lock I64))
    → IsSortedMap m
    → AllSorted m
    → IsSortedMap (prune_held now live m) × AllSorted (prune_held now live m)
unfolding prune_held
prune_held-IsValid now live [] h k = (tt, tt)
prune_held-IsValid now live (e ∷ m) h k =
    let (outer, inner) = prune_held-IsValid now live m h.1 k.1 in
    elim (Bool-cases (Set.mem e.0 live && has_proofs (standing now e.1))) [
      | inl c ↦ rw c (
        (AboveKeys-prune_held e.0 now live m h.0, outer),
        (standing-IsSortedMap now e.1 k.0, inner),
      )
      | inr c ↦ rw c (outer, inner)
    ]

prune-IsValid :
    (p : Proofs) (now : I64) (running : List Text) → IsValid p → IsValid (prune p now running)
unfolding prune
prune-IsValid p now running v =
    let (outer, inner) = prune_held-IsValid now (Set.from_list running) p.held v.outer v.inner in
    record { outer = outer; inner = inner }

held-prune :
    (p : Proofs) (now : I64) (running : List Text) (s : Text)
    → IsValid p
    → or_default (Map.get s (prune p now running).held) ≡ (
        if Set.mem s (Set.from_list running)
        then standing now (or_default (Map.get s p.held))
        else [])
unfolding prune
held-prune p now running s v = get-prune_held now (Set.from_list running) s p.held v.outer

stands_both :
    (k : Lock) (now at : I64) (o : Option I64)
    → is_some_and (if_stands (λ e. stands now e.1) k o) (stands at)
      ≡ (is_some_and o (stands now) && is_some_and o (stands at))
stands_both k now at none = refl
stands_both k now at (some t) = elim (Bool-cases (stands now t)) [ inl c ↦ rw c | inr c ↦ rw c ]

-- On maps that ascend: pruning at `now` keeps of a running session exactly what stands at `now`,
-- so that at every reading, later or earlier, what is fresh afterwards is what was fresh then and
-- at `now`. A session that does not run has nothing left.
pub fresh-prune :
    (p : Proofs) (now at : I64) (running : List Text) (s : Text) (k : Lock)
    → IsValid p
    → Set.mem k (fresh (prune p now running) s at) ≡ (
        if Set.mem s (Set.from_list running)
        then Set.mem k (fresh p s now) && Set.mem k (fresh p s at)
        else false)
fresh-prune p now at running s k v =
    mem-fresh (prune p now running) s at k (prune-IsValid p now running v)
    ∙ rw (held-prune p now running s v) (elim (Bool-cases (Set.mem s (Set.from_list running))) [
      | inl live ↦ rw live (
          ap (λ o. is_some_and o (stands at))
            (get-filter (λ e. stands now e.1) k proofs (or_default-IsSortedMap s p.held v.inner))
          ∙ stands_both k now at (Map.get k proofs)
          ∙ sym (ap₂ ◌&&◌ (mem-fresh p s now k v) (mem-fresh p s at k v)))
      | inr dead ↦ rw dead (unfold Map.get in refl)
    ])
  where
    proofs : BTreeMap Lock I64
    proofs = or_default (Map.get s p.held)
