-- ===== src/Wire/Groups.antt =====
-- `receive` of crates/curfew-sync/src/wire.rs: the groups, one for each author.
use curfew.Prelude.{
  ◌≡◌, refl, sym, ap, ◌∙◌, Bool, Option, none, some, List, [], ◌∷◌, ◌++◌, inl, inr, Bool-cases,
}
use curfew.Prelude.Lists.{filter, sort_by, append_assoc}
use curfew.Prelude.Order.{list_ord, list_eq, list_eq→eq}
use curfew.Prelude.Map
use curfew.Prelude.Map.{BTreeMap, IsSortedMap, get-insert, insert-IsSortedMap}
use curfew.Device.{DeviceId}
use curfew.Oplog.{Signed}
use curfew.Wire.{group, lower_seq, or_no_chain}

-- An author's entries in a batch.
abbrev pub by : DeviceId → Signed → Bool
by author s = list_eq author s.entry.author

abbrev pub chain_in : DeviceId → List Signed → List Signed
chain_in author xs = sort_by lower_seq (filter (by author) xs)

-- What grouping leaves under an author.
abbrev pub pushed : Option (List Signed) → List Signed → Option (List Signed)
pushed o [] = o
pushed o (x ∷ xs) = some (or_no_chain o ++ x ∷ xs)

pushed-push :
    (o : Option (List Signed)) (x : Signed) (xs : List Signed)
    → pushed (some (or_no_chain o ++ x ∷ [])) xs ≡ pushed o (x ∷ xs)
pushed-push o x [] = refl
pushed-push o x (y ∷ ys) = ap some (append_assoc (or_no_chain o) (x ∷ []) (y ∷ ys))

pub get-group :
    (author : DeviceId) (m : BTreeMap DeviceId (List Signed)) (xs : List Signed)
    → Map.get author (group m xs) ≡ pushed (Map.get author m) (filter (by author) xs)
unfolding group
get-group author m [] = refl
get-group author m (x ∷ xs) =
    let a = x.entry.author in
    let m' = Map.insert a (or_no_chain (Map.get a m) ++ x ∷ []) m in
    get-group author m' xs
    ∙ rw (get-insert author a (or_no_chain (Map.get a m) ++ x ∷ []) m)
        (elim (Bool-cases (by author x)) [
          | inl h ↦
              let same : author ≡ a = list_eq→eq author a h in
              let l = filter (by author) xs in
              rw h
                (pushed-push (Map.get a m) x l ∙ ap (λ z. pushed (Map.get z m) (x ∷ l)) (sym same))
          | inr h ↦ rw h
        ])

pub group-IsSortedMap :
    (m : BTreeMap DeviceId (List Signed)) (xs : List Signed)
    → IsSortedMap m
    → IsSortedMap (group m xs)
unfolding group
group-IsSortedMap m [] h = h
group-IsSortedMap m (x ∷ xs) h =
    let a = x.entry.author in
    let chain = or_no_chain (Map.get a m) ++ x ∷ [] in
    group-IsSortedMap (Map.insert a chain m) xs (insert-IsSortedMap a chain m h)

pub or_no_chain-pushed : (xs : List Signed) → or_no_chain (pushed none xs) ≡ xs
or_no_chain-pushed [] = refl
or_no_chain-pushed (x ∷ xs) = refl
