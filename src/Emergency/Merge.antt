-- ===== src/Emergency/Merge.antt =====
-- `merge` and `compact` of crates/curfew-core/src/emergency.rs.
use curfew.Prelude.{◌≡◌, ◌≤◌, ◌<◌, refl, Bool, List, [], ◌∷◌, ◌||◌, arith, ap, ltb}
use curfew.Prelude.Lists.{filter, length}
use curfew.Prelude.Order.{nat_ord}
use curfew.Prelude.I64.{I64, minus, modulus}
use curfew.Prelude.Set
use curfew.Prelude.Set.{BTreeSet, IsSorted, mem-insert, insert-IsSorted, set_ext}
use curfew.Emergency.{
  Passes, EmergencyPolicy, record_use, record_all, merge, recent, remaining, compact, check,
}

abbrev pub IsValid : Passes → Type 0
IsValid s = IsSorted s.used

pub record_use-IsValid : (s : Passes) (at : I64) → IsValid s → IsValid (record_use s at)
unfolding record_use
record_use-IsValid s at h = insert-IsSorted at s.used h

record_all-IsValid : (s : Passes) (xs : List I64) → IsValid s → IsValid (record_all s xs)
unfolding record_all
record_all-IsValid s [] h = h
record_all-IsValid s (x ∷ xs) h = record_all-IsValid (record_use s x) xs (record_use-IsValid s x h)

mem-record_all :
    (t : I64) (s : Passes) (xs : List I64)
    → Set.mem t (record_all s xs).used ≡ (Set.mem t s.used || Set.mem t xs)
unfolding record_all record_use Set.mem
mem-record_all t s [] = ground arith
mem-record_all t s (x ∷ xs) =
    ground (arith, mem-record_all t (record_use s x) xs, mem-insert t x s.used)

pub mem-merge :
    (t : I64) (a b : Passes) → Set.mem t (merge a b).used ≡ (Set.mem t a.used || Set.mem t b.used)
unfolding merge
mem-merge t a b = mem-record_all t a b.used

pub merge-IsValid : (a b : Passes) → IsValid a → IsValid (merge a b)
unfolding merge
merge-IsValid a b h = record_all-IsValid a b.used h

passes_ext :
    (a b : Passes)
    → IsValid a
    → IsValid b
    → ((t : I64) → Set.mem t a.used ≡ Set.mem t b.used)
    → a ≡ b
passes_ext a b h k same = ap (λ u. record { used = u }) (set_ext a.used b.used h k same)

length-insert :
    (p : I64 → Bool) (x : I64) (xs : List I64)
    → length (filter p xs) ≤ length (filter p (Set.insert x xs))
unfolding Set.insert
length-insert p x [] = omega arith
length-insert p x (y ∷ xs) = ground (arith, length-insert p x xs)

length-record_all :
    (p : I64 → Bool) (s : Passes) (xs : List I64)
    → length (filter p s.used) ≤ length (filter p (record_all s xs).used)
unfolding record_all record_use
length-record_all p s [] = omega arith
length-record_all p s (x ∷ xs) =
    omega (arith, length-insert p x s.used, length-record_all p (record_use s x) xs)

remaining-merge_le :
    (a b : Passes) (now : I64) (policy : EmergencyPolicy)
    → remaining (merge a b) now policy ≤ remaining a now policy
unfolding remaining recent merge
remaining-merge_le a b now policy =
    omega (arith, length-record_all (λ at. ltb (minus now policy.window_seconds) at) a b.used)

-- On uses that ascend, merging what devices have recorded is commutative, associative and
-- idempotent, keeps them ascending, and leaves at every instant at most as many passes as either
-- side had.
pub merge-grow_only :
    (a b c : Passes)
    → IsValid a
    → IsValid b
    → IsValid c
    → (merge a b ≡ merge b a)
      × (merge (merge a b) c ≡ merge a (merge b c))
      × (merge a a ≡ a)
      × IsValid (merge a b)
      × ((now : I64) (policy : EmergencyPolicy)
          → (remaining (merge a b) now policy ≤ remaining a now policy)
            × (remaining (merge a b) now policy ≤ remaining b now policy))
merge-grow_only a b c h k l = (
  comm a b h k,
  passes_ext (merge (merge a b) c) (merge a (merge b c))
      (merge-IsValid (merge a b) c (merge-IsValid a b h)) (merge-IsValid a (merge b c) h)
      λ t. ground (
        arith,
        mem-merge t (merge a b) c,
        mem-merge t a b,
        mem-merge t a (merge b c),
        mem-merge t b c,
      ),
  passes_ext (merge a a) a (merge-IsValid a a h) h λ t. ground (arith, mem-merge t a a),
  merge-IsValid a b h,
  λ now policy.
      (remaining-merge_le a b now policy, rw (comm a b h k) (remaining-merge_le b a now policy)),
)
  where
    comm : (x y : Passes) → IsValid x → IsValid y → merge x y ≡ merge y x
    comm x y p q =
        passes_ext (merge x y) (merge y x) (merge-IsValid x y p) (merge-IsValid y x q)
          λ t. ground (arith, mem-merge t x y, mem-merge t y x)

filter-filter :
    (lo hi : I64) (xs : List I64)
    → lo ≤ hi
    → filter (λ at. ltb hi at) (filter (λ at. ltb lo at) xs) ≡ filter (λ at. ltb hi at) xs
filter-filter lo hi [] h = refl
filter-filter lo hi (x ∷ xs) h = ground (arith, filter-filter lo hi xs h)

recent-compact :
    (s : Passes) (now later : I64) (policy : EmergencyPolicy)
    → now ≤ later
    → later < modulus
    → policy.window_seconds ≤ now
    → recent (compact s now policy) later policy ≡ recent s later policy
unfolding recent compact
recent-compact s now later policy h k w =
    filter-filter (minus now policy.window_seconds) (minus later policy.window_seconds) s.used
      (omega arith)

-- Compacting at `now`, where the window does not reach below the smallest instant, changes no
-- answer at `now` or later: the check and the number of passes left are what they were.
pub compact-keeps_answers :
    (s : Passes) (now later : I64) (policy : EmergencyPolicy)
    → now ≤ later
    → later < modulus
    → policy.window_seconds ≤ now
    → (check (compact s now policy) later policy ≡ check s later policy)
      × (remaining (compact s now policy) later policy ≡ remaining s later policy)
unfolding check remaining
compact-keeps_answers s now later policy h k w =
    let e = recent-compact s now later policy h k w in (rw e, rw e)
