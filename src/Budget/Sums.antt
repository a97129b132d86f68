-- ===== src/Budget/Sums.antt =====
-- The sums, counts and prunings of crates/curfew-core/src/budget.rs.
use curfew.Prelude.{
  if◌then◌else◌, ℕ, ◌+◌, ◌%◌, ◌^◌, ◌≡◌, ◌≤◌, refl, ap, ◌∙◌, min, Option, some, List, [], ◌∷◌, ◌++◌,
  leb, arith, Bool-cases, inl, inr,
}
use curfew.Prelude.Lists.{filter, length}
use curfew.Prelude.I64.{I64, u32_max}
use curfew.Budget.{
  Rollup, Consumption, Launches, counts, saturating_sum, used_since, record_seconds, prune_rollups,
  count_since, prune_launches,
}

abbrev pub total : List Rollup → ℕ
total [] = 0
total (r ∷ rs) = r.seconds + total rs

saturating_sum-total :
    (acc : ℕ) (rs : List Rollup)
    → acc ≤ u32_max
    → saturating_sum acc rs ≡ min (acc + total rs) u32_max
unfolding saturating_sum
saturating_sum-total acc [] h = omega arith
saturating_sum-total acc (r ∷ rs) h =
    omega (arith, saturating_sum-total (min (acc + r.seconds) u32_max) rs (omega arith))

-- What counts from `from`.
abbrev pub counted : Option I64 → List Rollup → List Rollup
counted from rs = filter (λ r. counts from r.at) rs

total-append : (rs qs : List Rollup) → total (rs ++ qs) ≡ total rs + total qs
total-append [] qs = omega arith
total-append (r ∷ rs) qs = omega (arith, total-append rs qs)

total-counted_append :
    (from : Option I64) (rs qs : List Rollup)
    → total (counted from (rs ++ qs)) ≡ total (counted from rs) + total (counted from qs)
total-counted_append from [] qs = omega arith
total-counted_append from (r ∷ rs) qs = elim (Bool-cases (counts from r.at)) [
  | inl e ↦ rw e (omega (arith, total-counted_append from rs qs))
  | inr e ↦ rw e (total-counted_append from rs qs)
]

counted-prune :
    (from before : I64) (rs : List Rollup)
    → before ≤ from
    → counted (some from) (filter (λ r. leb before r.at) rs) ≡ counted (some from) rs
counted-prune from before [] h = refl
counted-prune from before (r ∷ rs) h = ground (arith, h, counted-prune from before rs h)

launches-prune :
    (from before : I64) (ts : List I64)
    → before ≤ from
    → filter (λ t. counts (some from) t) (filter (λ t. leb before t) ts)
      ≡ filter (λ t. counts (some from) t) ts
launches-prune from before [] h = refl
launches-prune from before (t ∷ ts) h = ground (arith, h, launches-prune from before ts h)

abbrev pub seconds_of : Option I64 → I64 → ℕ → ℕ
seconds_of from at seconds = if counts from at then seconds else 0

total-one :
    (from : Option I64) (at : I64) (seconds : ℕ)
    → total (counted from (record { at = at; seconds = seconds } ∷ [])) ≡ seconds_of from at seconds
total-one from at seconds = ground arith

-- What was used since an instant is the sum of the seconds that count, or the largest `u32` where
-- that is less: no log makes it small by overflow. Recording seconds adds them up to that bound where
-- they count, and nothing where they do not.
pub used_since_exact :
    (c : Consumption) (from : Option I64) (at : I64) (seconds : ℕ)
    → (used_since c from ≡ min (total (counted from c.rollups)) u32_max)
      × (used_since (record_seconds c at seconds) from
          ≡ min (total (counted from c.rollups) + seconds_of from at seconds) u32_max)
unfolding used_since record_seconds
used_since_exact c from at seconds =
    let more = c.rollups ++ record { at = at; seconds = seconds } ∷ [] in
    let grown = total-counted_append from c.rollups (record { at = at; seconds = seconds } ∷ []) in
    let one = total-one from at seconds in
    (
      omega (arith, saturating_sum-total 0 (counted from c.rollups) (omega arith)),
      saturating_sum-total 0 (counted from more) (omega arith) ∙ omega (arith, grown, one),
    )

-- Pruning up to an instant changes no total and no count of a window that opens at it or later.
pub prune-keeps_totals :
    (c : Consumption) (l : Launches) (before from : I64)
    → before ≤ from
    → (used_since (prune_rollups c before) (some from) ≡ used_since c (some from))
      × (count_since (prune_launches l before) (some from) ≡ count_since l (some from))
unfolding used_since prune_rollups count_since prune_launches
prune-keeps_totals c l before from h = (
  ap (saturating_sum 0) (counted-prune from before c.rollups h),
  ap (λ ts. length ts % 2 ^ 32) (launches-prune from before l.at h),
)
