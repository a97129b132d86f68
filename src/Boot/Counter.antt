-- ===== src/Boot/Counter.antt =====
-- `BootCounter` of crates/curfew-core/src/boot.rs over a sequence of uptimes.
use curfew.Prelude.{ℕ, ◌≡◌, ◌+◌, ◌<◌, refl, ap, List, [], ◌∷◌, arith, ltb, if◌then◌else◌}
use curfew.Prelude.I64.{I64, u64_mod}
use curfew.Boot.{BootCounter, no_reading, count_boot}

abbrev pub count_all : BootCounter → List I64 → BootCounter
count_all c [] = c
count_all c (u ∷ us) = count_all (count_boot c u).0 us

-- How often an uptime is below the one before it.
abbrev pub falls : I64 → List I64 → ℕ
falls last [] = 0
falls last (u ∷ us) = (if ltb u last then 1 else 0) + falls u us

abbrev fell : I64 → I64 → ℕ
fell last u = if ltb u last then 1 else 0

boot_id-count_boot :
    (c : BootCounter) (u : I64)
    → 0 < c.boot_id
    → c.boot_id + fell c.last_uptime u < u64_mod
    → (count_boot c u).0.boot_id ≡ c.boot_id + fell c.last_uptime u
unfolding count_boot
boot_id-count_boot c u h k = ground arith

last_uptime-count_boot : (c : BootCounter) (u : I64) → (count_boot c u).0.last_uptime ≡ u
unfolding count_boot
last_uptime-count_boot c u = refl

count_all-falls :
    (c : BootCounter) (us : List I64)
    → 0 < c.boot_id
    → c.boot_id + falls c.last_uptime us < u64_mod
    → (count_all c us).boot_id ≡ c.boot_id + falls c.last_uptime us
count_all-falls c [] h k = omega arith
count_all-falls c (u ∷ us) h k =
    let step = boot_id-count_boot c u h (omega arith) in
    let same = ap (λ t. falls t us) (last_uptime-count_boot c u) in
    let ih =
      count_all-falls (count_boot c u).0 us (omega (arith, step)) (omega (arith, step, same)) in
    omega (arith, step, same, ih)

-- From the first reading on, and while the number fits a `u64`, the id of the boot is one more than
-- the number of times that uptime fell: neither the wall clock nor anything else has a part in it.
pub count_all_exact :
    (u : I64) (us : List I64)
    → 1 + falls u us < u64_mod
    → (count_all no_reading (u ∷ us)).boot_id ≡ 1 + falls u us
unfolding count_boot
count_all_exact u us h =
    count_all-falls (record { last_uptime = u; boot_id = 1 }) us (omega arith) h
