-- ===== src/Proof.antt =====
-- crates/curfew-core/src/proof.rs: evidence that was checked, and how long it stands.
pub mod Fresh
use curfew.Prelude.{
  ℕ, ◌+◌, Bool, true, false, not, ◌&&◌, List, [], ◌∷◌, map, Option, none, some, leb, ltb,
  if◌then◌else◌,
}
use curfew.Prelude.Lists.{filter}
use curfew.Prelude.Order.{list_ord}
use curfew.Prelude.Text.{Text}
use curfew.Prelude.I64.{I64, sub, epoch}
use curfew.Prelude.Set
use curfew.Prelude.Set.{BTreeSet}
use curfew.Prelude.Map
use curfew.Prelude.Map.{BTreeMap}
use curfew.Lock.{Lock, lock_ord}

abbrev pub proof_seconds : ℕ
proof_seconds = 120

pub record Proofs : Type 0 where
  pub held : BTreeMap Text (BTreeMap Lock I64)

abbrev pub no_proofs : Proofs
no_proofs = record { held = [] }

abbrev pub or_default : Option (BTreeMap Lock I64) → BTreeMap Lock I64
or_default none = []
or_default (some proofs) = proofs

-- `entry(session).or_default().insert(lock, now)`
unfoldable pub record_proof : Proofs → Text → Lock → I64 → Proofs
record_proof p session lock now = record {
  held = Map.insert session (Map.insert lock now (or_default (Map.get session p.held))) p.held;
}

abbrev pub stands : I64 → I64 → Bool
stands now at = leb at now && ltb (sub now at) (epoch + proof_seconds)

abbrev pub standing : I64 → BTreeMap Lock I64 → BTreeMap Lock I64
standing now proofs = filter (λ e. stands now e.1) proofs

unfoldable pub fresh : Proofs → Text → I64 → BTreeSet Lock
fresh p session now =
    Set.from_list (map (λ e. e.0) (standing now (or_default (Map.get session p.held))))

abbrev pub has_proofs : BTreeMap Lock I64 → Bool
has_proofs [] = false
has_proofs (e ∷ es) = true

-- The closure of `retain` prunes the proofs of a session, then says whether to keep them.
unfoldable pub prune_held :
    I64 → BTreeSet Text → BTreeMap Text (BTreeMap Lock I64) → BTreeMap Text (BTreeMap Lock I64)
prune_held now live [] = []
prune_held now live ((session, proofs) ∷ rest) =
    let kept = standing now proofs in
    let others = prune_held now live rest in
    if Set.mem session live && has_proofs kept then (session, kept) ∷ others else others

unfoldable pub prune : Proofs → I64 → List Text → Proofs
prune p now running = record { held = prune_held now (Set.from_list running) p.held }

unfoldable pub forget : Proofs → Text → Proofs
forget p session = record { held = Map.remove session p.held }
