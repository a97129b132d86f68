-- ===== src/Examples/Boots.antt =====
-- Examples of crates/curfew-core/src/boot.rs and crates/curfew-core/src/proof.rs.
use curfew.Prelude.{ℕ, List, [], ◌∷◌}
use curfew.Prelude.Order.{list_ord}
use curfew.Lock.{lock_ord}
use curfew.Session.{Session}
use curfew.Proof.{no_proofs}
use curfew.Proof.Fresh.{IsValid}
use curfew.Examples.Data.{work, focus}

abbrev passes : List (ℕ × List Session)
passes = (7, work ∷ []) ∷ (8, work ∷ focus ∷ []) ∷ []

no_proofs-IsValid : IsValid no_proofs
no_proofs-IsValid = record { outer = tt; inner = tt }
