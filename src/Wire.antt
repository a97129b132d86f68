-- ===== src/Wire.antt =====
-- crates/curfew-sync/src/wire.rs: what travels between two devices, and how a batch is taken in.
pub mod Groups
pub mod Chain
pub mod Batches
pub mod Order
pub mod Exchange
use curfew.Prelude.{
  ℕ, suc, ◌+◌, Bool, true, false, not, Option, none, some, List, [], ◌∷◌, ◌++◌, map, ltb, ◌==◌,
  if◌then◌else◌,
}
use curfew.Prelude.Lists.{filter, length, sort_by}
use curfew.Prelude.Order.{list_ord, list_eq}
use curfew.Prelude.Map
use curfew.Prelude.Map.{BTreeMap}
use curfew.Prelude.Result.{Result, ok, err}
use curfew.Device.{Crypto, DeviceId}
use curfew.Pair
use curfew.Pair.{Peers}
use curfew.Oplog
use curfew.Oplog.{Entry, Signed}
use curfew.Log
use curfew.Log.{Log, Error, since, heads}

pub data Message : Type 0 where
  heads_message : BTreeMap DeviceId ℕ → Message
  entries_message : List Signed → Message

unfoldable pub greet : Log → Message
greet log = heads_message (heads log)

unfoldable pub answer : Log → BTreeMap DeviceId ℕ → Message
answer log heads = entries_message (since log heads)

pub record Received : Type 0 where
  pub accepted : ℕ
  pub known : ℕ
  pub refused : ℕ

abbrev pub nothing : Received
nothing = record { accepted = 0; known = 0; refused = 0 }

abbrev pub or_no_chain : Option (List Signed) → List Signed
or_no_chain none = []
or_no_chain (some chain) = chain

-- `by_author.entry(author).or_default().push(signed)` for each entry.
unfoldable pub group :
    BTreeMap DeviceId (List Signed) → List Signed → BTreeMap DeviceId (List Signed)
group by_author [] = by_author
group by_author (signed ∷ rest) =
    let author = signed.entry.author in
    group (Map.insert author (or_no_chain (Map.get author by_author) ++ signed ∷ []) by_author) rest

abbrev pub lower_seq : Signed → Signed → Bool
lower_seq a b = ltb a.entry.seq b.entry.seq

abbrev pub counted : Result Bool Error → Received → Received
counted (ok true) out = record out { accepted = suc out.accepted }
counted (ok false) out = record out { known = suc out.known }
counted (err e) out = record out { refused = suc out.refused }

abbrev pub stands : Result Unit Pair.Error → Bool
stands (ok u) = true
stands (err e) = false

module _ {K X : Type 0} (crypto : Crypto K X) (canonical : Entry → List ℕ) where
  abbrev pub is_verified : Peers → Signed → Bool
  is_verified peers signed = stands (Oplog.verify crypto canonical signed peers)

  -- One author's entries, lowest number first.
  unfoldable pub apply_chain : Log → Received → List Signed → Log × Received
  apply_chain log out [] = (log, out)
  apply_chain log out (signed ∷ rest) =
      let (log', verdict) = Log.apply crypto canonical log signed in
      apply_chain log' (counted verdict out) rest

  unfoldable pub apply_chains : Log → Received → List (DeviceId × List Signed) → Log × Received
  apply_chains log out [] = (log, out)
  apply_chains log out ((author, chain) ∷ rest) =
      let (log', out') = apply_chain log out (sort_by lower_seq chain) in
      apply_chains log' out' rest

  -- The first loop counts an entry that does not verify and drops it.
  unfoldable pub receive : Log → Peers → List Signed → Log × Received
  receive log peers entries =
      apply_chains log
        (record nothing { refused = length (filter (λ s. not (is_verified peers s)) entries) })
        (group [] (filter (is_verified peers) entries))
