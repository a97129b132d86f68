-- ===== src/Boot/Restart.antt =====
-- First sightings and restarts in crates/curfew-core/src/boot.rs, over passes through any boots.
use curfew.Prelude.{
  ℕ, ◌≡◌, refl, ◌∙◌, Bool, true, false, not, List, [], ◌∷◌, map, Option, none, some, arith, ◌==◌,
  if◌then◌else◌,
}
use curfew.Prelude.Order.{list_ord, list_eq→eq}
use curfew.Prelude.Text.{Text}
use curfew.Prelude.Set
use curfew.Prelude.Set.{mem-union}
use curfew.Prelude.Map
use curfew.Prelude.Map.{BTreeMap, get-or_insert, get-retain_keys}
use curfew.Lock.{lock_ord}
use curfew.Session.{Session}
use curfew.Boot.{Boots, no_boots, note_running, live_ids, observe, restarted, evidence}

abbrev pub ids : List Session → List Text
ids running = map (λ s. s.id) running

-- The first sighting, or this boot where there is none.
abbrev pub first_seen : Option ℕ → ℕ → Option ℕ
first_seen none boot_id = some boot_id
first_seen (some first) boot_id = some first

get-note_running :
    (id : Text) (boot_id : ℕ) (running : List Session) (seen : BTreeMap Text ℕ)
    → Map.get id (note_running boot_id running seen)
      ≡ (if Set.mem id (ids running) then first_seen (Map.get id seen) boot_id else Map.get id seen)
unfolding note_running Set.mem
get-note_running id boot_id [] seen = refl
get-note_running id boot_id (x ∷ rest) seen = ground (
  arith,
  get-note_running id boot_id rest (Map.or_insert x.id boot_id seen),
  get-or_insert id x.id boot_id seen,
  list_eq→eq id x.id,
)

mem-live_ids :
    (id : Text) (running : List Session) → Set.mem id (live_ids running) ≡ Set.mem id (ids running)
unfolding Set.mem Set.from_list
mem-live_ids id running = mem-union id (ids running) [] ∙ ground arith

-- After a pass the boot remembered for an id is that of its first sighting if the session runs, and
-- nothing if it does not.
pub observe-first_sighting :
    (b : Boots) (boot_id : ℕ) (running : List Session) (id : Text)
    → Map.get id (observe b boot_id running).seen
      ≡ (if Set.mem id (ids running) then first_seen (Map.get id b.seen) boot_id else none)
unfolding observe
observe-first_sighting b boot_id running id =
    get-retain_keys (λ k. Set.mem k (live_ids running)) id (note_running boot_id running b.seen)
    ∙ ground (arith, mem-live_ids id running, get-note_running id boot_id running b.seen)

-- Passes in the boots given, each with the sessions that run then.
abbrev pub observe_all : Boots → List (ℕ × List Session) → Boots
observe_all b [] = b
observe_all b ((boot_id, running) ∷ rest) = observe_all (observe b boot_id running) rest

abbrev pub AlwaysRuns : Text → List (ℕ × List Session) → Type 0
AlwaysRuns id [] = Unit
AlwaysRuns id ((boot_id, running) ∷ rest) = (Set.mem id (ids running) ≡ true) × AlwaysRuns id rest

abbrev pub OneBoot : ℕ → List (ℕ × List Session) → Type 0
OneBoot boot [] = Unit
OneBoot boot ((boot_id, running) ∷ rest) = (boot_id ≡ boot) × OneBoot boot rest

get-observe_all_runs :
    (b : Boots) (passes : List (ℕ × List Session)) (id : Text) (first : ℕ)
    → AlwaysRuns id passes
    → Map.get id b.seen ≡ some first
    → Map.get id (observe_all b passes).seen ≡ some first
get-observe_all_runs b [] id first h e = e
get-observe_all_runs b ((boot_id, running) ∷ rest) id first h e =
    get-observe_all_runs (observe b boot_id running) rest id first h.1
      (observe-first_sighting b boot_id running id ∙ ground (arith, h.0))

abbrev SeenIn : ℕ → Option ℕ → Type 0
SeenIn boot none = Unit
SeenIn boot (some first) = first ≡ boot

SeenIn-observe_all :
    (b : Boots) (boot : ℕ) (passes : List (ℕ × List Session)) (id : Text)
    → OneBoot boot passes
    → SeenIn boot (Map.get id b.seen)
    → SeenIn boot (Map.get id (observe_all b passes).seen)
SeenIn-observe_all b boot [] id h s = s
SeenIn-observe_all b boot ((boot_id, running) ∷ rest) id h s =
    SeenIn-observe_all (observe b boot_id running) boot rest id h.1 (
      rw (observe-first_sighting b boot_id running id)
        (kept (Set.mem id (ids running)) (Map.get id b.seen) s))
  where
    kept :
        (m : Bool) (o : Option ℕ)
        → SeenIn boot o
        → SeenIn boot (if m then first_seen o boot_id else none)
    kept true none t = h.0
    kept true (some f) t = t
    kept false o t = tt

restarted-SeenIn :
    (b : Boots) (boot : ℕ) (id : Text)
    → SeenIn boot (Map.get id b.seen)
    → restarted b id boot ≡ false
unfolding restarted
restarted-SeenIn b boot id s = ground arith

-- A session that was first seen in one boot and has run in every pass since, through any boots, is
-- taken for restarted exactly if the current boot is another one; passes of a single boot, whatever
-- runs in them, prove no restart of anything.
pub restarted_exact :
    (b : Boots) (first now : ℕ) (running : List Session) (passes : List (ℕ × List Session))
    (id : Text)
    → (Map.get id b.seen ≡ none
        → Set.mem id (ids running) ≡ true
        → AlwaysRuns id passes
        → restarted (observe_all (observe b first running) passes) id now ≡ not (first == now))
      × (OneBoot now passes
          → (restarted (observe_all no_boots passes) id now ≡ false)
            × (evidence (observe_all no_boots passes) id now ≡ []))
unfolding restarted evidence Map.get
restarted_exact b first now running passes id = (
  λ absent runs always. ground (
    arith,
    get-observe_all_runs (observe b first running) passes id first always
        (observe-first_sighting b first running id ∙ ground (arith, absent, runs)),
  ),
  λ one.
      let none_seen =
        restarted-SeenIn (observe_all no_boots passes) now id
          (SeenIn-observe_all no_boots now passes id one tt) in
      (none_seen, rw none_seen),
)
