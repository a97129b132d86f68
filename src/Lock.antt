-- ===== src/Lock.antt =====
-- crates/curfew-core/src/lock.rs: release conditions, and the set of them that guards a session.
pub mod Lattice
pub mod Harden
pub mod Release
pub mod Freeing
pub mod Offered
use curfew.Prelude.{
  ℕ, ◌+◌, min, max, ◌≡◌, Bool, true, false, not, ◌&&◌, ◌||◌, Option, none, some, List, [], ◌∷◌,
  is_none, is_some_and, leb, if◌then◌else◌, arith,
}
use curfew.Prelude.Lists.{any, filter}
use curfew.Prelude.Order.{Ord, ord_by, list_ord}
use curfew.Prelude.Text.{Text}
use curfew.Prelude.I64.{I64, plus}
use curfew.Prelude.Set
use curfew.Prelude.Set.{BTreeSet, IsSorted}

abbrev pub delayed_release_seconds : ℕ
delayed_release_seconds = 86400

pub data ChallengeKind : Type 0 where
  typing math : ChallengeKind

pub data Lock : Type 0 where
  timer : Lock
  confirm : Lock
  device_credential : Lock
  challenge : ChallengeKind → Lock
  peer_release : Text → Lock
  token : Text → Lock
  restart_required : Lock

abbrev challenge_rank : ChallengeKind → ℕ
challenge_rank typing = 0
challenge_rank math = 1

-- The derived order: first the variants in their order, then the payload.
abbrev pub lock_key : Lock → List ℕ
lock_key timer = 0 ∷ []
lock_key confirm = 1 ∷ []
lock_key device_credential = 2 ∷ []
lock_key (challenge c) = 3 ∷ challenge_rank c ∷ []
lock_key (peer_release d) = 4 ∷ d
lock_key (token i) = 5 ∷ i
lock_key restart_required = 6 ∷ []

pub lock_key_injective : (a b : Lock) → lock_key a ≡ lock_key b → a ≡ b
lock_key_injective a b h = ground arith

instance abbrev pub lock_ord : Ord Lock
lock_ord = ord_by lock_key lock_key_injective

pub record Offers : Type 0 where
  pub ends_on_request : Bool
  pub credential : Bool
  pub confirm : Bool
  pub elsewhere : List Lock
  pub peer_release : Bool
  pub peer_released : Bool
  pub delayed_release : Bool
  pub delayed_release_at : Option I64

pub record LockSet : Type 0 where
  pub conditions : BTreeSet Lock
  pub ends_at : Option I64
  pub delayed_release_at : Option I64

-- What `BTreeSet` maintains.
abbrev pub IsValid : LockSet → Type 0
IsValid s = IsSorted s.conditions

abbrev pub unlocked : LockSet
unlocked = record { conditions = []; ends_at = none; delayed_release_at = none }

unfoldable pub new : List Lock → Option I64 → LockSet
new conditions ends_at = record {
  conditions = Set.from_list conditions;
  ends_at = ends_at;
  delayed_release_at = none;
}

abbrev pub no_conditions : List Lock → Bool
no_conditions [] = true
no_conditions (l ∷ ls) = false

unfoldable pub is_locked : LockSet → Bool
is_locked s = not (no_conditions s.conditions)

-- The patterns of the `matches!` calls.
abbrev pub is_device_credential : Lock → Bool
is_device_credential device_credential = true
is_device_credential _ = false

abbrev pub is_confirm : Lock → Bool
is_confirm confirm = true
is_confirm _ = false

abbrev pub is_timer : Lock → Bool
is_timer timer = true
is_timer _ = false

abbrev pub is_peer_release : Lock → Bool
is_peer_release (peer_release d) = true
is_peer_release _ = false

abbrev pub is_elsewhere : Bool → Lock → Bool
is_elsewhere releasable l =
    not (is_device_credential l || (is_confirm l || is_timer l))
    && not (releasable && is_peer_release l)

unfoldable pub offers : LockSet → Bool → Bool → Offers
offers s releasable released = record {
  ends_on_request = no_conditions s.conditions;
  credential = any is_device_credential s.conditions;
  confirm = any is_confirm s.conditions;
  elsewhere = filter (is_elsewhere releasable) s.conditions;
  peer_release = releasable && not released;
  peer_released = releasable && released;
  delayed_release = not (no_conditions s.conditions) && is_none s.delayed_release_at;
  delayed_release_at = s.delayed_release_at;
}

unfoldable pub is_empty : LockSet → Bool
is_empty s = no_conditions s.conditions && (is_none s.ends_at && is_none s.delayed_release_at)

abbrev pub min_opt : Option I64 → Option I64 → Option I64
min_opt (some a) (some b) = some (min a b)
min_opt (some a) none = some a
min_opt none y = y

-- The end times of two concurrent promises: `none` is "until released" and absorbs.
abbrev pub latest_end : Option I64 → Option I64 → Option I64
latest_end (some a) (some b) = some (max a b)
latest_end (some a) none = none
latest_end none y = none

abbrev merge_nonempty : LockSet → LockSet → LockSet
merge_nonempty s other = record {
  conditions = Set.union s.conditions other.conditions;
  ends_at = latest_end s.ends_at other.ends_at;
  delayed_release_at = min_opt s.delayed_release_at other.delayed_release_at;
}

unfoldable pub merge : LockSet → LockSet → LockSet
merge s other = if is_empty s then other else if is_empty other then s else merge_nonempty s other

-- A bound that an untrusted lock may push later, and can neither add nor take away.
abbrev pub harden_bound : Option I64 → Option I64 → Option I64
harden_bound (some a) (some b) = some (max a b)
harden_bound (some a) none = some a
harden_bound none y = none

unfoldable pub harden : LockSet → LockSet → LockSet
harden s other = record {
  conditions = Set.union s.conditions other.conditions;
  ends_at = harden_bound s.ends_at other.ends_at;
  delayed_release_at = harden_bound s.delayed_release_at other.delayed_release_at;
}

-- The state and the instant that `request_release` returns.
abbrev pub earlier_release : Option I64 → I64 → I64
earlier_release none candidate = candidate
earlier_release (some t) candidate = min t candidate

unfoldable pub request_release : LockSet → I64 → LockSet × I64
request_release s now =
    let at = earlier_release s.delayed_release_at (plus now delayed_release_seconds) in
    (record s { delayed_release_at = some at }, at)

unfoldable pub is_expired : LockSet → I64 → Bool
is_expired s now =
    is_some_and s.ends_at (λ t. leb t now) || is_some_and s.delayed_release_at (λ t. leb t now)

unfoldable pub can_release : LockSet → I64 → BTreeSet Lock → Bool
unfolding is_expired
can_release s now satisfied = is_expired s now || Set.is_subset s.conditions satisfied
