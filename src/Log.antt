-- ===== src/Log.antt =====
-- crates/curfew-sync/src/oplog.rs: the log that holds everybody's chains, and its compaction.
pub mod Ranges
pub mod Chains
pub mod Arrival
pub mod Authorship
pub mod Boundary
pub mod Compaction
use curfew.Prelude.{
  ℕ, ◌+◌, ◌%◌, max, Bool, true, false, not, ◌&&◌, ◌||◌, Option, none, some, List, [], ◌∷◌, ◌++◌,
  map, ltb, leb, ◌==◌, if◌then◌else◌, is_none,
}
use curfew.Prelude.Lists.{filter, last, length, sort_by}
use curfew.Prelude.Order.{list_ord, nat_ord, pair_ord, list_eq, list_lt}
use curfew.Prelude.Text.{Text}
use curfew.Prelude.I64.{I64, minus, u64_mod}
use curfew.Prelude.Set
use curfew.Prelude.Map
use curfew.Prelude.Map.{BTreeMap}
use curfew.Prelude.Result.{Result, ok, err}
use curfew.Budget
use curfew.Device
use curfew.Device.{Crypto, DeviceId, Identity}
use curfew.Pair
use curfew.Pair.{Peers}
use curfew.Oplog
use curfew.Oplog.{Hash, genesis, Op, Entry, Signed, hash}
use curfew.Oplog.Equality.{signed_eq}
use curfew.Replay
use curfew.Replay.{Replay, fold}

pub data Error : Type 0 where
  peer : Pair.Error → Error
  forked : DeviceId → ℕ → Error
  rewritten : DeviceId → ℕ → Error

pub record Checkpoint : Type 0 where
  pub through : I64
  pub state : Replay
  pub heads : BTreeMap DeviceId (ℕ × Hash)

abbrev pub Key : Type 0
Key = DeviceId × ℕ

abbrev pub Entries : Type 0
Entries = BTreeMap Key Signed

pub record Log : Type 0 where
  pub entries : Entries
  pub checkpoint : Option Checkpoint

abbrev pub empty : Log
empty = record { entries = []; checkpoint = none }

abbrev pub key_of : Signed → Key
key_of signed = (signed.entry.author, signed.entry.seq)

-- `range((author, 0)..=(author, u64::MAX))`
abbrev pub range : DeviceId → Entries → Entries
range author entries = filter (λ e. list_eq e.0.0 author) entries

abbrev or_genesis : Option (ℕ × Hash) → ℕ × Hash
or_genesis none = (0, genesis)
or_genesis (some head) = head

-- Where the author's chain starts, as far as entries are held.
abbrev pub base_of : Option Checkpoint → DeviceId → ℕ × Hash
base_of none author = (0, genesis)
base_of (some c) author = or_genesis (Map.get author c.heads)

abbrev pub successor : ℕ → ℕ
successor seq = (seq + 1) % u64_mod

abbrev checkpoint_heads : Option Checkpoint → BTreeMap DeviceId (ℕ × Hash)
checkpoint_heads none = []
checkpoint_heads (some c) = c.heads

abbrev pub checkpoint_state : Option Checkpoint → Replay
checkpoint_state none = Replay.default
checkpoint_state (some c) = c.state

abbrev pub or_zero : Option ℕ → ℕ
or_zero none = 0
or_zero (some n) = n

-- `since`, given what the other side holds.
unfoldable pub since : Log → BTreeMap DeviceId ℕ → List Signed
since log heads =
    map (λ e. e.1) (filter (λ e. ltb (or_zero (Map.get e.0.0 heads)) e.0.1) log.entries)

unfoldable pub insert_seqs :
    BTreeMap DeviceId ℕ → List (DeviceId × (ℕ × Hash)) → BTreeMap DeviceId ℕ
insert_seqs heads [] = heads
insert_seqs heads ((author, (seq, h)) ∷ rest) = insert_seqs (Map.insert author seq heads) rest

unfoldable pub raise_heads : BTreeMap DeviceId ℕ → Entries → BTreeMap DeviceId ℕ
raise_heads heads [] = heads
raise_heads heads (((author, seq), signed) ∷ rest) =
    raise_heads (Map.insert author (max (or_zero (Map.get author heads)) seq) heads) rest

unfoldable pub heads : Log → BTreeMap DeviceId ℕ
heads log = raise_heads (insert_seqs [] (checkpoint_heads log.checkpoint)) log.entries

unfoldable pub len : Log → ℕ
len log = length log.entries

abbrev no_entries : Entries → Bool
no_entries [] = true
no_entries (e ∷ es) = false

unfoldable pub is_empty : Log → Bool
is_empty log = no_entries log.entries && is_none log.checkpoint

-- The order of the fold is that of time, author and number.
abbrev pub before : Entry → Entry → Bool
before a b =
    ltb a.at b.at
    || ((a.at == b.at)
        && (list_lt a.author b.author || (list_eq a.author b.author && ltb a.seq b.seq)))

abbrev pub ordered : Log → I64 → List Entry
ordered log now = sort_by before (filter (λ e. leb e.at now) (map (λ e. e.1.entry) log.entries))

-- `sort` and `dedup` leave the distinct texts in ascending order.
abbrev pub tidy : Replay → Replay
tidy state = record state {
  still_locked = Set.from_list state.still_locked;
  revoked = Set.from_list state.revoked;
}

unfoldable pub replay : Log → I64 → Replay
replay log now = tidy (fold (checkpoint_state log.checkpoint) (ordered log now) now)

abbrev pub raise_slot : ℕ × Hash → ℕ × Hash → ℕ × Hash
raise_slot slot head = if leb slot.0 head.0 then head else slot

-- `entry(author).or_insert((0, GENESIS))`, raised where the number is not below it.
abbrev pub raise : DeviceId → ℕ × Hash → BTreeMap DeviceId (ℕ × Hash) → BTreeMap DeviceId (ℕ × Hash)
raise author head heads =
    Map.insert author (raise_slot (or_genesis (Map.get author heads)) head) heads

unfoldable pub raise_all :
    BTreeMap DeviceId (ℕ × Hash) → List (DeviceId × (ℕ × Hash)) → BTreeMap DeviceId (ℕ × Hash)
raise_all heads [] = heads
raise_all heads ((author, head) ∷ rest) = raise_all (raise author head heads) rest

abbrev pub sixty_days : ℕ
sixty_days = 5184000

-- `values_mut` on both maps.
abbrev pub prune : I64 → Replay → Replay
prune horizon state = record state {
  usage = map (λ e. (e.0, Budget.prune_rollups e.1 horizon)) state.usage;
  launches = map (λ e. (e.0, Budget.prune_launches e.1 horizon)) state.launches;
}

abbrev pub is_old : I64 → Key × Signed → Bool
is_old through e = ltb e.1.entry.at through

module _ {K X : Type 0} (crypto : Crypto K X) (canonical : Entry → List ℕ) where
  abbrev pub last_or : ℕ × Hash → Option (Key × Signed) → ℕ × Hash
  last_or base none = base
  last_or base (some e) = (e.1.entry.seq, hash crypto canonical e.1.entry)

  unfoldable pub head : Log → DeviceId → ℕ × Hash
  head log author = last_or (base_of log.checkpoint author) (last (range author log.entries))

  abbrev pub next_entry : Identity K X → I64 → Op → ℕ × Hash → Entry
  next_entry me at op (seq, prev) = record {
    author = Device.id crypto me;
    seq = successor seq;
    prev = prev;
    at = at;
    op = op;
  }

  abbrev pub signed_by : Identity K X → Entry → Signed
  signed_by me entry = record { entry = entry; signature = Device.sign crypto me (canonical entry) }

  unfoldable pub append : Log → Identity K X → I64 → Op → Log × Signed
  append log me at op =
      let signed = signed_by me (next_entry me at op (head log (Device.id crypto me))) in
      (record log { entries = Map.insert (key_of signed) signed log.entries }, signed)

  abbrev pub follows : Signed → ℕ × Hash → Bool
  follows signed (seq, prev) = (signed.entry.seq == successor seq) && list_eq signed.entry.prev prev

  -- `Log::apply`
  unfoldable pub apply : Log → Signed → Log × Result Bool Error
  apply log signed = elim (Map.get (key_of signed) log.entries) [
    | some existing ↦
        if signed_eq.same existing signed
        then (log, ok false)
        else (log, err (rewritten signed.entry.author signed.entry.seq))
    | none ↦
        if follows signed (head log signed.entry.author)
        then (record log { entries = Map.insert (key_of signed) signed log.entries }, ok true)
        else (log, err (forked signed.entry.author signed.entry.seq))
  ]

  unfoldable pub accept : Log → Signed → Peers → Log × Result Bool Error
  accept log signed peers = elim (Oplog.verify crypto canonical signed peers) [
    | err e ↦ (log, err (peer e))
    | ok _ ↦ apply log signed
  ]

  unfoldable pub raise_hashes :
      BTreeMap DeviceId (ℕ × Hash) → Entries → BTreeMap DeviceId (ℕ × Hash)
  raise_hashes heads [] = heads
  raise_hashes heads (((author, seq), signed) ∷ rest) =
      raise_hashes (raise author (seq, hash crypto canonical signed.entry) heads) rest

  -- The heads of an absent checkpoint are the empty map, which `extend` fills.
  unfoldable pub heads_with_hashes : Log → BTreeMap DeviceId (ℕ × Hash)
  heads_with_hashes log = raise_hashes (checkpoint_heads log.checkpoint) log.entries

  unfoldable pub compact : Log → I64 → I64 → Log
  compact log through now =
      let summarized = record log { entries = filter (is_old through) log.entries } in
      record {
        entries = filter (λ e. not (is_old through e)) log.entries;
        checkpoint = some (record {
          through = through;
          state = prune (minus through sixty_days) (replay summarized now);
          heads = raise_all (checkpoint_heads log.checkpoint) (heads_with_hashes summarized);
        });
      }
