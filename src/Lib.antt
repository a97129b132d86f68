-- ===== src/Lib.antt =====
-- Curfew: a device locks itself, by schedules and by hand, and the lock is a promise. Sessions run
-- until their own lock says otherwise; no schedule, stored state or setting of the clock is meant
-- to end one early. The policy core that decides this, crates/curfew-core/src, and the log by
-- which devices agree, in crates/curfew-sync/src, are modelled here as functions over explicit
-- state; a method that changes its receiver returns the new state.
--
-- The parts and how they interact:
--   * Lock: crates/curfew-core/src/lock.rs. `LockSet` holds conditions, an end time and the
--   delayed release. `merge` joins two promises, `harden` adopts an untrusted lock,
--   `can_release` is asked before a session ends. Lock/Lattice, Lock/Harden, Lock/Release,
--   Lock/Freeing and Lock/Offered hold the proofs.
--   * Schedule: crates/curfew-core/src/schedule.rs, the type `Activation` and the lock that it
--   carries.
--   * Session: crates/curfew-core/src/session.rs. `Sessions` keeps what runs and what was ended
--   by hand. A loop is a recursion on its list whose body is a function of its own
--   (`restore_session`, `reconcile_one`). Session/Keeping, Session/Distinct, Session/Ending,
--   Session/Reconcile and Session/Due hold the proofs.
--   * Clock: crates/curfew-core/src/clock.rs, the time that locks are judged by. Clock/Trust is
--   about `observe`, Clock/Adoption about the guard that a stored witness has to pass.
--   * Emergency: crates/curfew-core/src/emergency.rs, the rationed passes that
--   `Session.end_with_pass` takes. Emergency/Ration and Emergency/Quota are about spending,
--   Emergency/Merge about merging and compaction.
--   * Boot and Proof: crates/curfew-core/src/boot.rs and proof.rs, the evidence that `end` is
--   given.
--   * Frozen: crates/curfew-core/src/frozen.rs, the countdown before the whole device is frozen.
--   * Target, Url, Domain and Glob: crates/curfew-core/src/target.rs, what a rule points at and
--   whether it matches what the platform reports.
--   * Chrono is the interface of dates and time zones. Schedule/Instants, Schedule/Weekly and
--   Schedule/Calendar: crates/curfew-core/src/schedule.rs, the windows that are open at an
--   instant, with their proofs in Schedule/Opening and Schedule/Padding.
--   * Budget: crates/curfew-core/src/budget.rs, what was used and since when it counts, with the
--   sums in Budget/Sums. Config: crates/curfew-core/src/config.rs, the document as data;
--   Config/Weakening is the check on a new document while sessions run, with its proofs in
--   Config/Kept; Config/Validation is `validate`, with Config/Checks and Config/Guards, and
--   Config/Edits are the edits, with Config/Stored, Config/Rollback, Config/Removal and
--   Config/Picker. Engine: crates/curfew-core/src/engine.rs, `decide` and `charged_keys`, with
--   their proofs in Engine/Asked, Engine/Weighing, Engine/Strictness and Engine/Charges; the
--   variables of the loops of `decide` are the record `Tally`.
--   * Device and Pair: crates/curfew-sync/src/device.rs and pair.rs, who a device is and which
--   devices are listened to; Pair/Trust is about removing and pairing.
--   * Oplog, Replay and Log: crates/curfew-sync/src/oplog.rs. Oplog holds the operations and
--   signed entries, with their derived equality in Oplog/Equality; Replay is the state that the
--   log folds into, entry by entry (`apply`), with what it does to locked sessions in
--   Replay/Promises; Log is the log itself, `append`, `accept`, `since`, `heads`, `replay` and
--   `compact`. Log/Ranges and Log/Chains are about one author's entries, Log/Arrival and
--   Log/Authorship about entries that are taken in, Log/Boundary and Log/Compaction about
--   compaction.
--   * Wire: crates/curfew-sync/src/wire.rs, what two devices send each other and `receive`.
--   Wire/Groups, Wire/Chain and Wire/Batches follow a batch, Wire/Order is about its order,
--   Wire/Exchange about a whole round.
--   * Token: crates/curfew-core/src/token.rs, which tag was scanned. Token/Bits and Token/Scan
--   follow the comparison bit by bit and the loop over the tags.
--   * Mirror: crates/curfew-sync/src/mirror.rs, what the log is told of this device and what is
--   taken back. Mirror holds what is kept between passes and `adopt`, Mirror/Publishing records
--   in the log and runs a whole pass; Mirror/Adoption and Mirror/Dismissal are about taking
--   back, Mirror/Said and Mirror/Settling about recording once. The sessions, usage and launches
--   that `pass` is lent are the record `Local`, and the log with the count of what was written
--   is passed along.
--   * Prelude: Rust's collections, strings and integers as far as the code uses them. Examples:
--   runs on concrete data.
--
-- How values are modelled: an `i64` is a natural number, its distance from `i64::MIN`, so that its
-- order is that of the numbers; sums and differences wrap at 64 bits, as they do in a release
-- build. A `u32`, `u64` or `usize` is a natural number with its wrap written out where it is
-- computed with. A string is the list of its code points, and its bytes are the UTF-8 encoding. A
-- `BTreeSet` or `BTreeMap` is an ascending list over the interface `Ord`, which a type that
-- derives `Ord` fills from a key. A slice from an index on is the rest of a list.
--
-- Fuel: the loop of `glob_match` takes fuel, (p + t + 2) * (t + 1) + p + t + 1 rounds for a
-- pattern of length p and a text of length t. Each round takes a character of the text, or enters
-- a star, or lets the last star eat one character more; the last two happen at most t + 1 times
-- for the same star. The loops of `walk_back`, `local_instant` and `clamp_day` count down as the
-- source's do.
--
-- Parameters: lowercasing beyond ASCII (Prelude/Unicode), with the law that it is the ASCII
-- mapping on ASCII text; the caller's `mint_id` of `reconcile`; the cryptography (Crypto in
-- Device), with the laws that a key pair's public half is a key and verifies what the pair signs;
-- SHA-256 in Token; the canonical bytes of an entry; and dates and time zones (Chrono), with the
-- law that an hour below 24 and a minute below 60 are a time of any day.
--
-- Not modelled: in crates/curfew-core, `upcoming` and `next_change_after` of schedule.rs,
-- statistics, and `warning` of frozen.rs, which only formats a sentence; in crates/curfew-sync,
-- the envelopes, the printed forms of invites and phrases, and the transports, which are sockets
-- and folders; the crates for calendars, the platforms and the user interfaces. Serialisation is
-- derived by a library.
pub mod Prelude
pub mod Lock
pub mod Emergency
pub mod Chrono
pub mod Schedule
pub mod Budget
pub mod Session
pub mod Clock
pub mod Boot
pub mod Proof
pub mod Frozen
pub mod Target
pub mod Domain
pub mod Url
pub mod Glob
pub mod Config
pub mod Engine
pub mod Examples
pub mod Device
pub mod Pair
pub mod Oplog
pub mod Replay
pub mod Log
pub mod Wire
pub mod Mirror
pub mod Token
