-- ===== src/Examples/Replays.antt =====
-- Examples of crates/curfew-sync/src/oplog.rs: what replaying and compacting give.
use curfew.Prelude.{◌+◌, arith, inl, inr, ◌≡◌, refl, true, some, none, List, [], ◌∷◌}
use curfew.Prelude.Lists.{find, In}
use curfew.Prelude.Order.{list_ord, list_eq}
use curfew.Prelude.Text.{codes}
use curfew.Prelude.I64.{I64}
use curfew.Lock.{is_expired, is_locked}
use curfew.Session.{Session, has_profile}
use curfew.Oplog.{Op, Entry, genesis}
use curfew.Replay
use curfew.Replay.{Replay, holds, apply, fold}
use curfew.Replay.Promises.{StandsFor, fold-keeps_locked, start-opens_lock}
use curfew.Log.{Log, head, replay, compact}
use curfew.Log.Compaction.{Agrees, replay-compact}
use curfew.Examples.Data.{morning, noon, evening, focus, two_running}
use curfew.Examples.Devices.{toy, toy_canonical, pc, first, second, long_log}

abbrev two_held : Replay
two_held = record Replay.default { sessions = two_running }

abbrev by_pc : I64 → Op → Entry
by_pc at op = record { author = pc; seq = 1; prev = genesis; at = at; op = op }

-- A peer ends what is locked here, and asks for a release that would have landed.
abbrev asked : List Entry
asked =
    by_pc morning (Op.end (codes "s2"))
    ∷ by_pc morning (Op.release_requested (codes "s2") morning)
    ∷ by_pc morning (Op.start focus)
    ∷ []

fold-keeps_locked_example :
    (e' : Session) × In e' (fold two_held asked evening).sessions.running
    × StandsFor evening e' focus
unfolding is_locked is_expired
fold-keeps_locked_example =
    fold-keeps_locked evening two_held asked (tt, (refl, (refl, tt))) focus (inr (inl refl)) refl

-- The session that runs, with a release that has landed.
abbrev opened : Session
opened = record focus { lock = record focus.lock { delayed_release_at = some morning } }

start-opens_lock_example :
    (x : Session) × (find
        (has_profile opened.profile)
        (apply two_held (by_pc morning (Op.start opened)) evening).sessions.running
      ≡ some x)
    × (x.id ≡ focus.id)
    × (is_expired x.lock evening ≡ true)
unfolding is_expired is_locked list_eq
start-opens_lock_example =
    start-opens_lock evening two_held (by_pc morning (Op.start opened)) focus opened refl refl refl
      refl

-- A minute after the compaction; no session was ended before the boundary.
replay-compact_example :
    Agrees
      (replay (compact toy toy_canonical long_log noon evening) (evening + 60))
      (replay long_log (evening + 60))
replay-compact_example =
    replay-compact toy toy_canonical long_log noon evening (evening + 60)
      (inr (omega arith, omega arith, (λ h. refl, (λ h. refl, tt))))

-- Entries of a device whose clock went back between them. Compaction drops the second one, after
-- which the next entry gets its number again.
abbrev back_log : Log
back_log = record {
  entries =
      ((pc, 1), record first { entry = record first.entry { at = noon } })
      ∷ ((pc, 2), record second { entry = record second.entry { at = morning } })
      ∷ [];
  checkpoint = none;
}

head_run : (head toy toy_canonical back_log pc).0 ≡ 2
unfolding head list_eq
head_run = refl

compacted_head_run :
    (head toy toy_canonical (compact toy toy_canonical back_log noon evening) pc).0 ≡ 1
unfolding head compact list_eq
compacted_head_run = refl
