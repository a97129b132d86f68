-- ===== src/Examples/Mirrors.antt =====
-- Examples of crates/curfew-sync/src/mirror.rs: what a pass records and what it takes back.
use curfew.Prelude.{arith, subst, ℕ, ◌≡◌, refl, sym, ◌∙◌, true, List, [], ◌∷◌, inl, inr}
use curfew.Prelude.Lists.{All, In, sort_by, insert_by}
use curfew.Prelude.Order.{list_ord, list_eq, list_lt}
use curfew.Prelude.Text.{codes}
use curfew.Prelude.Map
use curfew.Prelude.Set
use curfew.Lock.{token, can_release, is_expired, is_locked}
use curfew.Prelude.Result.{ok}
use curfew.Session
use curfew.Session.{Session, Sessions, dismissal_covers}
use curfew.Session.Distinct.{Free, IsValid}
use curfew.Device
use curfew.Device.{Identity}
use curfew.Replay
use curfew.Replay.{Replay}
use curfew.Replay.Promises.{StandsFor, is_pending}
use curfew.Log
use curfew.Log.{Log}
use curfew.Mirror
use curfew.Mirror.{Mirror, Local, adopt_replay}
use curfew.Mirror.Adoption.{pass-keeps_locked}
use curfew.Mirror.Dismissal.{IsSameSpan, adopt-leaves_ended}
use curfew.Mirror.Publishing.{
  publish, pass, publish_sessions, publish_ends, publish_usage, publish_launches, record_op,
  record_used,
}
use curfew.Mirror.Settling.{IsWellFormed, all_relocked, publish-settles}
use curfew.Examples.Data.{two_running, morning, noon, evening, work, focus, token_lock}
use curfew.Examples.Devices.{toy, toy_canonical, pc, short_log}

abbrev phone : Identity (List ℕ) (List ℕ)
phone = record { name = codes "phone"; signing = 9 ∷ []; exchange = 8 ∷ [] }

abbrev local : Local
local = record {
  sessions = record { running = focus ∷ []; dismissed = [] };
  usage = (codes "app", record { rollups = record { at = morning; seconds = 60 } ∷ [] }) ∷ [];
  launches = [];
}

-- A start, and a minute of use.
recorded_run : (publish toy toy_canonical phone noon Mirror.default Log.empty local).1.1 ≡ 2
unfolding publish publish_sessions publish_ends publish_usage publish_launches record_op record_used
    list_eq Map.get Map.insert Set.mem Set.from_list Set.union Set.insert
recorded_run = refl

local-IsWellFormed : IsWellFormed Mirror.default local
local-IsWellFormed = record {
  sessions = tt;
  said_usage = tt;
  said_launches = tt;
  usage = (tt, tt);
  launches = tt;
  one_id = λ a b i j e. elim i [
    | inl p ↦ elim j [ inl q ↦ p ∙ sym q | inr k ↦ absurd k ]
    | inr k ↦ absurd k
  ];
}

-- Afterwards the lock that was said is not the one that holds.
publish-settles_example :
    let (m1, (log1, wrote)) = publish toy toy_canonical phone noon Mirror.default short_log local in
    publish toy toy_canonical phone evening m1 log1 (all_relocked (λ s. token_lock) local)
    ≡ (m1, (log1, 0))
publish-settles_example =
    publish-settles toy toy_canonical phone noon evening Mirror.default short_log local
      (λ s. token_lock) local-IsWellFormed

-- What the log is replayed into once what happened here is recorded.
abbrev believed : Replay
believed =
    Log.replay (publish toy toy_canonical phone evening Mirror.default short_log local).1.0 evening

pending : All (λ s. is_pending s.lock evening ≡ true) believed.sessions.running
unfolding publish publish_sessions publish_ends publish_usage publish_launches record_op record_used
    list_eq list_lt Map.get Map.insert Set.mem Set.from_list Set.union Set.insert Log.replay
    Log.append Log.head Device.id Device.device_id Device.base32 Device.base32_from Device.drain
    Replay.fold Replay.apply Session.start Session.sort_by_id Session.insert_by_id sort_by insert_by
pending = (refl, (refl, tt))

pass-keeps_locked_example :
    (e' : Session) × In e'
      (pass toy toy_canonical phone evening short_log [] Mirror.default local).2.sessions.running
    × StandsFor evening e' focus
unfolding is_locked is_expired
pass-keeps_locked_example =
    pass-keeps_locked toy toy_canonical phone evening short_log [] Mirror.default local pending
      focus (inl refl) refl

-- The device's user ends the work session with its tag, and a peer still runs it.
abbrev before : Local
before = record { sessions = two_running; usage = []; launches = [] }

abbrev peers_view : Replay
peers_view = record Replay.default { sessions = record { running = work ∷ []; dismissed = [] } }

before-IsValid : IsValid before.sessions
unfolding list_eq
before-IsValid = ((refl, tt), (tt, tt))

released_run :
    (Session.end before.sessions (codes "s1") morning (token (codes "fridge") ∷ [])).1 ≡ ok work
unfolding Session.end can_release is_expired Set.is_subset Set.mem list_eq
released_run = refl

of_work :
    (b : Session)
    → In b peers_view.sessions.running
    → b.profile ≡ work.profile
    → IsSameSpan work [] b
of_work b i p = elim i [
  | inl e ↦ subst (IsSameSpan work []) (sym e) (inl (noon, refl, refl, omega arith, omega arith))
  | inr k ↦ absurd k
]

adopt-leaves_ended_example :
    let after = record before {
      sessions = (Session.end before.sessions (codes "s1") morning (token (codes "fridge") ∷ [])).0;
    } in
    Free work.profile (adopt_replay pc peers_view noon [] Mirror.default after).1.sessions.running
adopt-leaves_ended_example =
    adopt-leaves_ended before (codes "s1") morning (token (codes "fridge") ∷ []) work before-IsValid
      released_run pc peers_view noon [] Mirror.default of_work
