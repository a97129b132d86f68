-- ===== src/Mirror/Settling.antt =====
-- `publish` of crates/curfew-sync/src/mirror.rs: what has been said is not said again.
use curfew.Prelude.{ℕ, ◌≡◌, refl, sym, ap, ◌∙◌, ap₂, subst, not, some, List, [], ◌∷◌, inl, inr, map}
use curfew.Prelude.Lists.{filter, length, drop}
use curfew.Prelude.Order.{list_ord}
use curfew.Prelude.Text.{Text}
use curfew.Prelude.I64.{I64}
use curfew.Prelude.Equal.{option_eq, nat_eq}
use curfew.Prelude.Set
use curfew.Prelude.Set.{mem-filter}
use curfew.Prelude.Map
use curfew.Prelude.Map.{BTreeMap, IsSortedMap, get-remove, mem-keys}
use curfew.Prelude.Fill.{
  Holds, HaveOneKey, fill-IsSortedMap, fill-Holds, fill, one_entry, insert-same,
}
use curfew.Lock.{LockSet}
use curfew.Budget.{Consumption, Launches}
use curfew.Session.{Session}
use curfew.Device.{Crypto, Identity}
use curfew.Oplog.{Entry}
use curfew.Log.{Log}
use curfew.Mirror.{Mirror, Local, Published, published_as, gone_ids, or_zero}
use curfew.Mirror.Publishing.{
  publish_sessions, publish_ends, publish_usage, publish_launches, publish, record_used,
  record_launched, start_of, release_op, record_if,
}
use curfew.Mirror.Said.{
  rollups_of, launches_of, key_of, drop-length, start_of-published, unannounced-published,
  said-publish_sessions, said-publish_usage, said-publish_launches, publish_ends-IsSortedMap,
  Holds-publish_ends, gone_ids-publish_ends,
}

-- The session with another lock, whose delayed release is the one that it has.
abbrev pub relocked : (Session → LockSet) → Session → Session
relocked g s = record s { lock = record (g s) { delayed_release_at = s.lock.delayed_release_at } }

abbrev pub all_relocked : (Session → LockSet) → Local → Local
all_relocked g local = record local {
  sessions = record local.sessions { running = map (relocked g) local.sessions.running };
}

map-relocked :
    (g : Session → LockSet) (xs : List Session)
    → map (λ s. s.id) (map (relocked g) xs) ≡ map (λ s. s.id) xs
map-relocked g [] = refl
map-relocked g (x ∷ xs) = ap (λ z. x.id ∷ z) (map-relocked g xs)

Holds-relocked :
    (g : Session → LockSet) (xs : List Session) (said : BTreeMap Text Published)
    → Holds (λ s. s.id) published_as xs said
    → Holds (λ s. s.id) published_as (map (relocked g) xs) said
Holds-relocked g [] said held a i = absurd i
Holds-relocked g (x ∷ xs) said held a (inl e) =
    subst (λ z. Map.get z.id said ≡ some (published_as z)) (sym e) (held x (inl refl))
Holds-relocked g (x ∷ xs) said held a (inr i) = Holds-relocked g xs said (λ b j. held b (inr j)) a i

gone_ids-relocked :
    (g : Session → LockSet) (said : BTreeMap Text Published) (local : Local)
    → gone_ids said (all_relocked g local).sessions ≡ gone_ids said local.sessions
gone_ids-relocked g said local =
    ap (λ ids. filter (λ key. not (Set.mem key (Set.from_list ids))) (map (λ e. e.0) said))
      (map-relocked g local.sessions.running)

-- The maps of the mirror and of the device are maps, and no two sessions have one id.
pub record IsWellFormed (m : Mirror) (local : Local) : Type 0 where
  pub sessions : IsSortedMap m.sessions
  pub said_usage : IsSortedMap m.usage
  pub said_launches : IsSortedMap m.launches
  pub usage : IsSortedMap local.usage
  pub launches : IsSortedMap local.launches
  pub one_id : HaveOneKey (λ s. s.id) published_as local.sessions.running

module _ {K X : Type 0} (crypto : Crypto K X) (canonical : Entry → List ℕ) (me : Identity K X) where
  silent-publish_sessions :
      (now : I64) (xs : List Session) (said : BTreeMap Text Published) (out : Log × ℕ)
      → IsSortedMap said
      → Holds (λ s. s.id) published_as xs said
      → publish_sessions crypto canonical me now xs (said, out) ≡ (said, out)
  unfolding publish_sessions
  silent-publish_sessions now [] said out h held = refl
  silent-publish_sessions now (s ∷ xs) said out h held =
      ap₂ (λ m w. publish_sessions crypto canonical me now xs (m, w))
        (insert-same s.id (published_as s) said h (held s (inl refl)))
        (ap
            (λ k.
              record_if crypto canonical me now (release_op crypto canonical me k s)
                (record_if crypto canonical me now (start_of crypto canonical me k s) out))
            (held s (inl refl))
          ∙ rw (start_of-published s, unannounced-published s))
      ∙ silent-publish_sessions now xs said out h (λ a i. held a (inr i))

  silent-publish_usage :
      (now : I64) (xs : BTreeMap Text Consumption) (said : BTreeMap Text ℕ) (out : Log × ℕ)
      → IsSortedMap said
      → Holds key_of rollups_of xs said
      → publish_usage crypto canonical me now xs (said, out) ≡ (said, out)
  unfolding publish_usage record_used
  silent-publish_usage now [] said out h held = refl
  silent-publish_usage now ((key, c) ∷ xs) said out h held =
      ap₂ (λ m w. publish_usage crypto canonical me now xs (m, w))
        (insert-same key (length c.rollups) said h (held (key, c) (inl refl)))
        (ap (λ k. record_used crypto canonical me now key (drop (or_zero k) c.rollups) out)
            (held (key, c) (inl refl))
          ∙ ap (λ z. record_used crypto canonical me now key z out) (drop-length c.rollups))
      ∙ silent-publish_usage now xs said out h (λ a i. held a (inr i))

  silent-publish_launches :
      (now : I64) (xs : BTreeMap Text Launches) (said : BTreeMap Text ℕ) (out : Log × ℕ)
      → IsSortedMap said
      → Holds key_of launches_of xs said
      → publish_launches crypto canonical me now xs (said, out) ≡ (said, out)
  unfolding publish_launches record_launched
  silent-publish_launches now [] said out h held = refl
  silent-publish_launches now ((key, c) ∷ xs) said out h held =
      ap₂ (λ m w. publish_launches crypto canonical me now xs (m, w))
        (insert-same key (length c.at) said h (held (key, c) (inl refl)))
        (ap (λ k. record_launched crypto canonical me now key (drop (or_zero k) c.at) out)
            (held (key, c) (inl refl))
          ∙ ap (λ z. record_launched crypto canonical me now key z out) (drop-length c.at))
      ∙ silent-publish_launches now xs said out h (λ a i. held a (inr i))

  settled :
      (later : I64) (m : Mirror) (log : Log) (local : Local)
      → publish_sessions crypto canonical me later local.sessions.running (m.sessions, (log, 0))
        ≡ (m.sessions, (log, 0))
      → gone_ids m.sessions local.sessions ≡ []
      → publish_usage crypto canonical me later local.usage (m.usage, (log, 0))
        ≡ (m.usage, (log, 0))
      → publish_launches crypto canonical me later local.launches (m.launches, (log, 0))
        ≡ (m.launches, (log, 0))
      → publish crypto canonical me later m log local ≡ (m, (log, 0))
  unfolding publish publish_ends
  settled later m log local e f g h = rw (e, f, g, h)

  publish_sessions-Holds :
      (now : I64) (running : List Session) (said : BTreeMap Text Published) (out : Log × ℕ)
      → IsSortedMap said
      → HaveOneKey (λ s. s.id) published_as running
      → let said' = (publish_sessions crypto canonical me now running (said, out)).0 in
        IsSortedMap said' × Holds (λ s. s.id) published_as running said'
  publish_sessions-Holds now running said out h one =
      rw (said-publish_sessions crypto canonical me now running said out) (
        fill-IsSortedMap (λ s. s.id) published_as running said h,
        fill-Holds (λ s. s.id) published_as running said one,
      )

  usage-settles :
      (now later : I64) (xs : BTreeMap Text Consumption) (said : BTreeMap Text ℕ)
      (out out' : Log × ℕ)
      → IsSortedMap said
      → IsSortedMap xs
      → let said' = (publish_usage crypto canonical me now xs (said, out)).0 in
        publish_usage crypto canonical me later xs (said', out') ≡ (said', out')
  usage-settles now later xs said out out' h k =
      rw (said-publish_usage crypto canonical me now xs said out) (
        silent-publish_usage later xs (fill key_of rollups_of xs said) out'
          (fill-IsSortedMap key_of rollups_of xs said h)
          (fill-Holds key_of rollups_of xs said (one_entry xs k)))

  launches-settle :
      (now later : I64) (xs : BTreeMap Text Launches) (said : BTreeMap Text ℕ) (out out' : Log × ℕ)
      → IsSortedMap said
      → IsSortedMap xs
      → let said' = (publish_launches crypto canonical me now xs (said, out)).0 in
        publish_launches crypto canonical me later xs (said', out') ≡ (said', out')
  launches-settle now later xs said out out' h k =
      rw (said-publish_launches crypto canonical me now xs said out) (
        silent-publish_launches later xs (fill key_of launches_of xs said) out'
          (fill-IsSortedMap key_of launches_of xs said h)
          (fill-Holds key_of launches_of xs said (one_entry xs k)))

  -- Everything is said once, and a lock is not said again when it changes: after a pass, whatever the
  -- locks of the sessions are replaced by, except for their delayed releases, and where nothing else
  -- changed, another one at any time records nothing and leaves the log and the mirror as they are,
  -- from maps whose keys ascend and sessions with distinct ids.
  pub publish-settles :
      (now later : I64) (m : Mirror) (log : Log) (local : Local) (g : Session → LockSet)
      → IsWellFormed m local
      → let (m1, (log1, wrote)) = publish crypto canonical me now m log local in
        publish crypto canonical me later m1 log1 (all_relocked g local) ≡ (m1, (log1, 0))
  unfolding publish
  publish-settles now later m log local g valid =
      let running = local.sessions.running in
      let (said1, out1) = publish_sessions crypto canonical me now running (m.sessions, (log, 0)) in
      let gone = gone_ids said1 local.sessions in
      let (said2, out2) = publish_ends crypto canonical me now gone (said1, out1) in
      let (usage, out3) = publish_usage crypto canonical me now local.usage (m.usage, out2) in
      let (launches, out4) =
        publish_launches crypto canonical me now local.launches (m.launches, out3) in
      let (sorted, held) =
        publish_sessions-Holds now running m.sessions (log, 0) valid.sessions valid.one_id in
      let m1 : Mirror = record m { sessions = said2; usage = usage; launches = launches } in
      settled later m1 out4.0 (all_relocked g local)
        (silent-publish_sessions later (map (relocked g) running) said2 (out4.0, 0)
          (publish_ends-IsSortedMap crypto canonical me now gone said1 out1 sorted)
          (Holds-relocked g running said2
            (Holds-publish_ends crypto canonical me now local.sessions said1 out1 held)))
        (gone_ids-relocked g said2 local
          ∙ gone_ids-publish_ends crypto canonical me now local.sessions said1 out1)
        (usage-settles now later local.usage m.usage out2 (out4.0, 0) valid.said_usage valid.usage)
        (launches-settle now later local.launches m.launches out3 (out4.0, 0) valid.said_launches
          valid.launches)
