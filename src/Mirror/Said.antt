-- ===== src/Mirror/Said.antt =====
-- `publish` of crates/curfew-sync/src/mirror.rs: what the mirror remembers as said.
use curfew.Prelude.{
  ℕ, ◌≡◌, refl, ap, ◌∙◌, Bool, true, false, not, none, some, List, [], ◌∷◌, inl, inr, arith,
  is_none, if◌then◌else◌, map, ◌&&◌, ◌||◌, Bool-ext, Option,
}
use curfew.Prelude.Lists.{In, filter, length, drop}
use curfew.Prelude.Order
use curfew.Prelude.Order.{list_ord, list_eq, list_eq→eq, list_eq_refl}
use curfew.Prelude.Text.{Text}
use curfew.Prelude.I64.{I64}
use curfew.Prelude.Equal.{option_eq, nat_eq}
use curfew.Prelude.Set
use curfew.Prelude.Set.{mem-filter}
use curfew.Prelude.Map
use curfew.Prelude.Map.{BTreeMap, IsSortedMap, get-remove, mem-keys}
use curfew.Prelude.Fill.{Holds, fill, remove-IsSortedMap}
use curfew.Budget.{Consumption, Launches}
use curfew.Session.{Session, Sessions}
use curfew.Device.{Crypto, Identity}
use curfew.Oplog.{Op, Entry}
use curfew.Log.{Log}
use curfew.Mirror.{Published, published_as, gone_ids, unannounced, or_zero, is_fresh}
use curfew.Mirror.Publishing.{
  publish_sessions, publish_ends, publish_usage, publish_launches, record_used, record_launched,
  start_of, release_op, record_if, record_op,
}

abbrev pub rollups_of : Text × Consumption → ℕ
rollups_of e = length e.1.rollups

abbrev pub launches_of : Text × Launches → ℕ
launches_of e = length e.1.at

abbrev pub key_of : {V : Type 0} → Text × V → Text
key_of e = e.0

pub drop-length : {A : Type 0} (xs : List A) → drop (length xs) xs ≡ []
drop-length [] = refl
drop-length (x ∷ xs) = drop-length xs

filter_nothing :
    (p : Text → Bool) (xs : List Text)
    → ((k : Text) → Set.mem k xs ≡ true → p k ≡ false)
    → filter p xs ≡ []
unfolding Set.mem
filter_nothing p [] h = refl
filter_nothing p (x ∷ xs) h =
    rw (h x (ground (arith, Order.beq_refl x)))
      (filter_nothing p xs (λ k e. h k (ground (arith, e))))

mem_id : (a : Session) (xs : List Session) → In a xs → Set.mem a.id (map (λ s. s.id) xs) ≡ true
unfolding Set.mem
mem_id a [] i = absurd i
mem_id a (x ∷ xs) (inl e) = ground (arith, Order.beq_refl x.id, ap (λ s. s.id) e)
mem_id a (x ∷ xs) (inr i) = ground (arith, mem_id a xs i)

abbrev pub running_ids : Sessions → List Text
running_ids s = Set.from_list (map (λ x. x.id) s.running)

mem-gone_ids :
    (k : Text) (said : BTreeMap Text Published) (s : Sessions)
    → Set.mem k (gone_ids said s)
      ≡ (not (is_none (Map.get k said)) && not (Set.mem k (running_ids s)))
mem-gone_ids k said s =
    mem-filter k (λ key. not (Set.mem key (running_ids s))) (map (λ e. e.0) said)
    ∙ ap (λ z. z && not (Set.mem k (running_ids s))) (mem-keys k said)

running-mem : (a : Session) (s : Sessions) → In a s.running → Set.mem a.id (running_ids s) ≡ true
unfolding Set.from_list Set.mem
running-mem a s i =
    ground (arith, Set.mem-union a.id (map (λ x. x.id) s.running) [], mem_id a s.running i)

-- A session that was published as it is has nothing to record.
pub start_of-published : (s : Session) → is_fresh (some (published_as s)) s ≡ false
start_of-published s = ground (arith, Order.list_eq_refl s.profile)

pub unannounced-published : (s : Session) → unannounced (some (published_as s)) s ≡ none
unannounced-published s =
    rw ((option_eq.same_iff s.lock.delayed_release_at s.lock.delayed_release_at).1 refl)

module _ {K X : Type 0} (crypto : Crypto K X) (canonical : Entry → List ℕ) (me : Identity K X) where
  pub said-publish_sessions :
      (now : I64) (xs : List Session) (said : BTreeMap Text Published) (out : Log × ℕ)
      → (publish_sessions crypto canonical me now xs (said, out)).0
        ≡ fill (λ s. s.id) published_as xs said
  unfolding publish_sessions fill
  said-publish_sessions now [] said out = refl
  said-publish_sessions now (s ∷ xs) said out =
      let known = Map.get s.id said in
      said-publish_sessions now xs (Map.insert s.id (published_as s) said) (
        record_if crypto canonical me now (release_op crypto canonical me known s)
          (record_if crypto canonical me now (start_of crypto canonical me known s) out))

  pub said-publish_usage :
      (now : I64) (xs : BTreeMap Text Consumption) (said : BTreeMap Text ℕ) (out : Log × ℕ)
      → (publish_usage crypto canonical me now xs (said, out)).0 ≡ fill key_of rollups_of xs said
  unfolding publish_usage fill
  said-publish_usage now [] said out = refl
  said-publish_usage now ((key, c) ∷ xs) said out =
      said-publish_usage now xs (Map.insert key (length c.rollups) said)
        (record_used crypto canonical me now key (drop (or_zero (Map.get key said)) c.rollups) out)

  pub said-publish_launches :
      (now : I64) (xs : BTreeMap Text Launches) (said : BTreeMap Text ℕ) (out : Log × ℕ)
      → (publish_launches crypto canonical me now xs (said, out)).0
        ≡ fill key_of launches_of xs said
  unfolding publish_launches fill
  said-publish_launches now [] said out = refl
  said-publish_launches now ((key, c) ∷ xs) said out =
      said-publish_launches now xs (Map.insert key (length c.at) said)
        (record_launched crypto canonical me now key (drop (or_zero (Map.get key said)) c.at) out)

  get-publish_ends :
      (now : I64) (k : Text) (ids : List Text) (said : BTreeMap Text Published) (out : Log × ℕ)
      → Map.get k (publish_ends crypto canonical me now ids (said, out)).0
        ≡ (if Set.mem k ids then none else Map.get k said)
  unfolding publish_ends Set.mem
  get-publish_ends now k [] said out = refl
  get-publish_ends now k (id ∷ ids) said out =
      get-publish_ends now k ids (Map.remove id said)
        (record_op crypto canonical me now (Op.end id) out)
      ∙ ends (Set.mem k ids) (Map.get k said) (get-remove id k said)
    where
      same_test : list_eq id k ≡ list_eq k id
      same_test =
          Bool-ext (list_eq id k) (list_eq k id)
            (λ e. ground (arith, list_eq→eq id k e, list_eq_refl id))
            (λ e. ground (arith, list_eq→eq k id e, list_eq_refl k))

      ends :
          (b : Bool) (o : Option Published) {r : Option Published}
          → r ≡ (if list_eq id k then none else o)
          → (if b then none else r) ≡ (if list_eq k id || b then none else o)
      ends b o e = ground (arith, e, same_test)

  pub publish_ends-IsSortedMap :
      (now : I64) (ids : List Text) (said : BTreeMap Text Published) (out : Log × ℕ)
      → IsSortedMap said
      → IsSortedMap (publish_ends crypto canonical me now ids (said, out)).0
  unfolding publish_ends
  publish_ends-IsSortedMap now [] said out h = h
  publish_ends-IsSortedMap now (id ∷ ids) said out h =
      publish_ends-IsSortedMap now ids (Map.remove id said)
        (record_op crypto canonical me now (Op.end id) out) (remove-IsSortedMap id said h)

  -- Of the sessions that run, none is forgotten by announcing the ends.
  pub Holds-publish_ends :
      (now : I64) (s : Sessions) (said : BTreeMap Text Published) (out : Log × ℕ)
      → Holds (λ x. x.id) published_as s.running said
      → Holds
          (λ x. x.id)
          published_as
          s.running
          (publish_ends crypto canonical me now (gone_ids said s) (said, out)).0
  Holds-publish_ends now s said out held a i =
      get-publish_ends now a.id (gone_ids said s) said out
      ∙ rw (mem-gone_ids a.id said s, running-mem a s i) (ground (arith, held a i))

  -- Once the ends are announced, nothing is left to announce.
  pub gone_ids-publish_ends :
      (now : I64) (s : Sessions) (said : BTreeMap Text Published) (out : Log × ℕ)
      → gone_ids (publish_ends crypto canonical me now (gone_ids said s) (said, out)).0 s ≡ []
  gone_ids-publish_ends now s said out =
      let left = (publish_ends crypto canonical me now (gone_ids said s) (said, out)).0 in
      filter_nothing (λ key. not (Set.mem key (running_ids s))) (map (λ e. e.0) left)
        λ k e. ground (
          arith,
          e,
          mem-keys k left,
          get-publish_ends now k (gone_ids said s) said out,
          mem-gone_ids k said s,
        )
