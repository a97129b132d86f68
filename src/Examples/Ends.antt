-- ===== src/Examples/Ends.antt =====
-- Examples of crates/curfew-core/src/session.rs: ending, starting and reconciling.
use curfew.Prelude.{
  ℕ, suc, ◌-◌, ◌≡◌, ◌≢◌, ◌≤◌, ◌↔◌, refl, false, not, ◌&&◌, none, some, List, [], ◌∷◌, inl, inr,
  arith,
}
use curfew.Prelude.Lists.{find, remove_first, In}
use curfew.Prelude.Order.{list_ord, list_eq}
use curfew.Prelude.Text.{Text, codes}
use curfew.Prelude.I64.{I64}
use curfew.Prelude.Set
use curfew.Prelude.Set.{BTreeSet}
use curfew.Prelude.Map
use curfew.Prelude.Result.{ok, err}
use curfew.Lock.{Lock, lock_ord, token, device_credential, can_release, is_expired}
use curfew.Emergency.{Pass}
use curfew.Schedule
use curfew.Schedule.{Activation}
use curfew.Session.{
  Session, Sessions, Refusal, locked, has_id, end, end_with_pass, clamped_into, start, reconcile,
  is_dismissed, restore_without_weakening, request_release, reap,
}
use curfew.Session.Ending.{Covers, end_exact}
use curfew.Lock.Freeing.{LetsGo}
use curfew.Session.Distinct.{IsValid, Free, operations-keep_profiles_distinct}
use curfew.Session.Keeping.{Keeps, reconcile-Keeps}
use curfew.Session.Reconcile.{ended_stays_ended}
use curfew.Session.Due.{Guarded, reconcile-starts_what_is_due}
use curfew.Examples.Data.{two_running, work, weekdays, bedtime, morning, noon, evening}

abbrev mint : ℕ → Activation → Text × ℕ
mint n a = (n ∷ a.profile, suc n)

abbrev the_tag : BTreeSet Lock
the_tag = token (codes "fridge") ∷ []

released_by_tag : (end two_running (codes "s1") evening the_tag).1 ≡ ok work
unfolding end can_release is_expired list_eq
released_by_tag = refl

-- Ended at evening, past its end, the dismissal is pulled back into the span.
dismissed_at :
    (end two_running (codes "s1") evening the_tag).0.dismissed ≡ (codes "work", noon - 1) ∷ []
unfolding end can_release is_expired clamped_into list_eq Map.insert
dismissed_at = refl

held_without :
    (end two_running (codes "s2") noon the_tag).1 ≡ err (locked (device_credential ∷ []) none none)
unfolding end can_release is_expired Set.is_subset Set.difference Set.mem list_eq
held_without = refl

two_running-IsValid : IsValid two_running
unfolding list_eq
two_running-IsValid = ((refl, tt), (tt, tt))

covered :
    (a : Activation) → In a (weekdays ∷ bedtime ∷ []) → a.profile ≡ work.profile → Covers work a
covered a (inl q) p = rw q (record {
  profile = refl;
  start = omega arith;
  end = λ e h. ground (arith, h);
  bounded = λ h. cc h;
})
covered a (inr (inl q)) p = absurd (cc (q, p))
covered a (inr (inr m)) p = absurd m

ended_stays_ended_example :
    Free work.profile
      (reconcile mint noon
        (end two_running (codes "s1") evening the_tag).0
        0
        (weekdays ∷ bedtime ∷ [])).0.running
ended_stays_ended_example =
    ended_stays_ended mint two_running (codes "s1") evening the_tag work two_running-IsValid
      released_by_tag 0 noon (weekdays ∷ bedtime ∷ []) covered

end_exact_example :
    let s = two_running in
    let id = codes "s1" in
    let now = morning in
    let satisfied = the_tag in
    ((x : Session)
      → ((end s id now satisfied).1 ≡ ok x)
        ↔ ((find (has_id id) s.running ≡ some x) × LetsGo x.lock now satisfied))
    × ((x : Session)
        → (end s id now satisfied).1 ≡ ok x
        → ((end s id now satisfied).0.running ≡ remove_first (has_id id) s.running)
          × ((at : I64) × (Map.get x.profile (end s id now satisfied).0.dismissed ≡ some at)
              × (x.started_at ≤ at)))
    × ((r : Refusal) → (end s id now satisfied).1 ≡ err r → (end s id now satisfied).0 ≡ s)
    × ((x : Session)
        → find (has_id id) s.running ≡ some x
        → ¬ LetsGo x.lock now satisfied
        → (missing : BTreeSet Lock) × ((end s id now satisfied).1
            ≡ err (locked missing x.lock.ends_at x.lock.delayed_release_at))
          × (missing ≢ [])
          × ((l : Lock)
              → Set.mem l missing ≡ (Set.mem l x.lock.conditions && not (Set.mem l satisfied))))
end_exact_example = end_exact two_running (codes "s1") morning the_tag

reconcile-Keeps_example :
    Keeps two_running (reconcile mint noon two_running 0 (weekdays ∷ bedtime ∷ [])).0
reconcile-Keeps_example = reconcile-Keeps mint noon two_running 0 (weekdays ∷ bedtime ∷ [])

bedtime_alive : is_dismissed two_running bedtime ≡ false
unfolding is_dismissed Map.get
bedtime_alive = refl

reconcile-starts_what_is_due_example :
    Guarded bedtime.profile
      (Schedule.lock bedtime)
      (reconcile mint noon two_running 0 (weekdays ∷ bedtime ∷ [])).0.running
reconcile-starts_what_is_due_example =
    reconcile-starts_what_is_due mint noon two_running 0 (weekdays ∷ bedtime ∷ []) bedtime
      (refl, (refl, tt)) (inr (inl refl)) (omega arith) bedtime_alive

operations-keep_profiles_distinct_example :
    let s = two_running in
    ((new : Session) → IsValid (start s new))
    × ((incoming : Sessions) → IsValid (restore_without_weakening s incoming))
    × ((id : Text) (now : I64) (satisfied : BTreeSet Lock) → IsValid (end s id now satisfied).0)
    × ((id : Text) (now : I64) (pass : Pass) → IsValid (end_with_pass s id now pass).0)
    × ((id : Text) (now : I64) → IsValid (request_release s id now).0)
    × ((now : I64) → IsValid (reap s now).0)
    × ((now : I64) (m : ℕ) (activations : List Activation)
        → IsValid (reconcile mint now s m activations).0)
operations-keep_profiles_distinct_example =
    operations-keep_profiles_distinct mint two_running two_running-IsValid
