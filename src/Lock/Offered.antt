-- ===== src/Lock/Offered.antt =====
-- `offers` of crates/curfew-core/src/lock.rs against the conditions of the lock.
use curfew.Prelude.{◌≡◌, refl, Bool, true, List, [], ◌∷◌, not, ◌&&◌, ◌||◌, arith, is_none, ◌∙◌}
use curfew.Prelude.Lists.{any}
use curfew.Prelude.Order.{list_eq}
use curfew.Prelude.Set
use curfew.Prelude.Set.{mem-filter}
use curfew.Lock.{
  Lock, timer, confirm, device_credential, challenge, peer_release, token, restart_required,
  LockSet, Offers, offers, is_locked, is_confirm, is_device_credential, is_elsewhere, lock_ord,
}

any-is_confirm : (xs : List Lock) → any is_confirm xs ≡ Set.mem confirm xs
unfolding Set.mem list_eq
any-is_confirm [] = refl
any-is_confirm (x ∷ xs) = ground (arith, any-is_confirm xs)

any-is_device_credential :
    (xs : List Lock) → any is_device_credential xs ≡ Set.mem device_credential xs
unfolding Set.mem list_eq
any-is_device_credential [] = refl
any-is_device_credential (x ∷ xs) = ground (arith, any-is_device_credential xs)

-- The route by which an offer accounts for a condition.
abbrev pub shown : Offers → Lock → Bool
shown o timer = true
shown o confirm = o.confirm
shown o device_credential = o.credential
shown o (peer_release d) =
    o.peer_release || (o.peer_released || Set.mem (peer_release d) o.elsewhere)
shown o l = Set.mem l o.elsewhere

-- A locked set offers the delayed release or shows one that is counting down, an unlocked one ends on
-- request; each condition but the timer has its route, and nothing else is listed as elsewhere: only
-- conditions of the set are, and among them neither the timer nor one with a prompt of its own.
pub offers_complete :
    (s : LockSet) (releasable released : Bool)
    → let o = offers s releasable released in
      ((o.delayed_release || not (is_none o.delayed_release_at))
        ≡ (is_locked s || not (is_none s.delayed_release_at)))
      × (o.ends_on_request ≡ not (is_locked s))
      × ((l : Lock) → Set.mem l s.conditions ≡ true → shown o l ≡ true)
      × ((l : Lock) → Set.mem l o.elsewhere ≡ (Set.mem l s.conditions && is_elsewhere releasable l))
unfolding offers is_locked
offers_complete s releasable released =
    (ground arith, ground arith, routes, λ l. mem-filter l (is_elsewhere releasable) s.conditions)
  where
    routes :
        (l : Lock) → Set.mem l s.conditions ≡ true → shown (offers s releasable released) l ≡ true
    routes timer h = refl
    routes confirm h = any-is_confirm s.conditions ∙ h
    routes device_credential h = any-is_device_credential s.conditions ∙ h
    routes (peer_release d) h =
        ground (arith, mem-filter (peer_release d) (is_elsewhere releasable) s.conditions)
    routes (challenge c) h =
        mem-filter (challenge c) (is_elsewhere releasable) s.conditions ∙ ground arith
    routes (token i) h = mem-filter (token i) (is_elsewhere releasable) s.conditions ∙ ground arith
    routes restart_required h =
        mem-filter restart_required (is_elsewhere releasable) s.conditions ∙ ground arith
