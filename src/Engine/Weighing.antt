-- ===== src/Engine/Weighing.antt =====
-- What one rule adds to the variables of `decide` of crates/curfew-core/src/engine.rs.
use curfew.Prelude.{
  ℕ, ◌≡◌, refl, sym, Bool, true, false, not, ◌&&◌, ◌||◌, Option, none, some, leb, if◌then◌else◌,
  is_none, arith, Bool-cases, inl, inr,
}
use curfew.Prelude.Text.{Text}
use curfew.Prelude.I64.{I64}
use curfew.Prelude.Unicode.{Unicode}
use curfew.Chrono.{Chrono}
use curfew.Target.{Target}
use curfew.Config.{Action, allow_only, budget, launch_limit, mute_notifications}
use curfew.Engine
use curfew.Engine.{
  State, Decision, BlockReason, Tally, allow, block, delay, mute, applies_to, nothing,
  get_or_insert, longer, zone, budget_used, times_opened, weigh, weigh_rules, weigh_profile,
  weigh_profiles, resolve, is_idle, decide,
}
use curfew.Engine.Asked.{
  blocks_action, lists_action, mutes_action, wait_action, longest, longest-none, spent_action,
}

inserted {ℓ} : {A : Type ℓ} (o : Option A) (a : A) → is_none (get_or_insert o a) ≡ false
inserted none a = refl
inserted (some b) a = refl

-- What one more rule adds.
pub record Grows (t u : Tally) (b s l a m : Bool) (w : Option ℕ) : Type 0 where
  pub blocks_more : not (is_none u.blocked) ≡ (not (is_none t.blocked) || b)
  pub spent_more :
      (not (is_none u.budget_spent) || not (is_none u.launches_spent))
      ≡ ((not (is_none t.budget_spent) || not (is_none t.launches_spent)) || s)
  pub lists_more : not (is_none u.allow_only) ≡ (not (is_none t.allow_only) || l)
  pub allows_more : u.allowlisted ≡ (t.allowlisted || a)
  pub mutes_more : u.mute ≡ (t.mute || m)
  pub waits_more : u.delay ≡ longest t.delay w

Grows-refl : (t : Tally) → Grows t t false false false false false none
Grows-refl t = record {
  blocks_more = ground arith;
  spent_more = ground arith;
  lists_more = ground arith;
  allows_more = ground arith;
  mutes_more = ground arith;
  waits_more = sym (longest-none t.delay);
}

longer-longest : (d : Option ℕ) (s : ℕ) → some (longer d s) ≡ longest d (some s)
longer-longest none s = refl
longer-longest (some d) s = refl

module _ {Tz Date Local : Type 0} (chrono : Chrono Tz Date Local) (unicode : Unicode) where
  module _ (now : I64) (tz : Tz) (state : State) where
    pub weigh-Grows :
        (id : Text) (hit : Bool) (target : Target) (a : Action) (t : Tally)
        → Grows t
            (weigh chrono unicode now tz state id hit target a t)
            (hit && blocks_action a)
            (hit && spent_action chrono unicode now tz state target a)
            (lists_action a)
            (hit && lists_action a)
            (hit && mutes_action a)
            (if hit then wait_action a else none)
    unfolding weigh
    weigh-Grows id true target Action.block t = record {
      blocks_more = rw (inserted t.blocked (Engine.blocked id)) (ground arith);
      spent_more = ground arith;
      lists_more = ground arith;
      allows_more = ground arith;
      mutes_more = ground arith;
      waits_more = sym (longest-none t.delay);
    }
    weigh-Grows id false target Action.block t = Grows-refl t
    weigh-Grows id true target allow_only t = record {
      blocks_more = ground arith;
      spent_more = ground arith;
      lists_more = rw (inserted t.allow_only id) (ground arith);
      allows_more = ground arith;
      mutes_more = ground arith;
      waits_more = sym (longest-none t.delay);
    }
    weigh-Grows id false target allow_only t = record {
      blocks_more = ground arith;
      spent_more = ground arith;
      lists_more = rw (inserted t.allow_only id) (ground arith);
      allows_more = ground arith;
      mutes_more = ground arith;
      waits_more = sym (longest-none t.delay);
    }
    weigh-Grows id true target (budget seconds refill) t =
        elim (Bool-cases (leb seconds (budget_used chrono unicode now tz state target refill))) [
          | inl e ↦ rw e (record {
            blocks_more = ground arith;
            spent_more =
                rw (inserted t.budget_spent (Engine.budget_exhausted id seconds)) (ground arith);
            lists_more = ground arith;
            allows_more = ground arith;
            mutes_more = ground arith;
            waits_more = sym (longest-none t.delay);
          })
          | inr e ↦ rw e (Grows-refl t)
        ]
    weigh-Grows id false target (budget seconds refill) t = Grows-refl t
    weigh-Grows id true target (launch_limit count refill) t =
        elim (Bool-cases (leb count (times_opened chrono unicode now tz state target refill))) [
          | inl e ↦ rw e (record {
            blocks_more = ground arith;
            spent_more =
                rw (inserted t.launches_spent (Engine.launch_limit_reached id count))
                  (ground arith);
            lists_more = ground arith;
            allows_more = ground arith;
            mutes_more = ground arith;
            waits_more = sym (longest-none t.delay);
          })
          | inr e ↦ rw e (Grows-refl t)
        ]
    weigh-Grows id false target (launch_limit count refill) t = Grows-refl t
    weigh-Grows id true target (Action.delay seconds) t = record {
      blocks_more = ground arith;
      spent_more = ground arith;
      lists_more = ground arith;
      allows_more = ground arith;
      mutes_more = ground arith;
      waits_more = longer-longest t.delay seconds;
    }
    weigh-Grows id false target (Action.delay seconds) t = Grows-refl t
    weigh-Grows id true target mute_notifications t = record {
      blocks_more = ground arith;
      spent_more = ground arith;
      lists_more = ground arith;
      allows_more = ground arith;
      mutes_more = ground arith;
      waits_more = sym (longest-none t.delay);
    }
    weigh-Grows id false target mute_notifications t = Grows-refl t
