-- ===== src/Config/Kept.antt =====
-- `weakening_a_running_session` of crates/curfew-core/src/config.rs and the rules of the profiles that
-- run.
use curfew.Prelude.{
  ◌≡◌, ◌≢◌, refl, true, Option, none, some, List, [], ◌∷◌, ◌++◌, map, arith, Bool-cases,
  Option-cases, inl, inr, and-split,
}
use curfew.Prelude.Lists.{find, find-some, All, In}
use curfew.Prelude.Order.{Ord, list_ord, list_eq, list_eq→eq}
use curfew.Prelude.Text.{Text}
use curfew.Prelude.Unicode.{Unicode}
use curfew.Prelude.Set
use curfew.Prelude.Map.{BTreeMap}
use curfew.Budget.{Refill}
use curfew.Target.{key}
use curfew.Session.{Session}
use curfew.Config
use curfew.Config.{Config, Profile, Rule, Platform, same_platform, Action, budget, launch_limit}
use curfew.Config.Weakening.{
  same_refill, same_action, same_platforms, stands_for, found, loss, losses, losses_of,
  rules_weakened_by, details, weakening_a_running_session,
}

same_refill→eq : (r s : Refill) → same_refill r s ≡ true → r ≡ s
same_refill→eq r s h = ground (arith, h)

same_action→eq : (a b : Action) → same_action a b ≡ true → a ≡ b
same_action→eq (budget a r) (budget b s) h =
    let same = same_refill→eq r s (ground (arith, h)) in ground (arith, h, same)
same_action→eq (launch_limit a r) (launch_limit b s) h =
    let same = same_refill→eq r s (ground (arith, h)) in ground (arith, h, same)
same_action→eq a b h = ground (arith, h)

same_platforms→eq : (ps qs : List Platform) → same_platforms ps qs ≡ true → ps ≡ qs
same_platforms→eq [] [] h = refl
same_platforms→eq [] (q ∷ qs) h = absurd (cc h)
same_platforms→eq (p ∷ ps) [] h = absurd (cc h)
same_platforms→eq (p ∷ ps) (q ∷ qs) h =
    let rest = same_platforms→eq ps qs (ground (arith, h)) in
    let first : p ≡ q = ground (arith, h) in ground (arith, first, rest)

insert-not_nil {ℓ} : {A : Type ℓ} ⦃o : Ord A⦄ (a : A) (xs : List A) → Set.insert a xs ≢ []
unfolding Set.insert
insert-not_nil a [] h = cc h
insert-not_nil a (x ∷ xs) h = ground (arith, h)

from_list-nil {ℓ} : {A : Type ℓ} ⦃o : Ord A⦄ (xs : List A) → Set.from_list xs ≡ [] → xs ≡ []
unfolding Set.from_list Set.union
from_list-nil [] h = refl
from_list-nil (x ∷ xs) h = absurd (insert-not_nil x (Set.union xs []) h)

append-nil_split {ℓ} : {A : Type ℓ} (xs ys : List A) → xs ++ ys ≡ [] → (xs ≡ []) × (ys ≡ [])
append-nil_split [] ys h = (refl, h)
append-nil_split (x ∷ xs) ys h = absurd (cc h)

map-nil {ℓ} : {A B : Type ℓ} (f : A → B) (xs : List A) → map f xs ≡ [] → xs ≡ []
map-nil f [] h = refl
map-nil f (x ∷ xs) h = absurd (cc h)

module _ (unicode : Unicode) where
  -- The other document has a rule of the same key, for the same platforms and with the same action.
  abbrev pub IsKept : Option Profile → Rule → Type 0
  IsKept none rule = ⊥
  IsKept (some after) rule =
      (r : Rule) × In r after.rules
      × (key unicode r.target ≡ key unicode rule.target)
      × (r.platforms ≡ rule.platforms)
      × (r.action ≡ rule.action)

  -- Each rule of the profile, if there is one, is kept.
  abbrev pub AreKept : Option Profile → Option Profile → Type 0
  AreKept none after = Unit
  AreKept (some before) after = All (IsKept after) before.rules

  loss-IsKept :
      (after : Option Profile) (rule : Rule)
      → loss unicode rule (found unicode after rule) ≡ []
      → IsKept after rule
  loss-IsKept none rule h = absurd (cc h)
  loss-IsKept (some p) rule h = elim (Option-cases (find (stands_for unicode rule) p.rules)) [
    | inl e ↦ absurd (cc (rw e at h))
    | inr (r, e) ↦
        let (i, q) = find-some (stands_for unicode rule) p.rules e in
        let (k, ps) =
          and-split (list_eq (key unicode r.target) (key unicode rule.target))
            (same_platforms r.platforms rule.platforms) q in
        elim (Bool-cases (same_action r.action rule.action)) [
          | inl a ↦ (
            r,
            i,
            list_eq→eq (key unicode r.target) (key unicode rule.target) k,
            same_platforms→eq r.platforms rule.platforms ps,
            same_action→eq r.action rule.action a,
          )
          | inr a ↦ absurd (cc (rw (e, a) at h))
        ]
  ]

  losses-AreKept :
      (after : Option Profile) (rules : List Rule)
      → losses unicode after rules ≡ []
      → All (IsKept after) rules
  unfolding losses
  losses-AreKept after [] h = tt
  losses-AreKept after (rule ∷ rest) h =
      let (first, others) =
        append-nil_split (loss unicode rule (found unicode after rule)) (losses unicode after rest)
          h in
      (loss-IsKept after rule first, losses-AreKept after rest others)

  losses_of-AreKept :
      (before after : Option Profile) → losses_of unicode before after ≡ [] → AreKept before after
  losses_of-AreKept none after h = tt
  losses_of-AreKept (some p) after h = losses-AreKept after p.rules h

  details-AreKept :
      (config next : Config) (running : List Session) (names : BTreeMap Text Text)
      → details unicode config next running names ≡ []
      → All (λ s. AreKept (Config.profile config s.profile) (Config.profile next s.profile)) running
  unfolding details rules_weakened_by
  details-AreKept config next [] names h = tt
  details-AreKept config next (s ∷ rest) names h =
      let (first, others) =
        append-nil_split (map _ (rules_weakened_by unicode config next s.profile))
          (details unicode config next rest names) h in
      (
        losses_of-AreKept (Config.profile config s.profile) (Config.profile next s.profile)
            (map-nil _ (rules_weakened_by unicode config next s.profile) first),
        details-AreKept config next rest names others,
      )

  -- Where the check finds nothing that another document would take away, that document keeps each
  -- rule of the profile of each running session: it has a rule of the same key, for the same platforms
  -- and with the same action.
  pub weakening-finds_every_loss :
      (config next : Config) (running : List Session) (names : BTreeMap Text Text)
      → weakening_a_running_session unicode config next running names ≡ []
      → All (λ s. AreKept (Config.profile config s.profile) (Config.profile next s.profile)) running
  unfolding weakening_a_running_session
  weakening-finds_every_loss config next running names h =
      details-AreKept config next running names
        (from_list-nil (details unicode config next running names) h)
