-- ===== src/Config/Stored.antt =====
-- The edits of crates/curfew-core/src/config.rs: what one that is not refused stores.
use curfew.Prelude.{
  ◌≡◌, refl, sym, ap, subst, Bool, true, arith, some, List, [], ◌∷◌, ◌++◌, inl, inr, Bool-cases,
  Option-cases,
}
use curfew.Prelude.Lists.{find, find-some, modify_first, any, In, In-append_right}
use curfew.Prelude.Order.{list_eq→eq}
use curfew.Prelude.Text.{Text}
use curfew.Schedule.Weekly.{WeeklySchedule}
use curfew.Config.{Config, Profile, Rule}
use curfew.Config.Edits.{has_id, replace_or_push, with_profile, same_window, renamed}

-- Changing the first element that passes back.
pub modify_first-back {ℓ} :
    {A : Type ℓ} (p : A → Bool) (f g : A → A) (xs : List A) (x : A)
    → find p xs ≡ some x
    → ((y : A) → p (f y) ≡ p y)
    → g (f x) ≡ x
    → modify_first p g (modify_first p f xs) ≡ xs
modify_first-back p f g [] x e h back = absurd (cc e)
modify_first-back p f g (y ∷ ys) x e h back = elim (Bool-cases (p y)) [
  | inl k ↦ let same : y ≡ x = cc (rw k at e) in rw (k, h y, k, same, back)
  | inr k ↦ rw (k, k) (ap (◌∷◌ y) (modify_first-back p f g ys x (rw k at e) h back))
]

-- What is stored is in the list, in the place of what it replaces or at the end.
pub In-replaced :
    {A : Type 0} (p : A → Bool) (a : A) (xs : List A) {x : A}
    → find p xs ≡ some x
    → In a (modify_first p (λ y. a) xs)
In-replaced p a [] e = absurd (cc e)
In-replaced p a (y ∷ ys) e = elim (Bool-cases (p y)) [
  | inl k ↦ rw k (inl refl)
  | inr k ↦ rw k (inr (In-replaced p a ys (rw k at e)))
]

pub In-replace_or_push :
    {A : Type 0} (p : A → Bool) (a : A) (xs : List A) → In a (replace_or_push p a xs)
In-replace_or_push p a xs = elim (Option-cases (find p xs)) [
  | inl e ↦
      let pushed : replace_or_push p a xs ≡ xs ++ a ∷ [] = rw (replace_or_push, e) in
      subst (In a) (sym pushed) (In-append_right a xs (a ∷ []) (inl refl))
  | inr (x, e) ↦
      let replaced : replace_or_push p a xs ≡ modify_first p (λ y. a) xs =
        rw (replace_or_push, e) in
      subst (In a) (sym replaced) (In-replaced p a xs e)
]

pub In-edited :
    (id : Text) (f : Profile → Profile) (ps : List Profile) {p : Profile}
    → find (has_id id) ps ≡ some p
    → In (f p) (modify_first (has_id id) f ps)
In-edited id f [] e = absurd (cc e)
In-edited id f (q ∷ qs) {p} e = elim (Bool-cases (has_id id q)) [
  | inl k ↦ let same : q ≡ p = cc (rw k at e) in rw k (inl (ap f (sym same)))
  | inr k ↦ rw k (inr (In-edited id f qs (rw k at e)))
]

pub of_id : (id : Text) (ps : List Profile) (p : Profile) → find (has_id id) ps ≡ some p → p.id ≡ id
of_id id ps p e = list_eq→eq p.id id (find-some (has_id id) ps e).1

-- The document holds a profile of that id, with such a name and rules.
abbrev pub HasRule : Text → Rule → Config → Type 0
HasRule id rule c = (p : Profile) × In p c.profiles × (p.id ≡ id) × In rule p.rules

abbrev pub HasProfile : Text → Text → Text → Config → Type 0
HasProfile id name description c =
    (p : Profile) × In p c.profiles × (p.id ≡ id) × (p.name ≡ name) × (p.description ≡ description)

-- A window of another id for the same profile, days and minutes.
abbrev pub IsSameWindow : WeeklySchedule → WeeklySchedule → Type 0
IsSameWindow a b =
    (a.profile ≡ b.profile)
    × (a.days ≡ b.days)
    × (a.start_minute ≡ b.start_minute)
    × (a.end_minute ≡ b.end_minute)

same_window-IsSameWindow :
    (window w : WeeklySchedule) → same_window window w ≡ true → IsSameWindow w window
same_window-IsSameWindow window w h = (
  list_eq→eq w.profile window.profile (ground (arith, h)),
  list_eq→eq w.days window.days (ground (arith, h)),
  ground (arith, h),
  ground (arith, h),
)

pub any-same_window :
    (window : WeeklySchedule) (ws : List WeeklySchedule)
    → any (same_window window) ws ≡ true
    → (w : WeeklySchedule) × In w ws × IsSameWindow w window
any-same_window window [] h = absurd (cc h)
any-same_window window (w ∷ ws) h = elim (Bool-cases (same_window window w)) [
  | inl e ↦ (w, inl refl, same_window-IsSameWindow window w e)
  | inr e ↦ let (v, i, same) = any-same_window window ws (ground (arith, h, e)) in (v, inr i, same)
]

pub with_profile-HasProfile :
    (c : Config) (id name description : Text)
    → HasProfile id name description (with_profile c id name description)
with_profile-HasProfile c id name description = elim (Option-cases (find (has_id id) c.profiles)) [
  | inl e ↦
      let p : Profile = record { id = id; name = name; description = description; rules = [] } in
      rw (with_profile, e) (p, In-append_right p c.profiles (p ∷ []) (inl refl), refl, refl, refl)
  | inr (p, e) ↦
      rw (with_profile, e)
        (
          renamed name description p,
          In-edited id (renamed name description) c.profiles e,
          of_id id c.profiles p e,
          refl,
          refl,
        )
]
