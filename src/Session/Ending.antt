-- ===== src/Session/Ending.antt =====
-- `end`, `end_with_pass` and `clamped_into` of crates/curfew-core/src/session.rs.
use curfew.Prelude.{
  ◌≡◌, ◌≢◌, ◌≤◌, ◌<◌, ◌↔◌, sym, ap, ◌∙◌, true, false, not, ◌&&◌, none, some, [], ◌∷◌, inl, inr,
  arith, Bool-cases, Option-cases, leb, ltb, if◌then◌else◌,
}
use curfew.Prelude.Lists.{find, remove_first}
use curfew.Prelude.Order.{list_ord, list_eq_refl}
use curfew.Prelude.Text.{Text}
use curfew.Prelude.I64.{I64}
use curfew.Prelude.Set
use curfew.Prelude.Set.{BTreeSet, mem-difference, is_subset_refl_of, is_subset-mem}
use curfew.Prelude.Map
use curfew.Prelude.Map.{get-insert}
use curfew.Prelude.Result.{ok, err}
use curfew.Lock.{Lock, LockSet, can_release, lock_ord}
use curfew.Lock.Freeing.{LetsGo, LetsGo-can_release, can_release-LetsGo}
use curfew.Emergency.{Pass}
use curfew.Schedule.{Activation}
use curfew.Session.{
  Session, Sessions, Refusal, not_running, locked, has_id, without, refused, clamped_into,
  is_dismissed, end, end_with_pass,
}

pub end-absent :
    (s : Sessions) (id : Text) (now : I64) (satisfied : BTreeSet Lock)
    → find (has_id id) s.running ≡ none
    → end s id now satisfied ≡ (s, err not_running)
unfolding end
end-absent s id now satisfied e = rw (e, end)

pub end-found :
    (s : Sessions) (id : Text) (now : I64) (satisfied : BTreeSet Lock) (x : Session)
    → find (has_id id) s.running ≡ some x
    → end s id now satisfied ≡ (
        if can_release x.lock now satisfied
        then (without s id x now, ok x)
        else (s, err (refused x.lock satisfied)))
unfolding end
end-found s id now satisfied x e = rw (e, end)

-- The instant remembered lies inside the span that the session was under.
pub clamped_into_bounds :
    (x : Session) (now : I64)
    → (x.started_at ≤ clamped_into x now)
      × ((e : I64) → x.lock.ends_at ≡ some e → x.started_at < e → clamped_into x now < e)
unfolding clamped_into
clamped_into_bounds x now = (ground arith, λ e h k. ground arith)

not_subset-difference :
    (xs ys : BTreeSet Lock) → Set.is_subset xs ys ≡ false → Set.difference xs ys ≢ []
unfolding Set.is_subset Set.difference
not_subset-difference [] ys h e = cc
not_subset-difference (x ∷ xs) ys h e = elim (Bool-cases (Set.mem x ys)) [
  | inl m ↦ not_subset-difference xs ys (ground arith) (ground arith)
  | inr m ↦ cc (rw m at e)
]

not_released :
    (k : LockSet) (now : I64) (satisfied : BTreeSet Lock)
    → can_release k now satisfied ≡ false
    → Set.is_subset k.conditions satisfied ≡ false
unfolding can_release
not_released k now satisfied d = ground arith

end-decided :
    (s : Sessions) (id : Text) (now : I64) (satisfied : BTreeSet Lock)
    → ((x : Session)
        → ((end s id now satisfied).1 ≡ ok x)
          ↔ ((find (has_id id) s.running ≡ some x) × (can_release x.lock now satisfied ≡ true)))
      × ((x : Session)
          → (end s id now satisfied).1 ≡ ok x
          → (end s id now satisfied).0.running ≡ remove_first (has_id id) s.running)
      × ((r : Refusal) → (end s id now satisfied).1 ≡ err r → (end s id now satisfied).0 ≡ s)
      × ((x : Session)
          → find (has_id id) s.running ≡ some x
          → can_release x.lock now satisfied ≡ false
          → ((end s id now satisfied).1 ≡ err (refused x.lock satisfied))
            × (Set.difference x.lock.conditions satisfied ≢ [])
            × ((l : Lock)
                → Set.mem l (Set.difference x.lock.conditions satisfied)
                  ≡ (Set.mem l x.lock.conditions && not (Set.mem l satisfied))))
end-decided s id now satisfied = elim (Option-cases (find (has_id id) s.running)) [
  | inl e ↦
      let absent = end-absent s id now satisfied e in
      (
        λ x. (λ q. absurd (cc (q, absent)), λ p. absurd (cc (e, p.0))),
        λ x q. absurd (cc (q, absent)),
        λ r q. ap (λ t. t.0) absent,
        λ x f c. absurd (cc (e, f)),
      )
  | inr (y, e) ↦
      let found = end-found s id now satisfied y e in
      elim (Bool-cases (can_release y.lock now satisfied)) [
        | inl c ↦
            let done = rw c at found in
            (
              λ x. (
                λ q.
                    let same : y ≡ x = cc (q, done) in
                    (e ∙ ap some same, ap (λ z. can_release z.lock now satisfied) (sym same) ∙ c),
                λ p. let same : y ≡ x = cc (e, p.0) in ap (λ t. t.1) done ∙ ap ok same,
              ),
              λ x q. ap (λ t. t.0.running) done,
              λ r q. absurd (cc (q, done)),
              λ x f d. let same : y ≡ x = cc (e, f) in absurd (cc (c, d, same)),
            )
        | inr c ↦
            let kept = rw c at found in
            (
              λ x. (
                λ q. absurd (cc (q, kept)),
                λ p. let same : y ≡ x = cc (e, p.0) in absurd (cc (c, p.1, same)),
              ),
              λ x q. absurd (cc (q, kept)),
              λ r q. ap (λ t. t.0) kept,
              λ x f d.
                  let same : y ≡ x = cc (e, f) in
                  (
                    ap (λ t. t.1) kept ∙ ap (λ z. err (refused z.lock satisfied)) same,
                    not_subset-difference x.lock.conditions satisfied
                        (not_released x.lock now satisfied d),
                    λ l. mem-difference l x.lock.conditions satisfied,
                  ),
            )
      ]
]

-- `end` succeeds exactly when a session of that id runs and its lock lets go: its conditions are all
-- met, or its end or its delayed release has come. Then it returns that session, removes it alone and
-- remembers an instant not before its start. Otherwise nothing changes; and if the session runs, the
-- refusal carries the lock's end and delayed release and exactly those of its conditions that the
-- evidence lacks, at least one.
pub end_exact :
    (s : Sessions) (id : Text) (now : I64) (satisfied : BTreeSet Lock)
    → ((x : Session)
        → ((end s id now satisfied).1 ≡ ok x)
          ↔ ((find (has_id id) s.running ≡ some x) × LetsGo x.lock now satisfied))
      × ((x : Session)
          → (end s id now satisfied).1 ≡ ok x
          → ((end s id now satisfied).0.running ≡ remove_first (has_id id) s.running)
            × ((at : I64) × (Map.get x.profile (end s id now satisfied).0.dismissed ≡ some at)
                × (x.started_at ≤ at)))
      × ((r : Refusal) → (end s id now satisfied).1 ≡ err r → (end s id now satisfied).0 ≡ s)
      × ((x : Session)
          → find (has_id id) s.running ≡ some x
          → ¬ LetsGo x.lock now satisfied
          → (missing : BTreeSet Lock) × ((end s id now satisfied).1
              ≡ err (locked missing x.lock.ends_at x.lock.delayed_release_at))
            × (missing ≢ [])
            × ((l : Lock)
                → Set.mem l missing ≡ (Set.mem l x.lock.conditions && not (Set.mem l satisfied))))
end_exact s id now satisfied =
    let decided = end-decided s id now satisfied in
    (
      λ x. (
        λ q. let p = (decided.0 x).0 q in (p.0, LetsGo-can_release x.lock now satisfied p.1),
        λ p. (decided.0 x).1 (p.0, can_release-LetsGo x.lock now satisfied p.1),
      ),
      λ x q. (
        decided.1 x q,
        (
          clamped_into x now,
          let p = (decided.0 x).0 q in
              let done = end-found s id now satisfied x p.0 in
              ap (λ t. Map.get x.profile t.0.dismissed) (rw p.1 at done)
              ∙ get-insert x.profile x.profile (clamped_into x now) s.dismissed
              ∙ rw (list_eq_refl x.profile),
          (clamped_into_bounds x now).0,
        ),
      ),
      decided.2,
      λ x f n. elim (Bool-cases (can_release x.lock now satisfied)) [
        | inl c ↦ absurd (n (LetsGo-can_release x.lock now satisfied c))
        | inr c ↦ (
          Set.difference x.lock.conditions satisfied,
          (decided.3 x f c).0,
          (decided.3 x f c).1,
          (decided.3 x f c).2,
        )
      ],
    )

can_release-own : (k : LockSet) (now : I64) → can_release k now k.conditions ≡ true
unfolding can_release
can_release-own k now = ground (arith, is_subset_refl_of k.conditions k.conditions (λ a m. m))

-- A spent pass ends the session that it is presented for whatever its lock, as `end` with that
-- session's own conditions would, and ends nothing that does not run.
pub end_with_pass_exact :
    (s : Sessions) (id : Text) (now : I64) (pass : Pass)
    → ((x : Session)
        → find (has_id id) s.running ≡ some x
        → end_with_pass s id now pass ≡ (without s id x now, ok x))
      × (find (has_id id) s.running ≡ none → end_with_pass s id now pass ≡ (s, err not_running))
unfolding end_with_pass
end_with_pass_exact s id now pass = (
  λ x e.
      rw (e, end_with_pass)
        (end-found s id now x.lock.conditions x e ∙ rw (can_release-own x.lock now)),
  λ e. rw (e, end_with_pass),
)

-- The activation is of the span that the session was under.
pub record Covers (x : Session) (a : Activation) : Type 0 where
  pub profile : a.profile ≡ x.profile
  pub start : a.start ≤ x.started_at
  pub end : (e : I64) → x.lock.ends_at ≡ some e → (x.started_at < e) × (e ≤ a.end)
  pub bounded : x.lock.ends_at ≢ none

dismissed_within :
    (x : Session) (now : I64) (a : Activation)
    → Covers x a
    → (leb a.start (clamped_into x now) && ltb (clamped_into x now) a.end) ≡ true
dismissed_within x now a c = elim (Option-cases x.lock.ends_at) [
  | inl e ↦ absurd (c.bounded e)
  | inr (t, e) ↦
      let (lo, hi) = clamped_into_bounds x now in ground (arith, lo, hi t e, c.start, c.end t e)
]

pub is_dismissed-without :
    (s : Sessions) (id : Text) (x : Session) (now : I64) (a : Activation)
    → Covers x a
    → is_dismissed (without s id x now) a ≡ true
unfolding is_dismissed
is_dismissed-without s id x now a c =
    rw (get-insert a.profile x.profile (clamped_into x now) s.dismissed)
      (ground (arith, c.profile, list_eq_refl x.profile, dismissed_within x now a c))
