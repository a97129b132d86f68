-- ===== src/Log/Compaction.antt =====
-- `compact` of crates/curfew-sync/src/oplog.rs: what replaying gives before and after it.
use curfew.Prelude.{
  ◌≤◌, ◌⊎◌, ℕ, ◌≡◌, refl, sym, ap, ◌∙◌, subst, Bool, true, false, not, List, [], ◌∷◌, ◌++◌, map,
  inl, inr, Bool-cases, ltb, leb, is_some_and, if◌then◌else◌,
}
use curfew.Prelude.Lists.{All, filter, sort_by, All-sort_by}
use curfew.Prelude.Text.{Text}
use curfew.Prelude.I64.{I64, minus}
use curfew.Session
use curfew.Session.{Sessions}
use curfew.Device.{Crypto}
use curfew.Oplog.{Op, Entry}
use curfew.Replay.{Replay, holds, apply, apply_op, apply_end, fold}
use curfew.Log.{
  Log, Entries, before, ordered, replay, compact, tidy, prune, is_old, checkpoint_state, sixty_days,
}
use curfew.Log.Boundary.{old, sort_by-split, filter-kept, filter-old}

-- What compaction carries whole.
abbrev pub Agrees : Replay → Replay → Type 0
Agrees s t =
    (s.sessions ≡ t.sessions)
    × (s.calendars ≡ t.calendars)
    × (s.released ≡ t.released)
    × (s.passes ≡ t.passes)

abbrev ended : Sessions → Text → I64 → Sessions
ended s id now =
    if is_some_and (Session.get s id) (holds now) then s else (Session.end s id now []).0

sessions-apply_end :
    (state : Replay) (id : Text) (now : I64)
    → (apply_end state id now).sessions ≡ ended state.sessions id now
sessions-apply_end state id now =
    elim (Bool-cases (is_some_and (Session.get state.sessions id) (holds now))) [
      | inl h ↦ rw h
      | inr h ↦ rw h
    ]

apply_end-Agrees :
    (s t : Replay) (id : Text) (now : I64)
    → Agrees s t
    → Agrees (apply_end s id now) (apply_end t id now)
apply_end-Agrees s t id now h =
    let sessions =
      sessions-apply_end s id now
      ∙ ap (λ z. ended z id now) h.0
      ∙ sym (sessions-apply_end t id now) in
    let c = λ (z : Replay). is_some_and (Session.get z.sessions id) (holds now) in
    elim (Bool-cases (c s)) [
      | inl k ↦
          let k' : c t ≡ true =
            ap (λ z. is_some_and (Session.get z id) (holds now)) (sym h.0) ∙ k in
          rw (k, k') h
      | inr k ↦
          let k' : c t ≡ false =
            ap (λ z. is_some_and (Session.get z id) (holds now)) (sym h.0) ∙ k in
          rw (k, k') (ap (λ z. (Session.end z id now []).0) h.0, h.1, h.2, h.3)
    ]

op-Agrees :
    (s t : Replay) (author : Text) (at now : I64) (op : Op)
    → Agrees s t
    → Agrees (apply_op s author at now op) (apply_op t author at now op)
op-Agrees s t author at now (Op.start session) h =
    (ap (λ z. Session.start z session) h.0, h.1, h.2, h.3)
op-Agrees s t author at now (Op.end id) h = apply_end-Agrees s t id now h
op-Agrees s t author at now (Op.release_requested id landing) h = rw h.0 (refl, h.1, h.2, h.3)
op-Agrees s t author at now (Op.used key used_at seconds) h = h
op-Agrees s t author at now (Op.launched key launched_at) h = h
op-Agrees s t author at now (Op.revoked device) h = h
op-Agrees s t author at now (Op.calendar events) h = rw h.1 (h.0, refl, h.2, h.3)
op-Agrees s t author at now (Op.released id) h = rw h.2 (h.0, h.1, refl, h.3)
op-Agrees s t author at now (Op.emergency_used used_at) h = rw h.3 (h.0, h.1, h.2, refl)

fold-Agrees :
    (s t : Replay) (entries : List Entry) (now : I64)
    → Agrees s t
    → Agrees (fold s entries now) (fold t entries now)
unfolding fold apply
fold-Agrees s t [] now h = h
fold-Agrees s t (e ∷ es) now h =
    fold-Agrees (apply s e now) (apply t e now) es now (op-Agrees s t e.author e.at now e.op h)

fold-append :
    (s : Replay) (xs ys : List Entry) (now : I64)
    → fold s (xs ++ ys) now ≡ fold (fold s xs now) ys now
unfolding fold
fold-append s [] ys now = refl
fold-append s (x ∷ xs) ys now = fold-append (apply s x now) xs ys now

abbrev pub is_end : Op → Bool
is_end (Op.end id) = true
is_end _ = false

-- What is not an end is folded in alike at every instant.
op-any_time :
    (state : Replay) (author : Text) (at now later : I64) (op : Op)
    → is_end op ≡ false
    → apply_op state author at later op ≡ apply_op state author at now op
op-any_time state author at now later (Op.start session) h = refl
op-any_time state author at now later (Op.end id) h = absurd (cc h)
op-any_time state author at now later (Op.release_requested id landing) h = refl
op-any_time state author at now later (Op.used key used_at seconds) h = refl
op-any_time state author at now later (Op.launched key launched_at) h = refl
op-any_time state author at now later (Op.revoked device) h = refl
op-any_time state author at now later (Op.calendar events) h = refl
op-any_time state author at now later (Op.released id) h = refl
op-any_time state author at now later (Op.emergency_used used_at) h = refl

fold-any_time :
    (state : Replay) (entries : List Entry) (now later : I64)
    → All (λ e. is_end e.op ≡ false) entries
    → fold state entries later ≡ fold state entries now
unfolding fold apply
fold-any_time state [] now later h = refl
fold-any_time state (e ∷ es) now later h =
    ap (λ z. fold z es later) (op-any_time state e.author e.at now later e.op h.0)
    ∙ fold-any_time (apply state e now) es now later h.1

-- No entry from before the boundary ends a session.
abbrev pub NoOldEnds : I64 → Entries → Type 0
NoOldEnds through entries =
    All (λ e. ltb e.1.entry.at through ≡ true → is_end e.1.entry.op ≡ false) entries

-- A summary made at `now` stands for the same at `later`.
abbrev pub CarriesTo : I64 → I64 → I64 → Entries → Type 0
CarriesTo through now later entries =
    (later ≡ now) ⊎ ((through ≤ now) × (now ≤ later) × NoOldEnds through entries)

olds-no_ends :
    (through : I64) (q : Entry → Bool) (entries : Entries)
    → NoOldEnds through entries
    → All
        (λ e. is_end e.op ≡ false)
        (filter (old through) (filter q (map (λ e. e.1.entry) entries)))
olds-no_ends through q [] h = tt
olds-no_ends through q (e ∷ es) h = elim (Bool-cases (q e.1.entry)) [
  | inr k ↦ rw k (olds-no_ends through q es h.1)
  | inl k ↦ elim (Bool-cases (old through e.1.entry)) [
    | inl o ↦ rw (k, o) (h.0 o, olds-no_ends through q es h.1)
    | inr o ↦ rw (k, o) (olds-no_ends through q es h.1)
  ]
]

module _ {K X : Type 0} (crypto : Crypto K X) (canonical : Entry → List ℕ) where
  abbrev olds : Log → I64 → I64 → List Entry
  olds log through now =
      sort_by before
        (filter (old through) (filter (λ e. leb e.at now) (map (λ e. e.1.entry) log.entries)))

  -- Where the old entries come to the same at the instant of the replay as at that of the compaction.
  replayed-Agrees :
      (log : Log) (through now later : I64)
      → fold (checkpoint_state log.checkpoint) (olds log through later) later
        ≡ fold (checkpoint_state log.checkpoint) (olds log through now) now
      → Agrees (replay (compact crypto canonical log through now) later) (replay log later)
  unfolding replay compact
  replayed-Agrees log through now later carried =
      let base = checkpoint_state log.checkpoint in
      let past : Entry → Bool = λ e. leb e.at later in
      let all = filter past (map (λ e. e.1.entry) log.entries) in
      let news = sort_by before (filter (λ e. not (old through e)) all) in
      let whole : fold base (ordered log later) later
          ≡ fold (fold base (olds log through now) now) news later =
        ap (λ z. fold base z later) (sort_by-split through all)
        ∙ fold-append base (olds log through later) news later
        ∙ ap (λ z. fold z news later) carried in
      let summarized : ordered (record log { entries = filter (is_old through) log.entries }) now
          ≡ olds log through now =
        ap (sort_by before) (filter-kept (old through) (λ e. leb e.at now) log.entries) in
      let kept : ordered (compact crypto canonical log through now) later ≡ news =
        unfold compact in
        ap (sort_by before) (filter-kept (λ e. not (old through e)) past log.entries) in
      let horizon = minus through sixty_days in
      let state = λ (z : List Entry). prune horizon (tidy (fold base z now)) in
      subst
        (λ z.
          Agrees
            (fold
              (state (ordered (record log { entries = filter (is_old through) log.entries }) now))
              (ordered (compact crypto canonical log through now) later) later)
            z)
        (sym whole)
        (rw (summarized, kept)
          (fold-Agrees (state (olds log through now)) (fold base (olds log through now) now) news
            later (refl, refl, refl, refl)))

  -- Replaying a log gives the same sessions, calendars, releases and passes before and after it is
  -- compacted at `now`, at that instant, whatever the boundary is, and at any later one, where the
  -- boundary is not in the future and no entry from before it ends a session.
  pub replay-compact :
      (log : Log) (through now later : I64)
      → CarriesTo through now later log.entries
      → Agrees (replay (compact crypto canonical log through now) later) (replay log later)
  replay-compact log through now later (inl same) =
      replayed-Agrees log through now later
        (ap (λ z. fold (checkpoint_state log.checkpoint) (olds log through z) z) same)
  replay-compact log through now later (inr (h, k, none)) =
      let entries = map (λ e. e.1.entry) log.entries in
      let base = checkpoint_state log.checkpoint in
      replayed-Agrees log through now later (
        ap (λ z. fold base (sort_by before z) later) (filter-old through now later entries h k)
        ∙ fold-any_time base (olds log through now) now later (
            All-sort_by (λ e. is_end e.op ≡ false) before
              (filter (old through) (filter (λ e. leb e.at now) entries))
              (olds-no_ends through (λ e. leb e.at now) log.entries none)))
