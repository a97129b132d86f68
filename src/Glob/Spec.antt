-- ===== src/Glob/Spec.antt =====
-- The matching loop of crates/curfew-core/src/target.rs and the plain reading of a pattern, on
-- text in which no `*` stands.
use mathlib.Core.List.{append_assoc}
use curfew.Prelude.{
  ℕ, zero, suc, ◌≡◌, ◌≤◌, ◌<◌, refl, sym, ap, ◌∙◌, subst, Bool, true, false, ◌&&◌, ◌||◌, none, some,
  List, [], ◌∷◌, ◌++◌, arith, ◌==◌, if◌then◌else◌, Bool-cases, or-split, inl, inr,
}
use curfew.Prelude.Lists.{length, length-append, All, All-append}
use curfew.Glob.{Resume, star, question, only_stars, glob_loop, enough, or_false, glob_match_with}
use curfew.Glob.Fuel.{glob_loop-total}

module _ (same : ℕ → ℕ → Bool) where
  -- A star stands for any run of characters, a question mark for one, anything else for what is the
  -- same as it.
  unfoldable pub glob : List ℕ → List ℕ → Bool
  glob [] [] = true
  glob [] (c ∷ t) = false
  glob (a ∷ p) [] = let rest = glob p [] in if a == star then rest else false
  glob (a ∷ p) (c ∷ t) =
      let eaten = glob (a ∷ p) t in
      let skipped = glob p (c ∷ t) in
      let step = glob p t in
      if a == star then skipped || eaten else ((a == question) || same a c) && step

  only_stars-glob : (p : List ℕ) → only_stars p ≡ glob p []
  unfolding only_stars glob
  only_stars-glob [] = refl
  only_stars-glob (a ∷ p) = ground (arith, only_stars-glob p)

  abbrev NoStar : List ℕ → Type 0
  NoStar w = All (λ a. (a == star) ≡ false) w

  -- A star lets a suffix match, and a matching suffix lets a star match.
  star_elim :
      (q v : List ℕ)
      → glob (star ∷ q) v ≡ true
      → (y : List ℕ) × (z : List ℕ) × (v ≡ y ++ z) × (glob q z ≡ true)
  unfolding glob
  star_elim q [] h = ([], [], refl, h)
  star_elim q (c ∷ v) h = elim (or-split (glob q (c ∷ v)) (glob (star ∷ q) v) h) [
    | inl now ↦ ([], c ∷ v, refl, now)
    | inr later ↦ let (y, z, e, g) = star_elim q v later in (c ∷ y, z, ap (◌∷◌ c) e, g)
  ]

  star_here : (p z : List ℕ) → glob p z ≡ true → glob (star ∷ p) z ≡ true
  unfolding glob
  star_here p [] h = h
  star_here p (c ∷ z) h = ground (arith, h)

  star_intro : (p y z : List ℕ) → glob (star ∷ p) z ≡ true → glob (star ∷ p) (y ++ z) ≡ true
  unfolding glob
  star_intro p [] z h = h
  star_intro p (c ∷ y) z h = ground (arith, star_intro p y z h)

  -- Characters of the pattern use up as many of the text.
  chars_elim :
      (w p z : List ℕ)
      → NoStar w
      → glob (w ++ p) z ≡ true
      → (a : List ℕ) × (z' : List ℕ) × (z ≡ a ++ z') × (length a ≡ length w) × (glob p z' ≡ true)
  unfolding glob
  chars_elim [] p z n h = ([], z, refl, refl, h)
  chars_elim (b ∷ w) p [] n h = absurd (cc (rw n.0 at h))
  chars_elim (b ∷ w) p (c ∷ z) n h =
      let rest : glob (w ++ p) z ≡ true = ground (arith, h, n.0) in
      let (a, z', e, l, g) = chars_elim w p z n.1 rest in (c ∷ a, z', ap (◌∷◌ c) e, ap suc l, g)

  -- A suffix that starts no earlier is a suffix of the rest.
  suffix_of :
      (x t b z : List ℕ) → x ++ t ≡ b ++ z → length x ≤ length b → (y : List ℕ) × (t ≡ y ++ z)
  suffix_of [] t b z e h = (b, e)
  suffix_of (c ∷ x) t [] z e h = absurd (omega arith)
  suffix_of (c ∷ x) t (d ∷ b) z e h = suffix_of x t b z (ground arith) (omega arith)

  -- What the remembered star could still match by eating more.
  abbrev later : List ℕ → List ℕ → Bool
  later q [] = false
  later q (d ∷ u) = glob (star ∷ q) u

  -- If the star could match by eating more, a proper suffix of the text that is left fits the
  -- pattern that is left.
  later_elim :
      (w p x t : List ℕ)
      → NoStar w
      → length w ≡ length x
      → later (w ++ p) (x ++ t) ≡ true
      → (y : List ℕ) × (z : List ℕ) × (t ≡ y ++ z) × (length z < length t) × (glob p z ≡ true)
  later_elim w p x t n l h = go (x ++ t) refl h
    where
      go :
          (s : List ℕ)
          → x ++ t ≡ s
          → later (w ++ p) s ≡ true
          → (y : List ℕ) × (z : List ℕ) × (t ≡ y ++ z) × (length z < length t) × (glob p z ≡ true)
      go [] e k = absurd (cc k)
      go (d ∷ s) e k =
          let (y, z, e1, g1) = star_elim (w ++ p) s k in
          let (a, z', e2, la, g2) = chars_elim w p z n g1 in
          let whole : x ++ t ≡ (d ∷ y ++ a) ++ z' =
            e ∙ ap (◌∷◌ d) (e1 ∙ ap (λ r. y ++ r) e2 ∙ sym (append_assoc y a z')) in
          let (y', e3) = suffix_of x t (d ∷ y ++ a) z' whole (omega (arith, length-append y a)) in
          (
            y',
            z',
            e3,
            omega (
              arith,
              ap length whole,
              length-append x t,
              length-append (d ∷ y ++ a) z',
              length-append y a,
            ),
            g2,
          )

  -- What the loop decides from a state: the pattern fits the text that is left, or the remembered star
  -- can match by eating more.
  abbrev verdict : List ℕ → List ℕ → Resume → Bool
  verdict p t none = glob p t
  verdict p t (some (q, u)) = glob p t || later q u

  -- Since the star was met, pattern and text have moved by as many characters, none of them a star.
  abbrev Moved : List ℕ → List ℕ → Resume → Type 0
  Moved p t none = Unit
  Moved p t (some (q, u)) =
      (w : List ℕ) × (x : List ℕ) × (q ≡ w ++ p) × (u ≡ x ++ t) × (length w ≡ length x) × NoStar w

  later-nil : (p : List ℕ) (q u : List ℕ) → Moved p [] (some (q, u)) → later q u ≡ false
  later-nil p q u (w, x, e, f, l, n) = elim (Bool-cases (later q u)) [
    | inl h ↦
        let (y, z, _, lt, _) =
          later_elim w p x [] n l
            (subst (λ r. later (w ++ p) r ≡ true) f (subst (λ r. later r u ≡ true) e h)) in
        absurd (omega (arith, lt))
    | inr h ↦ h
  ]

  later-star :
      (p t q u : List ℕ)
      → Moved (star ∷ p) t (some (q, u))
      → later q u ≡ true
      → glob (star ∷ p) t ≡ true
  later-star p t q u (w, x, e, f, l, n) h =
      let (y, z, g, _, k) =
        later_elim w (star ∷ p) x t n l
          (subst (λ r. later (w ++ star ∷ p) r ≡ true) f (subst (λ r. later r u ≡ true) e h)) in
      subst (λ r. glob (star ∷ p) r ≡ true) (sym g) (star_intro p y z k)

  verdict-nil : (p : List ℕ) (r : Resume) → Moved p [] r → only_stars p ≡ verdict p [] r
  verdict-nil p none m = only_stars-glob p
  verdict-nil p (some (q, u)) m = ground (arith, only_stars-glob p, later-nil p q u m)

  -- One character further.
  Moved-step :
      (a c : ℕ) (p t : List ℕ) (r : Resume)
      → (a == star) ≡ false
      → Moved (a ∷ p) (c ∷ t) r
      → Moved p t r
  Moved-step a c p t none n m = tt
  Moved-step a c p t (some (q, u)) n (w, x, e, f, l, k) = (
    w ++ a ∷ [],
    x ++ c ∷ [],
    e ∙ sym (append_assoc w (a ∷ []) p),
    f ∙ sym (append_assoc x (c ∷ []) t),
    omega (arith, length-append w (a ∷ []), length-append x (c ∷ [])),
    All-append (λ b. (b == star) ≡ false) w (a ∷ []) k (n, tt),
  )

  abbrev Clean : List ℕ → Type 0
  Clean t = All (λ c. same star c ≡ false) t

  abbrev CleanResume : Resume → Type 0
  CleanResume none = Unit
  CleanResume (some (q, u)) = Clean u

  back : (q u : List ℕ) → (glob q u || later q u) ≡ glob (star ∷ q) u
  unfolding glob
  back q [] = ground arith
  back q (d ∷ u) = refl

  here : (p t : List ℕ) → Moved p t (some (p, t))
  here p t = ([], [], refl, refl, refl, tt)

  glob-mismatch :
      (a c : ℕ) (p t : List ℕ)
      → ((a == question) || same a c) ≡ false
      → (a == star) ≡ false
      → glob (a ∷ p) (c ∷ t) ≡ false
  unfolding glob
  glob-mismatch a c p t e g = ground arith

  glob-step :
      (a c : ℕ) (p t : List ℕ)
      → ((a == question) || same a c) ≡ true
      → (a == star) ≡ false
      → glob (a ∷ p) (c ∷ t) ≡ glob p t
  unfolding glob
  glob-step a c p t e g = ground arith

  not_star :
      (a c : ℕ) → same star c ≡ false → ((a == question) || same a c) ≡ true → (a == star) ≡ false
  not_star a c n e = elim (Bool-cases (a == star)) [
    | inl g ↦ let q : a ≡ star = ground arith in absurd (ground (arith, q, n, e))
    | inr g ↦ g
  ]

  verdict-step :
      (a c : ℕ) (p t : List ℕ) (r : Resume)
      → glob (a ∷ p) (c ∷ t) ≡ glob p t
      → verdict p t r ≡ verdict (a ∷ p) (c ∷ t) r
  verdict-step a c p t none e = sym e
  verdict-step a c p t (some (q, u)) e = ap (λ b. b || later q u) (sym e)

  verdict-star :
      (p : List ℕ) (c : ℕ) (t : List ℕ) (r : Resume)
      → Moved (star ∷ p) (c ∷ t) r
      → (glob p (c ∷ t) || later p (c ∷ t)) ≡ verdict (star ∷ p) (c ∷ t) r
  unfolding glob
  verdict-star p c t none m = refl
  verdict-star p c t (some (q, u)) m =
      let more = later-star p (c ∷ t) q u m in
      elim (Bool-cases (later q u)) [
        | inl h ↦ let yes_star = more h in ground (arith, h, yes_star)
        | inr h ↦ ground (arith, h)
      ]

  loop_exact :
      (f : ℕ) (p t : List ℕ) (r : Resume) {b : Bool}
      → Clean t
      → CleanResume r
      → Moved p t r
      → glob_loop same f p t r ≡ some b
      → b ≡ verdict p t r
  unfolding glob_loop
  loop_exact zero p t r k v m h = absurd (cc h)
  loop_exact (suc f) [] [] r k v m h = cc (h, verdict-nil [] r m)
  loop_exact (suc f) (a ∷ p) [] r k v m h = cc (h, verdict-nil (a ∷ p) r m)
  loop_exact (suc f) [] (c ∷ t) none k v m h = unfold glob in cc h
  loop_exact (suc f) [] (c ∷ t) (some (q, [])) k v (w, x, e, g, l, n) h =
      absurd (omega (arith, ap length g, length-append x (c ∷ t)))
  loop_exact (suc f) [] (c ∷ t) (some (q, d ∷ u)) k v m h =
      loop_exact f q u (some (q, u)) v.1 v.1 (here q u) h ∙ back q u ∙ unfold glob in refl
  loop_exact (suc f) (a ∷ p) (c ∷ t) none k v m h =
      elim (Bool-cases ((a == question) || same a c)) [
        | inl e ↦
            let n = not_star a c k.0 e in
            loop_exact f p t none k.1 tt tt (rw e at h)
            ∙ verdict-step a c p t none (glob-step a c p t e n)
        | inr e ↦ elim (Bool-cases (a == star)) [
          | inl g ↦
              let is : a ≡ star = ground arith in
              loop_exact f p (c ∷ t) (some (p, c ∷ t)) k k (here p (c ∷ t)) (rw (e, g) at h)
              ∙ verdict-star p c t none tt
              ∙ ap (λ z. verdict (z ∷ p) (c ∷ t) none) (sym is)
          | inr g ↦ cc (rw (e, g) at h, glob-mismatch a c p t e g)
        ]
      ]
  loop_exact (suc f) (a ∷ p) (c ∷ t) (some (q, [])) k v (w, x, e, g, l, n) h =
      absurd (omega (arith, ap length g, length-append x (c ∷ t)))
  loop_exact (suc f) (a ∷ p) (c ∷ t) (some (q, d ∷ u)) k v m h =
      elim (Bool-cases ((a == question) || same a c)) [
        | inl e ↦
            let n = not_star a c k.0 e in
            loop_exact f p t (some (q, d ∷ u)) k.1 v (Moved-step a c p t (some (q, d ∷ u)) n m)
              (rw e at h)
            ∙ verdict-step a c p t (some (q, d ∷ u)) (glob-step a c p t e n)
        | inr e ↦ elim (Bool-cases (a == star)) [
          | inl g ↦
              let is : a ≡ star = ground arith in
              loop_exact f p (c ∷ t) (some (p, c ∷ t)) k k (here p (c ∷ t)) (rw (e, g) at h)
              ∙ verdict-star p c t (some (q, d ∷ u))
                  (subst (λ z. Moved (z ∷ p) (c ∷ t) (some (q, d ∷ u))) is m)
              ∙ ap (λ z. verdict (z ∷ p) (c ∷ t) (some (q, d ∷ u))) (sym is)
          | inr g ↦
              loop_exact f q u (some (q, u)) v.1 v.1 (here q u) (rw (e, g) at h)
              ∙ back q u
              ∙ ap (λ b. b || later q (d ∷ u)) (sym (glob-mismatch a c p t e g))
        ]
      ]

  -- Where no character of the text is taken for a star, the matcher decides exactly whether the
  -- pattern fits the text, whatever test of characters it uses.
  pub glob_match_with-exact :
      (p t : List ℕ) → All (λ c. same star c ≡ false) t → glob_match_with same p t ≡ glob p t
  glob_match_with-exact p t clean =
      let (b, e) = glob_loop-total same p t in
      ap or_false e ∙ loop_exact (enough (length p) (length t)) p t none clean tt tt e
