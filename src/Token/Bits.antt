-- ===== src/Token/Bits.antt =====
-- `equal` and `identify` of crates/curfew-core/src/token.rs: the comparison in constant time.
use curfew.Prelude.{
  ℕ, zero, suc, ◌/◌, ◌<◌, ◌≡◌, refl, sym, ap, ap₂, ◌∙◌, subst, List, [], ◌∷◌, arith,
}
use curfew.Prelude.Lists.{length, All}
use curfew.Token.{xor, or, differ}

-- The number has no more than so many bits.
abbrev pub Fits : ℕ → ℕ → Type 0
Fits zero a = a ≡ 0
Fits (suc bits) a = Fits bits (a / 2)

Fits-byte : (a : ℕ) → a < 256 → Fits 8 a
Fits-byte a h = omega arith

pub Fits-zero : (bits : ℕ) → Fits bits 0
Fits-zero zero = refl
Fits-zero (suc bits) = Fits-zero bits

xor-same : (bits a : ℕ) → xor bits a a ≡ 0
unfolding xor
xor-same zero a = refl
xor-same (suc bits) a = omega (arith, xor-same bits (a / 2))

xor-zero : (bits a b : ℕ) → Fits bits a → Fits bits b → xor bits a b ≡ 0 → a ≡ b
unfolding xor
xor-zero zero a b h k e = h ∙ sym k
xor-zero (suc bits) a b h k e =
    let halves = xor-zero bits (a / 2) (b / 2) h k (omega (arith, e)) in omega (arith, halves, e)

xor-Fits : (bits a b : ℕ) → Fits bits (xor bits a b)
unfolding xor
xor-Fits zero a b = refl
xor-Fits (suc bits) a b = subst (Fits bits) (omega arith) (xor-Fits bits (a / 2) (b / 2))

or-Fits : (bits a b : ℕ) → Fits bits (or bits a b)
unfolding or
or-Fits zero a b = refl
or-Fits (suc bits) a b = subst (Fits bits) (omega arith) (or-Fits bits (a / 2) (b / 2))

or-none : (bits : ℕ) → or bits 0 0 ≡ 0
unfolding or
or-none zero = refl
or-none (suc bits) = omega (arith, or-none bits)

or-zero : (bits a b : ℕ) → Fits bits a → Fits bits b → or bits a b ≡ 0 → (a ≡ 0) × (b ≡ 0)
unfolding or
or-zero zero a b h k e = (h, k)
or-zero (suc bits) a b h k e =
    let halves = or-zero bits (a / 2) (b / 2) h k (omega (arith, e)) in
    (omega (arith, halves.0, e), omega (arith, halves.1, e))

-- No bit differs exactly where none did before and the bytes are those of the other.
pub differ-zero :
    (diff : ℕ) (xs ys : List ℕ)
    → Fits 8 diff
    → All (λ b. b < 256) xs
    → All (λ b. b < 256) ys
    → length xs ≡ length ys
    → differ diff xs ys ≡ 0
    → (diff ≡ 0) × (xs ≡ ys)
unfolding differ
differ-zero diff [] [] f h k l e = (e, refl)
differ-zero diff [] (y ∷ ys) f h k l e = absurd (omega (arith, l))
differ-zero diff (x ∷ xs) [] f h k l e = absurd (omega (arith, l))
differ-zero diff (x ∷ xs) (y ∷ ys) f h k l e =
    let (here, rest) =
      differ-zero (or 8 diff (xor 8 x y)) xs ys (or-Fits 8 diff (xor 8 x y)) h.1 k.1
        (omega (arith, l)) e in
    let (before, same) = or-zero 8 diff (xor 8 x y) f (xor-Fits 8 x y) here in
    (before, ap₂ ◌∷◌ (xor-zero 8 x y (Fits-byte x h.0) (Fits-byte y k.0) same) rest)

pub differ-same : (xs : List ℕ) → differ 0 xs xs ≡ 0
unfolding differ
differ-same [] = refl
differ-same (x ∷ xs) =
    ap (λ z. differ (or 8 0 z) xs xs) (xor-same 8 x)
    ∙ ap (λ z. differ z xs xs) (or-none 8)
    ∙ differ-same xs
