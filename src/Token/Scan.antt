-- ===== src/Token/Scan.antt =====
-- `identify` of crates/curfew-core/src/token.rs: the tag that a scan is of.
use curfew.Prelude.{
  ℕ, ◌/◌, ◌%◌, ◌<◌, ◌≡◌, refl, ap, ◌∙◌, Bool, Option, none, some, List, [], ◌∷◌, ◌++◌, map, inl,
  inr, Bool-cases, arith, Bool-ext,
}
use curfew.Prelude.Lists.{All, find}
use curfew.Prelude.Order.{list_eq, list_eq→eq, list_eq_refl}
use curfew.Prelude.Text.{Text, codes, trim, as_bytes, utf8_char, ascii_lower}
use curfew.Config.{Tag}
use curfew.Token.{hex_digit, hex_all, equal, fingerprint, identify, identify_from}
use curfew.Token.Bits.{differ-zero, differ-same, Fits-zero}

abbrev pub AreBytes : List ℕ → Type 0
AreBytes xs = All (λ b. b < 256) xs

bytes_of_ascii : (c : ℕ) (cs : Text) → c < 128 → as_bytes (c ∷ cs) ≡ c ∷ as_bytes cs
unfolding as_bytes utf8_char
bytes_of_ascii c cs h = ground arith

hex_digit-ascii : (n : ℕ) → n < 16 → hex_digit n < 128
hex_digit-ascii n h = ground arith

hex_all-AreBytes : (bs : List ℕ) → AreBytes bs → AreBytes (as_bytes (hex_all bs))
unfolding hex_all
hex_all-AreBytes [] h = unfold as_bytes in tt
hex_all-AreBytes (b ∷ bs) h =
    let high = hex_digit-ascii (b / 16) (omega (arith, h.0)) in
    let low = hex_digit-ascii (b % 16) (omega arith) in
    rw
      (
        bytes_of_ascii (hex_digit (b / 16)) (hex_digit (b % 16) ∷ hex_all bs) high,
        bytes_of_ascii (hex_digit (b % 16)) (hex_all bs) low,
      )
      (omega (arith, high), (omega (arith, low), hex_all-AreBytes bs h.1))

-- The comparison in constant time is a comparison.
pub equal-exact :
    (a b : Text)
    → AreBytes (as_bytes a)
    → AreBytes (as_bytes b)
    → equal a b ≡ list_eq (as_bytes a) (as_bytes b)
unfolding equal
equal-exact a b h k =
    Bool-ext (equal a b) (list_eq (as_bytes a) (as_bytes b))
      (λ e.
        let same =
          (differ-zero 0 (as_bytes a) (as_bytes b) (Fits-zero 8) h k (ground (arith, e))
            (ground (arith, e))).1 in
        rw same (list_eq_refl (as_bytes b)))
      (λ e.
        let same = list_eq→eq (as_bytes a) (as_bytes b) e in
        rw same (ground (arith, differ-same (as_bytes b))))

abbrev pub id_of : Option Tag → Option Text
id_of none = none
id_of (some tag) = some tag.id

-- The tag has this fingerprint, in capitals or not.
abbrev pub has_fingerprint : Text → Tag → Bool
has_fingerprint seen tag = list_eq (as_bytes (map ascii_lower tag.hash)) (as_bytes seen)

identify_from-found :
    (seen id : Text) (tags : List Tag) → identify_from seen (some id) tags ≡ some id
unfolding identify_from
identify_from-found seen id [] = refl
identify_from-found seen id (tag ∷ tags) =
    ap (λ z. identify_from seen z tags) (ground arith) ∙ identify_from-found seen id tags

identify_from-exact :
    (seen : Text) (tags : List Tag)
    → AreBytes (as_bytes seen)
    → All (λ tag. AreBytes (as_bytes (map ascii_lower tag.hash))) tags
    → identify_from seen none tags ≡ id_of (find (has_fingerprint seen) tags)
unfolding identify_from
identify_from-exact seen [] h k = refl
identify_from-exact seen (tag ∷ tags) h k =
    let test = equal-exact (map ascii_lower tag.hash) seen k.0 h in
    elim (Bool-cases (has_fingerprint seen tag)) [
      | inl e ↦ rw (test, e) (identify_from-found seen tag.id tags)
      | inr e ↦ rw (test, e) (identify_from-exact seen tags h k.1)
    ]

-- A scan names the first tag in the configuration whose fingerprint, read in lower case, is that of
-- the payload, and no other, where SHA-256 gives bytes and the fingerprints in the configuration are
-- written in bytes.
pub identify-exact :
    (sha256 : List ℕ → List ℕ) (tags : List Tag) (payload : Text)
    → ((message : List ℕ) → AreBytes (sha256 message))
    → All (λ tag. AreBytes (as_bytes (map ascii_lower tag.hash))) tags
    → identify sha256 tags payload
      ≡ id_of (find (has_fingerprint (fingerprint sha256 payload)) tags)
unfolding identify fingerprint
identify-exact sha256 tags payload bytes k =
    let digest = sha256 (codes "curfew-token-v1" ++ as_bytes (trim payload)) in
    identify_from-exact (hex_all digest) tags (hex_all-AreBytes digest (bytes _)) k
