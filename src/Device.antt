-- ===== src/Device.antt =====
-- crates/curfew-sync/src/device.rs: a device is its keys, and its id is a hash of the signing key.
use curfew.Prelude.{
  ℕ, zero, suc, ◌+◌, ◌-◌, ◌*◌, ◌/◌, ◌%◌, ◌^◌, ◌≡◌, Bool, true, not, ◌&&◌, ◌||◌, List, [], ◌∷◌, ◌++◌,
  map, ltb, leb, ◌==◌, if◌then◌else◌,
}
use curfew.Prelude.Lists.{all, any, length}
use curfew.Prelude.Text.{Text, codes, trim, as_bytes}
use curfew.Prelude.Result.{Result, ok, err}

-- ed25519-dalek, x25519-dalek and sha2: the operations that the code calls, and what it relies on.
pub record Crypto (SigningKey StaticSecret : Type 0) : Type 0 where
  pub sha256 : List ℕ → List ℕ
  pub from_bytes : List ℕ → Bool
  pub verifying_key : SigningKey → List ℕ
  pub sign : SigningKey → List ℕ → List ℕ
  pub verify : List ℕ → List ℕ → List ℕ → Bool
  pub exchange_public : StaticSecret → List ℕ
  pub diffie_hellman : StaticSecret → List ℕ → List ℕ
  pub from_bytes-verifying_key : (k : SigningKey) → from_bytes (verifying_key k) ≡ true
  pub verify-sign :
      (k : SigningKey) (message : List ℕ) → verify (verifying_key k) message (sign k message) ≡ true

abbrev alphabet : List ℕ
alphabet = codes "0123456789ABCDEFGHJKMNPQRSTVWXYZ"

abbrev pub id_bytes : ℕ
id_bytes = 16

pub data Error : Type 0 where
  key_length : ℕ → Error
  bad_key : Error
  bad_signature : Error

abbrev pub DeviceId : Type 0
DeviceId = Text

abbrev letter : List ℕ → ℕ → ℕ
letter [] n = 0
letter (c ∷ cs) zero = c
letter (c ∷ cs) (suc n) = letter cs n

-- `acc << n` of a `u32`
abbrev shl : ℕ → ℕ → ℕ
shl acc n = acc * 2 ^ n % 2 ^ 32

-- The inner loop, for at most `rounds` rounds: the letters and the bits that are left.
unfoldable pub drain : ℕ → ℕ → ℕ → Text × ℕ
drain zero acc bits = ([], bits)
drain (suc rounds) acc bits =
    let (rest, left) = drain rounds acc (bits - 5) in
    if leb 5 bits then (letter alphabet (acc / 2 ^ (bits - 5) % 32) ∷ rest, left) else ([], bits)

-- The outer loop. At most 4 bits are left over from the byte before, so there are 2 rounds at most.
unfoldable pub base32_from : ℕ → ℕ → List ℕ → Text
base32_from acc bits [] = if ltb 0 bits then letter alphabet (shl acc (5 - bits) % 32) ∷ [] else []
base32_from acc bits (byte ∷ bytes) =
    let acc' = shl acc 8 + byte in
    let (letters, left) = drain 2 acc' (bits + 8) in letters ++ base32_from acc' left bytes

unfoldable pub base32 : List ℕ → Text
base32 bytes = base32_from 0 0 bytes

abbrev pub take : ℕ → List ℕ → List ℕ
take zero xs = []
take (suc n) [] = []
take (suc n) (x ∷ xs) = x ∷ take n xs

abbrev to_ascii_uppercase : Text → Text
to_ascii_uppercase s = map (λ c. if leb b'a' c && leb c b'z' then c - 32 else c) s

-- `FromStr`
unfoldable pub from_str : Text → Result DeviceId Error
from_str text =
    let t = to_ascii_uppercase (trim text) in
    if not (length (as_bytes t) == 26) || not (all (λ b. any (λ c. c == b) alphabet) (as_bytes t))
    then err bad_key
    else ok t

pub record PublicIdentity : Type 0 where
  pub name : Text
  pub signing : List ℕ
  pub exchange : List ℕ

pub record Identity (SigningKey StaticSecret : Type 0) : Type 0 where
  pub name : Text
  pub signing : SigningKey
  pub exchange : StaticSecret

module _ {K X : Type 0} (crypto : Crypto K X) where
  -- `DeviceId::of`
  unfoldable pub device_id : List ℕ → DeviceId
  device_id signing = base32 (take id_bytes (crypto.sha256 signing))

  unfoldable pub public_id : PublicIdentity → Result DeviceId Error
  public_id p = if crypto.from_bytes p.signing then ok (device_id p.signing) else err bad_key

  unfoldable pub verify : PublicIdentity → List ℕ → List ℕ → Result Unit Error
  verify p message signature =
      if crypto.from_bytes p.signing
      then (if crypto.verify p.signing message signature then ok tt else err bad_signature)
      else err bad_key

  unfoldable pub public : Identity K X → PublicIdentity
  public me = record {
    name = me.name;
    signing = crypto.verifying_key me.signing;
    exchange = crypto.exchange_public me.exchange;
  }

  unfoldable pub id : Identity K X → DeviceId
  id me = device_id (crypto.verifying_key me.signing)

  unfoldable pub sign : Identity K X → List ℕ → List ℕ
  sign me message = crypto.sign me.signing message

  unfoldable pub agree : Identity K X → PublicIdentity → List ℕ
  agree me other = crypto.diffie_hellman me.exchange other.exchange
