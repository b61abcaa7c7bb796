-- ===== src/Auth/Hmac.antt =====
-- The signature of a request: src/infrastructure/auth/hmac.ts. What the platform computes is a parameter:
-- the two digests, `toUpperCase`, and the number that a text stands for.
use jungle_challenge.Common.{
  ℕ, ◌+◌, ◌-◌, ◌*◌, ◌/◌, ◌%◌, Bool, true, false, not, ◌&&◌, ◌||◌, String, Option, none, some, List,
  [], ◌∷◌, ◌==◌, string_eq, nat_eq, leb, ltb, if◌then◌else◌,
}
use jungle_challenge.Common.Int.{ℤ, pos, pos_part, neg_part, ◌-ℤ◌}
use jungle_challenge.Common.Lists.{length}
use jungle_challenge.Application.CanonicalJson.{◌<>◌}
use jungle_challenge.Money.Amount.{codes}

pub record Platform : Type 0 where
  -- sha-256 of bytes, as hexadecimal text
  pub sha256_hex : List ℕ → String
  -- hmac-sha256 of a text, by a key
  pub hmac_sha256 : String → String → List ℕ
  pub to_upper_case : String → String
  -- `Number(text)`; `none` where it is not an integer (NaN and the infinities are not)
  pub integer_of : String → Option ℤ

-- A body is its bytes.
pub record SignatureParts : Type 0 where
  pub method : String
  pub path : String
  pub provider_id : String
  pub timestamp : String
  pub raw_body : List ℕ

abbrev pub newline : String
newline = "\n"

pub data HmacVerifyReason : Type 0 where
  malformed stale_timestamp bad_signature : HmacVerifyReason

pub data HmacVerifyResult : Type 0 where
  verified : HmacVerifyResult
  refused : HmacVerifyReason → HmacVerifyResult

-- `/[0-9a-f]/i`
abbrev pub is_hex_digit : ℕ → Bool
is_hex_digit c = leb b'0' c && leb c b'9' || (leb b'a' c && leb c b'f' || leb b'A' c && leb c b'F')

abbrev pub all_hex : List ℕ → Bool
all_hex [] = true
all_hex (c ∷ s) = is_hex_digit c && all_hex s

-- `/^[0-9a-f]+$/i`, and an even length
abbrev pub is_hex_text : List ℕ → Bool
is_hex_text s = not (length s == 0) && (all_hex s && length s % 2 == 0)

abbrev hex_value : ℕ → ℕ
hex_value c = if leb c b'9' then c - b'0' else (if leb c b'F' then c - b'A' + 10 else c - b'a' + 10)

-- `Buffer.from(signature, "hex")`, of a text of pairs of digits
abbrev pub hex_bytes : List ℕ → List ℕ
hex_bytes (a ∷ b ∷ s) = (hex_value a * 16 + hex_value b) ∷ hex_bytes s
hex_bytes _ = []

-- Equal lengths, and `timingSafeEqual`
abbrev pub same_bytes : List ℕ → List ℕ → Bool
same_bytes [] [] = true
same_bytes (a ∷ s) (b ∷ t) = a == b && same_bytes s t
same_bytes _ _ = false

-- `Math.abs(Math.floor(now.getTime() / 1000) - ts)`
abbrev pub skew_of : ℕ → ℤ → ℕ
skew_of now ts = let d = pos (now / 1000) -ℤ ts in pos_part d + neg_part d

module _ (H : Platform) where
  unfoldable pub canonical_string_to_sign : SignatureParts → String
  canonical_string_to_sign p =
      H.to_upper_case p.method
      <> newline
      <> p.path
      <> newline
      <> p.provider_id
      <> newline
      <> p.timestamp
      <> newline
      <> H.sha256_hex p.raw_body

  abbrev pub check_digest : SignatureParts → String → String → HmacVerifyResult
  check_digest parts signature secret =
      if not (
        same_bytes (hex_bytes (codes signature))
          (H.hmac_sha256 secret (canonical_string_to_sign parts)))
      then refused HmacVerifyReason.bad_signature
      else verified

  abbrev pub check_skew : SignatureParts → String → String → ℕ → ℕ → Option ℤ → HmacVerifyResult
  check_skew parts signature secret now tolerance none = refused HmacVerifyReason.malformed
  check_skew parts signature secret now tolerance (some ts) =
      if ltb tolerance (skew_of now ts)
      then refused HmacVerifyReason.stale_timestamp
      else check_digest parts signature secret

  unfoldable pub verify_hmac_signature : SignatureParts → String → String → ℕ → ℕ → HmacVerifyResult
  verify_hmac_signature parts signature secret now tolerance =
      if not (is_hex_text (codes signature))
      then refused HmacVerifyReason.malformed
      else check_skew parts signature secret now tolerance (H.integer_of parts.timestamp)
