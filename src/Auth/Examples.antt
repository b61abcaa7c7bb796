-- ===== src/Auth/Examples.antt =====
-- A signed request, with digests that are easy to read.
use jungle_challenge.Common.{
  ℕ, ◌/◌, ◌%◌, ◌≡◌, refl, String, Option, none, some, List, [], ◌∷◌, ◌==◌, string_eq, nat_eq,
  if◌then◌else◌,
}
use jungle_challenge.Common.Int.{pos, ◌-ℤ◌}
use jungle_challenge.Common.Lists.{length}
use jungle_challenge.Auth.Canonical.{FitsOnLines, canonical_string_to_sign-tells_apart}
use jungle_challenge.Auth.Guard.{
  SignedRequest, AuthConfig, AuthMode, allowed, forbidden, HeaderValue, one, many, secret_for,
  parts_of, can_activate,
}
use jungle_challenge.Auth.Hmac.{
  Platform, SignatureParts, canonical_string_to_sign, verify_hmac_signature,
}
use jungle_challenge.Money.Amount.{codes, matches_amount, amount_value}

-- The digest of a body is a mark of its length, that of a text the number of its characters.
abbrev platform : Platform
platform = record {
  sha256_hex = λ body. if length body == 0 then "0" else "1";
  hmac_sha256 = λ key text. length (codes text) % 256 ∷ [];
  to_upper_case = λ s. s;
  integer_of =
      λ s. if matches_amount (codes s) then some (pos (amount_value (codes s) / 100)) else none;
}

abbrev config : AuthConfig
config = record { mode = AuthMode.hmac; hmac_timestamp_tolerance_seconds = 300 }

abbrev secrets : List (String × String)
secrets = ("beta", "s1") ∷ ("acme", "s2") ∷ []

abbrev headers : String → Option HeaderValue
headers name =
    if name == "x-provider-id"
    then some (one "acme")
    else (if name == "x-timestamp"
        then some (one "1000")
        else (if name == "x-signature" then some (many ("19" ∷ [])) else none))

-- "POST", "/wallets", "acme", "1000" and "0" on five lines: 25 characters, and 19 is 25.
abbrev request : SignedRequest
request = record {
  method = "POST";
  url = "/wallets";
  original_url = none;
  headers = headers;
  raw_body = none;
  body_provider_id = some "acme";
}

passes : can_activate platform config (secret_for secrets) request 1100000 ≡ allowed
unfolding can_activate secret_for verify_hmac_signature canonical_string_to_sign ◌-ℤ◌
passes = refl

speaks_for_another :
    can_activate platform config
      (secret_for secrets)
      (record request { body_provider_id = some "beta" })
      1100000
    ≡ forbidden
unfolding can_activate secret_for verify_hmac_signature canonical_string_to_sign ◌-ℤ◌
speaks_for_another = refl

abbrev parts : SignatureParts
parts = parts_of request "acme" "1000"

-- Another body with the same mark.
abbrev with_body : List ℕ → SignatureParts
with_body body = record parts { raw_body = body }

with_body-FitsOnLines : (body : List ℕ) → FitsOnLines platform (with_body body)
with_body-FitsOnLines body = record {
  method = refl;
  path = refl;
  provider_id = refl;
  timestamp = refl;
}

canonical_string_to_sign-tells_apart_example :
    (platform.to_upper_case parts.method ≡ platform.to_upper_case parts.method)
    × (parts.path ≡ parts.path)
    × (parts.provider_id ≡ parts.provider_id)
    × (parts.timestamp ≡ parts.timestamp)
    × (platform.sha256_hex (1 ∷ []) ≡ platform.sha256_hex (2 ∷ 3 ∷ []))
unfolding canonical_string_to_sign
canonical_string_to_sign-tells_apart_example =
    canonical_string_to_sign-tells_apart platform (with_body (1 ∷ [])) (with_body (2 ∷ 3 ∷ []))
      (with_body-FitsOnLines (1 ∷ [])) (with_body-FitsOnLines (2 ∷ 3 ∷ [])) refl
