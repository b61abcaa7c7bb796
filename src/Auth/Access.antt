-- ===== src/Auth/Access.antt =====
-- Whom the guard of src/infrastructure/http/guards/auth.guard.ts lets pass.
use jungle_challenge.Common.{
  ℕ, ◌≤◌, ◌≡◌, true, false, String, Option, some, ◌==◌, string_eq, nat_eq,
}
use jungle_challenge.Common.Int.{ℤ}
use jungle_challenge.Auth.Guard.{SignedRequest, AuthConfig, header_value, parts_of}
use jungle_challenge.Auth.Hmac.{
  Platform, SignatureParts, is_hex_text, hex_bytes, skew_of, canonical_string_to_sign,
}
use jungle_challenge.Money.Amount.{codes}

-- The signature is the digest of the request, by the secret, and the time is near.
pub record IsSigned (H : Platform) (parts : SignatureParts) (signature secret : String)
    (now tolerance : ℕ) : Type 0 where
  pub hex : is_hex_text (codes signature) ≡ true
  pub at : ℤ
  pub read : H.integer_of parts.timestamp ≡ some at
  pub recent : skew_of now at ≤ tolerance
  pub digest : hex_bytes (codes signature) ≡ H.hmac_sha256 secret (canonical_string_to_sign H parts)

pub record IsAuthorised (H : Platform) (config : AuthConfig) (secrets : String → Option String)
    (req : SignedRequest) (now : ℕ) : Type 0 where
  pub provider_id : String
  pub timestamp : String
  pub signature : String
  pub secret : String
  pub provider_header : header_value (req.headers "x-provider-id") ≡ some provider_id
  pub timestamp_header : header_value (req.headers "x-timestamp") ≡ some timestamp
  pub signature_header : header_value (req.headers "x-signature") ≡ some signature
  pub named : (provider_id == "") ≡ false
  pub timed : (timestamp == "") ≡ false
  pub known : secrets provider_id ≡ some secret
  pub guarded : (secret == "") ≡ false
  pub signed :
      IsSigned H
        (parts_of req provider_id timestamp)
        signature
        secret
        now
        config.hmac_timestamp_tolerance_seconds
  -- A body speaks for no other provider.
  pub own : (other : String) → req.body_provider_id ≡ some other → other ≡ provider_id
