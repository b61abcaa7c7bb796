-- ===== src/Auth/Guard.antt =====
-- Who may call: src/infrastructure/http/guards/auth.guard.ts, with the secrets of
-- src/infrastructure/auth/env-provider-credentials.ts.
use jungle_challenge.Common.{
  ℕ, not, ◌||◌, String, Option, none, some, List, [], ◌∷◌, ◌==◌, string_eq, if◌then◌else◌,
}
use jungle_challenge.Auth.Hmac.{
  Platform, SignatureParts, HmacVerifyReason, HmacVerifyResult, verified, refused,
  verify_hmac_signature,
}

-- A header that came once, or several times.
pub data HeaderValue : Type 0 where
  one : String → HeaderValue
  many : List String → HeaderValue

pub record SignedRequest : Type 0 where
  pub method : String
  pub url : String
  pub original_url : Option String
  pub headers : String → Option HeaderValue
  pub raw_body : Option (List ℕ)
  -- `body.providerId`, where it is a text
  pub body_provider_id : Option String

pub data AuthMode : Type 0 where
  off hmac : AuthMode

pub record AuthConfig : Type 0 where
  pub mode : AuthMode
  pub hmac_timestamp_tolerance_seconds : ℕ

pub data AuthFailure : Type 0 where
  missing_headers unknown_provider stale_timestamp bad_signature : AuthFailure

-- It returns true, or throws 401 for a reason, or 403.
pub data Access : Type 0 where
  allowed : Access
  unauthenticated : AuthFailure → Access
  forbidden : Access

abbrev pub first : List String → Option String
first [] = none
first (v ∷ vs) = some v

abbrev pub header_value : Option HeaderValue → Option String
header_value none = none
header_value (some (one v)) = some v
header_value (some (many vs)) = first vs

-- `EnvProviderCredentials`: the own members of the object.
unfoldable pub secret_for : List (String × String) → String → Option String
secret_for [] provider_id = none
secret_for ((key, secret) ∷ secrets) provider_id =
    let rest = secret_for secrets provider_id in if key == provider_id then some secret else rest

abbrev pub given_or : {A : Type 0} → A → Option A → A
given_or a none = a
given_or a (some b) = b

abbrev pub auth_failure : HmacVerifyReason → AuthFailure
auth_failure HmacVerifyReason.stale_timestamp = AuthFailure.stale_timestamp
auth_failure _ = AuthFailure.bad_signature

abbrev pub check_body : String → Option String → Access
check_body provider_id none = allowed
check_body provider_id (some body_provider_id) =
    if not (body_provider_id == provider_id) then forbidden else allowed

abbrev pub parts_of : SignedRequest → String → String → SignatureParts
parts_of req provider_id timestamp = record {
  method = req.method;
  path = given_or req.url req.original_url;
  provider_id = provider_id;
  timestamp = timestamp;
  raw_body = given_or [] req.raw_body;
}

-- A signature that is refused for its form counts as a bad one.
abbrev pub check_verified : Option String → String → HmacVerifyResult → Access
check_verified body_provider_id provider_id verified = check_body provider_id body_provider_id
check_verified body_provider_id provider_id (refused reason) = unauthenticated (auth_failure reason)

module _ (H : Platform) (config : AuthConfig) (secrets : String → Option String)
    (req : SignedRequest) (now : ℕ) where
  abbrev pub check_secret : String → String → String → Option String → Access
  check_secret provider_id timestamp signature none = unauthenticated AuthFailure.unknown_provider
  check_secret provider_id timestamp signature (some secret) =
      if secret == ""
      then unauthenticated AuthFailure.unknown_provider
      else check_verified req.body_provider_id provider_id (
          verify_hmac_signature H (parts_of req provider_id timestamp) signature secret now
            config.hmac_timestamp_tolerance_seconds)

  abbrev pub check_headers : Option String → Option String → Option String → Access
  check_headers (some provider_id) (some timestamp) (some signature) =
      if provider_id == "" || (timestamp == "" || signature == "")
      then unauthenticated AuthFailure.missing_headers
      else check_secret provider_id timestamp signature (secrets provider_id)
  check_headers _ _ _ = unauthenticated AuthFailure.missing_headers

  abbrev pub check_mode : AuthMode → Access
  check_mode AuthMode.off = allowed
  check_mode AuthMode.hmac =
      check_headers (header_value (req.headers "x-provider-id"))
        (header_value (req.headers "x-timestamp")) (header_value (req.headers "x-signature"))

  unfoldable pub can_activate : Access
  can_activate = check_mode config.mode
