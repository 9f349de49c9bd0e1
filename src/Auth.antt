-- ===== src/Auth.antt =====
-- Signing in: the rows of backend/prisma/schema.prisma that it keeps, and what the services of
-- backend/src/auth take from elsewhere.
pub mod Session
pub mod Login
pub mod Account
pub mod Rotation
pub mod Replay
pub mod Links
pub mod Renewal
pub mod Races
pub mod Resets
pub mod Refusal
pub mod Throttling
pub mod Suspension
pub mod Mfa
pub mod SecondFactor
pub mod Passwords
pub mod IdToken
pub mod Google
pub mod Enrolment
use socialhub.Crypto.Totp.{TotpPorts}
use socialhub.Prelude.{Text, ℕ, String, Bool, true, false, Option, Result}
use text.Mathlib.Text.{◌==◌ as str_eq}
use socialhub.Schema.{RowId, Millis, UserRole}
use socialhub.Database.{Table}
use socialhub.RateLimit.{Redis}
use socialhub.RateLimit.Throttle.{ThrottleConfig, TooMany}

pub record AuthUser : Type 0 where
  pub email : String
  pub password_hash : Option String
  pub role : UserRole
  pub org_id : RowId
  pub mfa_enabled : Bool
  pub mfa_secret_enc : Option String
  pub email_verified_at : Option Millis
  pub google_id : Option String

pub record RefreshToken : Type 0 where
  pub user_id : RowId
  pub token_hash : String
  pub expires_at : Millis
  pub revoked : Bool

pub data UserTokenType : Type 0 where
  email_verification password_reset google_login_handoff : UserTokenType

abbrev pub type_eq : UserTokenType → UserTokenType → Bool
type_eq email_verification email_verification = true
type_eq password_reset password_reset = true
type_eq google_login_handoff google_login_handoff = true
type_eq _ _ = false

pub record UserToken : Type 0 where
  pub user_id : RowId
  pub token_type : UserTokenType
  pub token_hash : String
  pub expires_at : Millis
  pub consumed_at : Option Millis

pub data OrgStatus : Type 0 where
  active suspended : OrgStatus

abbrev pub is_suspended : Option OrgStatus → Bool
is_suspended (Option.some suspended) = true
is_suspended _ = false

pub record Organization : Type 0 where
  pub name : String
  pub status : OrgStatus
  pub suspended_at : Option Millis

pub record RecoveryCode : Type 0 where
  pub user_id : RowId
  pub code_hash : String
  pub used_at : Option Millis

-- ChallengePayload.
pub record ChallengePayload : Type 0 where
  pub sub : RowId
  pub typ : String

-- What is thrown: a 409, the 429, a 403, a 404, and the 401s and 400s by their message.
pub data AuthError : Type 0 where
  email_taken org_suspended org_not_found : AuthError
  throttled : TooMany → AuthError
  invalid_credentials invalid_refresh_token invalid_link unauthorized : AuthError
  mfa_session_expired invalid_mfa_session mfa_not_enabled mfa_already_enabled wrong_code : AuthError
  mfa_not_started : AuthError
  -- An exception of the cipher, or of the clock's counter.
  broken : AuthError

-- JwtPayload.
pub record Claims : Type 0 where
  pub sub : RowId
  pub email : String
  pub role : UserRole
  pub org_id : RowId

pub record AuthResponse : Type 0 where
  pub user : Claims
  pub access_token : String
  pub refresh_token : String

-- The tables, the Redis of the throttle, and what the language, bcrypt, the crypto library and the
-- signer of tokens give.
pub record AuthPorts : Type 1 where
  pub users : Table AuthUser
  pub organizations : Table Organization
  pub refresh_tokens : Table RefreshToken
  pub user_tokens : Table UserToken
  pub recovery_codes : Table RecoveryCode
  pub redis : Redis
  pub throttle : ThrottleConfig
  -- sha256 in hex
  pub hash_token : String → String
  -- bcrypt.hash with its random salt, and bcrypt.compare
  pub hash_password : (salt password : String) → String
  pub password_matches : (password hash : String) → Bool
  -- jwtService.signAsync
  pub sign : Claims → String
  -- jwtService.signAsync with the secret and the lifetime of a challenge, and verifyAsync
  pub sign_challenge : RowId → String
  pub open_challenge : (now : Millis) → String → Option ChallengePayload
  -- tokenEncryption.encrypt and decrypt, which may throw
  pub encrypt : Text → String
  pub decrypt : String → Option Text
  -- HMAC and toUpperCase of the one-time passwords, toLowerCase, and sha256 in hex of a code
  pub totp : TotpPorts
  pub to_lower : Text → Text
  pub hash_code : Text → String
  -- expiresAt.setDate(expiresAt.getDate() + refreshExpiresInDays)
  pub refresh_expiry : Millis → Millis
  -- email.split('@')[0], and the name made of it
  pub default_org_name : String → String

pub record World (ports : AuthPorts) : Type 0 where
  pub users : ports.users.State
  pub organizations : ports.organizations.State
  pub refresh_tokens : ports.refresh_tokens.State
  pub user_tokens : ports.user_tokens.State
  pub recovery_codes : ports.recovery_codes.State
  pub counters : ports.redis.State

-- findUnique({ where: { tokenHash } })
abbrev pub of_hash : String → RefreshToken → Bool
of_hash h t = str_eq t.token_hash h

abbrev pub token_of_hash : String → UserToken → Bool
token_of_hash h t = str_eq t.token_hash h

abbrev pub user_of_email : String → AuthUser → Bool
user_of_email email u = str_eq u.email email
