-- ===== src/Samples/SignIn.antt =====
-- A user with a session, a link and an empty throttle.
pub mod Tokens
pub mod Logins
pub mod Factors
pub mod Google
use socialhub.Crypto.Base32.{is_empty}
use socialhub.Samples.Codes.{totp_ports}
use socialhub.Auth.{
  AuthPorts, AuthUser, RefreshToken, UserToken, World, password_reset, email_verification,
  Organization, active, invalid_refresh_token, AuthResponse, invalid_link,
}
use socialhub.Database.Rows.{rows}
use socialhub.Database.Slots.{find, find_many, update_many, update_all, create, stored}
use socialhub.RateLimit.Memory.{memory, nothing_stored}
use mathlib.Core.Option.{some-injective}
use text.Mathlib.Text.{◌==◌ as str_eq}
use socialhub.Schema.{UserRole, RowId}
use socialhub.Prelude.{
  refl, ◌≡◌, ◌+◌, ◌*◌, some, [], ◌∷◌, false, none, err, Option, sym, Bool-cases, ◌∙◌, ok, subst,
  ◌==◌, inl, arith, ==_iff, inr, if◌then◌else◌, codes, true,
}

abbrev auth_ports : AuthPorts
auth_ports = record {
  users = rows;
  organizations = rows;
  refresh_tokens = rows;
  user_tokens = rows;
  recovery_codes = rows;
  redis = memory;
  throttle = record {
    window_seconds = 900;
    max_per_email = 1;
    max_per_ip = 20;
    max_flood_per_ip = 1;
    normalize = λ s. s;
  };
  hash_token = λ s. s;
  hash_password = λ salt p. p;
  password_matches = λ p h. str_eq p h;
  sign = λ c. "access";
  sign_challenge = λ id. "challenge";
  open_challenge = λ now token.
      if str_eq token "challenge" then some (record { sub = 1; typ = "mfa_challenge" }) else none;
  encrypt = λ t. "sealed";
  decrypt = λ s. some (codes "MZXW6");
  totp = totp_ports;
  to_lower = λ t. t;
  hash_code = λ t. if is_empty t then "none" else "hashed";
  refresh_expiry = λ now. now + 1000000;
  default_org_name = λ email. email;
}

abbrev ada : AuthUser
ada = record {
  email = "ada";
  password_hash = some "secret";
  role = UserRole.owner;
  org_id = 0;
  mfa_enabled = false;
  mfa_secret_enc = none;
  email_verified_at = none;
  google_id = none;
}

-- With the second factor on.
abbrev grace : AuthUser
grace = record ada { email = "grace"; mfa_enabled = true; mfa_secret_enc = some "sealed" }

abbrev token : RefreshToken
token = record { user_id = 0; token_hash = "first"; expires_at = 5000; revoked = false }

abbrev reset_link : UserToken
reset_link = record {
  user_id = 0;
  token_type = password_reset;
  token_hash = "link";
  expires_at = 5000;
  consumed_at = none;
}

unfoldable world : World auth_ports
unfolding rows
world = record {
  users = stored (grace ∷ ada ∷ []);
  organizations = stored (record { name = "ada"; status = active; suspended_at = none } ∷ []);
  refresh_tokens = stored (token ∷ []);
  user_tokens = stored (reset_link ∷ []);
  recovery_codes = stored (record { user_id = 1; code_hash = "hashed"; used_at = none } ∷ []);
  counters = nothing_stored;
}
