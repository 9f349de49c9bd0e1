-- ===== src/Auth/Login.antt =====
-- backend/src/auth/auth.service.ts: registration and the login with a password.
use socialhub.Prelude.{String, Bool, false, Option, none, some, Result, ok, err, if◌then◌else◌}
use text.Mathlib.Text.{◌==◌ as str_eq}
use socialhub.Schema.{RowId, Millis, UserRole}
use socialhub.Database.{first}
use socialhub.RateLimit.{Net}
use socialhub.RateLimit.Throttle.{
  TooMany, assert_login_allowed, record_login_failure, record_login_success,
}
use socialhub.Auth.{
  AuthPorts, AuthUser, Organization, OrgStatus, is_suspended, active, World, AuthResponse,
  AuthError, email_taken, org_suspended, throttled, invalid_credentials, user_of_email,
}
use socialhub.Auth.Session.{issue_token_pair, issued}
use socialhub.Auth.Account.{send_verification_email}

-- AuthResponseDto, or MfaChallengeResponseDto.
pub data LoginResponse : Type 0 where
  session : AuthResponse → LoginResponse
  mfa_required : (challenge_token : String) → LoginResponse

module _ (ports : AuthPorts) where
  abbrev pub find_by_email : String → World ports → Option (RowId × AuthUser)
  find_by_email email w =
      first (ports.users.find_many w.users (user_of_email (ports.throttle.normalize email)))

  abbrev pub status_of : Option Organization → Option OrgStatus
  status_of none = none
  status_of (some o) = some o.status

  unfoldable pub assert_org_active : RowId → World ports → Result AuthError (Unit {0})
  assert_org_active org_id w =
      if is_suspended (status_of (ports.organizations.find w.organizations org_id))
      then err org_suspended
      else ok tt

  -- A user without a password matches none.
  abbrev pub password_ok : (password : String) → AuthUser → Bool
  password_ok password u = elim u.password_hash [
    | none ↦ false
    | some h ↦ ports.password_matches password h
  ]

  abbrev pub as_auth_error : Result TooMany (Unit {0}) → Result AuthError (Unit {0})
  as_auth_error (ok _) = ok tt
  as_auth_error (err e) = err (throttled e)

  -- The throttle is not asked without an IP.
  unfoldable pub check_throttle :
      Net → (email ip : String) → Millis → World ports → Result AuthError (Unit {0})
  check_throttle net email ip now w =
      if str_eq ip ""
      then ok tt
      else as_auth_error
          (assert_login_allowed ports.redis ports.throttle net email ip now w.counters)

  unfoldable pub note_failure : Net → (email ip : String) → Millis → World ports → World ports
  note_failure net email ip now w = if str_eq ip "" then w else record w {
    counters = record_login_failure ports.redis ports.throttle net email ip now w.counters;
  }

  unfoldable pub note_success : Net → (email ip : String) → Millis → World ports → World ports
  note_success net email ip now w = if str_eq ip "" then w else record w {
    counters = record_login_success ports.redis ports.throttle net email now w.counters;
  }

  unfoldable pub opened : AuthResponse × World ports → Result AuthError LoginResponse × World ports
  opened (a, w) = (ok (session a), w)

  -- Once the password is right.
  unfoldable pub log_in_active :
      Net
      → (ip : String) → RowId
      → AuthUser
      → (raw : String) (now : Millis) → World ports
      → Result AuthError (Unit {0})
      → Result AuthError LoginResponse × World ports
  unfolding opened
  log_in_active net ip id u raw now w (err e) = (err e, w)
  log_in_active net ip id u raw now w (ok _) =
      if u.mfa_enabled
      then (ok (mfa_required (ports.sign_challenge id)), w)
      else opened (issue_token_pair ports id u raw now (note_success net u.email ip now w))

  unfoldable pub log_in_user :
      Net
      → (email password ip : String) → (raw : String) (now : Millis) → World ports
      → Option (RowId × AuthUser)
      → Result AuthError LoginResponse × World ports
  log_in_user net email password ip raw now w none =
      (err invalid_credentials, note_failure net email ip now w)
  log_in_user net email password ip raw now w (some (id, u)) =
      if password_ok password u
      then log_in_active net ip id u raw now w (assert_org_active u.org_id w)
      else (err invalid_credentials, note_failure net email ip now w)

  unfoldable pub log_in_checked :
      Net
      → (email password ip : String) → (raw : String) (now : Millis) → World ports
      → Result AuthError (Unit {0})
      → Result AuthError LoginResponse × World ports
  log_in_checked net email password ip raw now w (err e) = (err e, w)
  log_in_checked net email password ip raw now w (ok _) =
      log_in_user net email password ip raw now w (find_by_email email w)

  unfoldable pub login :
      Net
      → (email password ip : String) → (raw : String) (now : Millis) → World ports
      → Result AuthError LoginResponse × World ports
  login net email password ip raw now w =
      log_in_checked net email password ip raw now w (check_throttle net email ip now w)

  -- The organization and its owner, in one transaction.
  unfoldable pub created_owner :
      (email password_hash : String) → World ports → RowId × AuthUser × World ports
  created_owner email password_hash w =
      let (org_id, organizations) =
        ports.organizations.create w.organizations
          (record { name = ports.default_org_name email; status = active; suspended_at = none }) in
      let u : AuthUser = record {
        email = email;
        password_hash = some password_hash;
        role = UserRole.owner;
        org_id = org_id;
        mfa_enabled = false;
        mfa_secret_enc = none;
        email_verified_at = none;
        google_id = none;
      } in
      let (id, users) = ports.users.create w.users u in
      (id, u, record w { organizations = organizations; users = users })

  unfoldable pub greeted :
      (mail_token raw : String) (now : Millis)
      → RowId × AuthUser × World ports
      → AuthResponse × World ports
  greeted mail_token raw now (id, u, w) =
      issue_token_pair ports id u raw now
        (send_verification_email ports id u.email mail_token now w).1

  unfoldable pub registered :
      (email password : String)
      → (salt mail_token raw : String) (now : Millis) → World ports
      → Option (RowId × AuthUser)
      → Result AuthError AuthResponse × World ports
  registered email password salt mail_token raw now w (some _) = (err email_taken, w)
  registered email password salt mail_token raw now w none = issued ports (
      greeted mail_token raw now
        (created_owner (ports.throttle.normalize email) (ports.hash_password salt password) w))

  -- Whatever comes of the mail, the registration stands.
  unfoldable pub register :
      (email password : String)
      → (salt mail_token raw : String) (now : Millis) → World ports
      → Result AuthError AuthResponse × World ports
  register email password salt mail_token raw now w =
      registered email password salt mail_token raw now w (find_by_email email w)
