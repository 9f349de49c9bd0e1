-- ===== src/Auth/Mfa.antt =====
-- backend/src/auth/mfa.service.ts, and completeMfaLogin of auth.service.ts: the second factor of a
-- login.
use text.Mathlib.Text.{◌==◌ as str_eq}
use socialhub.Crypto.Base32.{is_space, is_empty}
use socialhub.Crypto.Totp.{verify_totp, default_options}
use socialhub.Schema.{RowId, Millis}
use socialhub.Database.{update, first}
use socialhub.RateLimit.{Net}
use socialhub.RateLimit.Throttle.{record_login_success}
use socialhub.Auth.{
  AuthPorts, World, AuthUser, RecoveryCode, ChallengePayload, AuthError, AuthResponse, broken,
  unauthorized, mfa_session_expired, mfa_not_enabled, invalid_mfa_session, wrong_code,
  mfa_already_enabled,
}
use socialhub.Auth.Session.{issue_token_pair, issued}
use socialhub.Auth.Login.{assert_org_active}
use socialhub.Prelude.{
  Text, Option, Result, ◌∷◌, Bool, some, String, if◌then◌else◌, err, ◌||◌, ok, none, ◌==◌, true,
  ◌&&◌, ◌/◌, false, [],
}

-- Without white space and hyphens.
unfoldable pub strip_code : Text → Text
strip_code [] = []
strip_code (c ∷ cs) =
    let rest = strip_code cs in if is_space c || (c == b'-') then rest else c ∷ rest

abbrev pub is_unused : RecoveryCode → Bool
is_unused c = elim c.used_at [ none ↦ true | some _ ↦ false ]

abbrev pub burned : Millis → RecoveryCode → RecoveryCode
burned now c = record c { used_at = some now }

module _ (ports : AuthPorts) where
  abbrev pub normalized : Text → Text
  normalized code = ports.to_lower (strip_code code)

  -- `hash` normalizes too.
  abbrev pub recovery_hash : Text → String
  recovery_hash code = ports.hash_code (normalized code)

  abbrev pub unused_of : RowId → (code_hash : String) → RecoveryCode → Bool
  unused_of user_id code_hash c =
      (c.user_id == user_id) && (is_unused c && str_eq c.code_hash code_hash)

  abbrev pub totp_answer : Option Bool → Result AuthError Bool
  totp_answer none = err broken
  totp_answer (some b) = ok b

  abbrev pub totp_with : (code : Text) (now : Millis) → Option Text → Result AuthError Bool
  totp_with code now none = err broken
  totp_with code now (some secret) =
      totp_answer (verify_totp ports.totp default_options secret code (now / 1000))

  -- Whether the code is a one-time password of the user's secret.
  unfoldable pub check_totp : AuthUser → (code : Text) (now : Millis) → Result AuthError Bool
  check_totp u code now = elim u.mfa_secret_enc [
    | none ↦ ok false
    | some enc ↦ totp_with code now (ports.decrypt enc)
  ]

  -- The guarded update of the recovery code that was found.
  unfoldable pub burn :
      Option (RowId × RecoveryCode)
      → (now : Millis) → World ports
      → Result AuthError Bool × World ports
  burn none now w = (ok false, w)
  burn (some (id, c)) now w =
      let (count, codes) =
        ports.recovery_codes.update_many w.recovery_codes id is_unused (burned now) in
      (ok (count == 1), record w { recovery_codes = codes })

  unfoldable pub find_recovery : RowId → (code : Text) → World ports → Option (RowId × RecoveryCode)
  find_recovery user_id code w =
      if is_empty (normalized code)
      then none
      else first (
          ports.recovery_codes.find_many w.recovery_codes
            (unused_of user_id (recovery_hash (normalized code))))

  unfoldable pub after_totp :
      RowId
      → (code : Text) (now : Millis) → World ports
      → Result AuthError Bool
      → Result AuthError Bool × World ports
  after_totp user_id code now w (err e) = (err e, w)
  after_totp user_id code now w (ok true) = (ok true, w)
  after_totp user_id code now w (ok false) = burn (find_recovery user_id code w) now w

  unfoldable pub verify_second_factor :
      RowId
      → AuthUser
      → (code : Text) (now : Millis) → World ports
      → Result AuthError Bool × World ports
  verify_second_factor user_id u code now w = after_totp user_id code now w (check_totp u code now)

  -- The user of an open challenge, if its second factor is on.
  abbrev pub enrolled : RowId → Option AuthUser → Result AuthError (RowId × AuthUser)
  enrolled user_id none = err unauthorized
  enrolled user_id (some u) = if u.mfa_enabled then ok (user_id, u) else err mfa_not_enabled

  -- An id is never empty.
  abbrev pub challenged :
      World ports → Option ChallengePayload → Result AuthError (RowId × AuthUser)
  challenged w none = err mfa_session_expired
  challenged w (some payload) =
      if str_eq payload.typ "mfa_challenge"
      then enrolled payload.sub (ports.users.find w.users payload.sub)
      else err invalid_mfa_session

  unfoldable pub judged :
      RowId → Result AuthError Bool × World ports → Result AuthError RowId × World ports
  judged user_id (err e, w) = (err e, w)
  judged user_id (ok false, w) = (err wrong_code, w)
  judged user_id (ok true, w) = (ok user_id, w)

  unfoldable pub verify_challenged :
      (code : Text) (now : Millis)
      → World ports
      → Result AuthError (RowId × AuthUser)
      → Result AuthError RowId × World ports
  verify_challenged code now w (err e) = (err e, w)
  verify_challenged code now w (ok (user_id, u)) =
      judged user_id (verify_second_factor user_id u code now w)

  unfoldable pub verify_challenge :
      (challenge_token : String) (code : Text) (now : Millis)
      → World ports
      → Result AuthError RowId × World ports
  verify_challenge challenge_token code now w =
      verify_challenged code now w (challenged w (ports.open_challenge now challenge_token))

  unfoldable pub completed_active :
      Net
      → RowId
      → AuthUser
      → (raw : String) (now : Millis) → World ports
      → Result AuthError (Unit {0})
      → Result AuthError AuthResponse × World ports
  completed_active net user_id u raw now w (err e) = (err e, w)
  completed_active net user_id u raw now w (ok _) = issued ports (
      issue_token_pair ports user_id u raw now (record w {
        counters = record_login_success ports.redis ports.throttle net u.email now w.counters;
      }))

  unfoldable pub completed_user :
      Net
      → RowId
      → (raw : String) (now : Millis) → World ports
      → Option AuthUser
      → Result AuthError AuthResponse × World ports
  completed_user net user_id raw now w none = (err unauthorized, w)
  completed_user net user_id raw now w (some u) =
      completed_active net user_id u raw now w (assert_org_active ports u.org_id w)

  unfoldable pub completed :
      Net
      → (raw : String) (now : Millis) → Result AuthError RowId × World ports
      → Result AuthError AuthResponse × World ports
  completed net raw now (err e, w) = (err e, w)
  completed net raw now (ok user_id, w) =
      completed_user net user_id raw now w (ports.users.find w.users user_id)

  unfoldable pub complete_mfa_login :
      Net
      → (challenge_token : String) (code : Text) → (raw : String) (now : Millis) → World ports
      → Result AuthError AuthResponse × World ports
  complete_mfa_login net challenge_token code raw now w =
      completed net raw now (verify_challenge challenge_token code now w)

  unfoldable pub set_up :
      RowId → (secret : Text) → World ports → Option AuthUser → Result AuthError Text × World ports
  set_up user_id secret w none = (err unauthorized, w)
  set_up user_id secret w (some u) = if u.mfa_enabled then (err mfa_already_enabled, w) else (
    ok secret,
    record w {
      users =
          update ports.users w.users user_id
            (λ u. record u { mfa_secret_enc = some (ports.encrypt secret) });
    },
  )

  -- `secret` is the random value of the new secret.
  unfoldable pub begin_setup :
      RowId → (secret : Text) → World ports → Result AuthError Text × World ports
  unfolding set_up
  begin_setup user_id secret w = set_up user_id secret w (ports.users.find w.users user_id)
