-- ===== src/Auth/Account.antt =====
-- backend/src/auth/account.service.ts: the single-use links for verifying an address and for
-- resetting a password.
use socialhub.Prelude.{
  ℕ, String, ◌+◌, ◌*◌, Bool, true, false, not, Option, none, some, Result, ok, err, ltb, ◌==◌, ◌&&◌,
  if◌then◌else◌,
}
use text.Mathlib.Text.{◌==◌ as str_eq}
use socialhub.Schema.{RowId, Millis}
use socialhub.Database.{update, first}
use socialhub.Auth.{
  AuthPorts, AuthUser, UserToken, UserTokenType, type_eq, email_verification, password_reset, World,
  AuthError, invalid_link, token_of_hash, user_of_email,
}
use socialhub.Auth.Session.{revoke_sessions}

-- EMAIL_VERIFICATION_TTL_MS and PASSWORD_RESET_TTL_MS.
abbrev email_verification_ttl : Millis
email_verification_ttl = 24 * 60 * 60 * 1000

abbrev password_reset_ttl : Millis
password_reset_ttl = 60 * 60 * 1000

abbrev pub is_open : UserToken → Bool
is_open t = elim t.consumed_at [ none ↦ true | some _ ↦ false ]

abbrev pub consumed_by : Millis → UserToken → UserToken
consumed_by now t = record t { consumed_at = some now }

-- What is mailed: to whom, and with which token.
pub data Mail : Type 0 where
  email_verification_mail password_reset_mail : (to raw_token : String) → Mail

module _ (ports : AuthPorts) where
  abbrev pub open_of_type : RowId → UserTokenType → UserToken → Bool
  open_of_type user_id type t = (t.user_id == user_id) && (type_eq t.token_type type && is_open t)

  -- The row of a new link.
  abbrev pub new_link :
      RowId → UserTokenType → (ttl : Millis) (raw_token : String) (now : Millis) → UserToken
  new_link user_id type ttl raw_token now = record {
    user_id = user_id;
    token_type = type;
    token_hash = ports.hash_token raw_token;
    expires_at = now + ttl;
    consumed_at = none;
  }

  -- `raw_token` is the random value of the new link. Older links of the type are superseded.
  unfoldable pub issue_token :
      RowId
      → UserTokenType
      → (ttl : Millis) (raw_token : String) (now : Millis) → World ports
      → World ports
  issue_token user_id type ttl raw_token now w =
      let superseded =
        ports.user_tokens.update_all w.user_tokens (open_of_type user_id type) (consumed_by now) in
      let (_, tokens) =
        ports.user_tokens.create superseded (new_link user_id type ttl raw_token now) in
      record w { user_tokens = tokens }

  unfoldable pub send_verification_email :
      RowId
      → (email_address : String) (raw_token : String) (now : Millis) → World ports
      → Mail × World ports
  send_verification_email user_id email_address raw_token now w = (
    email_verification_mail email_address raw_token,
    issue_token user_id email_verification email_verification_ttl raw_token now w,
  )

  -- The row that the raw token names, and whether it may be redeemed.
  abbrev pub redeemable : UserTokenType → Millis → UserToken → Bool
  redeemable type now t = type_eq t.token_type type && (is_open t && not (ltb t.expires_at now))

  -- The guarded update, with its count.
  unfoldable pub consumed :
      UserToken
      → ℕ × ports.user_tokens.State
      → World ports
      → Result AuthError UserToken × World ports
  consumed t (count, tokens) w =
      (if count == 0 then err invalid_link else ok t, record w { user_tokens = tokens })

  unfoldable pub consume_found :
      Option (RowId × UserToken)
      → UserTokenType
      → (now : Millis) → World ports
      → Result AuthError UserToken × World ports
  unfolding consumed
  consume_found none type now w = (err invalid_link, w)
  consume_found (some (id, t)) type now w =
      if redeemable type now t
      then consumed t (ports.user_tokens.update_many w.user_tokens id is_open (consumed_by now)) w
      else (err invalid_link, w)

  unfoldable pub find_token : (raw_token : String) → World ports → Option (RowId × UserToken)
  find_token raw_token w =
      if str_eq raw_token ""
      then none
      else first
          (ports.user_tokens.find_many w.user_tokens (token_of_hash (ports.hash_token raw_token)))

  unfoldable pub consume_token :
      (raw_token : String)
      → UserTokenType
      → (now : Millis) → World ports
      → Result AuthError UserToken × World ports
  consume_token raw_token type now w = consume_found (find_token raw_token w) type now w

  unfoldable pub verified :
      (now : Millis)
      → Result AuthError UserToken × World ports
      → Result AuthError (Unit {0}) × World ports
  verified now (err e, w) = (err e, w)
  verified now (ok t, w) = (
    ok tt,
    record w {
      users = update ports.users w.users t.user_id (λ u. record u { email_verified_at = some now });
    },
  )

  unfoldable pub verify_email :
      (raw_token : String) (now : Millis) → World ports → Result AuthError (Unit {0}) × World ports
  unfolding verified
  verify_email raw_token now w = verified now (consume_token raw_token email_verification now w)

  unfoldable pub requested :
      Option (RowId × AuthUser)
      → (raw_token : String) (now : Millis) → World ports
      → Option Mail × World ports
  requested none raw_token now w = (none, w)
  requested (some (id, u)) raw_token now w = (
    some (password_reset_mail u.email raw_token),
    issue_token id password_reset password_reset_ttl raw_token now w,
  )

  unfoldable pub request_password_reset :
      (email_address : String) (raw_token : String) (now : Millis)
      → World ports
      → Option Mail × World ports
  unfolding requested
  request_password_reset email_address raw_token now w =
      requested
        (first
          (ports.users.find_many w.users (user_of_email (ports.throttle.normalize email_address))))
        raw_token now w

  abbrev pub password_set :
      RowId → (salt new_password : String) (now : Millis) → World ports → World ports
  password_set user_id salt new_password now w = record w {
    users = update ports.users w.users user_id (λ u. record u {
      password_hash = some (ports.hash_password salt new_password);
      email_verified_at = some now;
    });
  }

  unfoldable pub reset :
      (salt new_password : String) (now : Millis)
      → Result AuthError UserToken × World ports
      → Result AuthError (Unit {0}) × World ports
  unfolding revoke_sessions
  reset salt new_password now (err e, w) = (err e, w)
  reset salt new_password now (ok t, w) =
      (ok tt, revoke_sessions ports t.user_id (password_set t.user_id salt new_password now w))

  unfoldable pub reset_password :
      (raw_token : String) (salt new_password : String) (now : Millis)
      → World ports
      → Result AuthError (Unit {0}) × World ports
  unfolding reset
  reset_password raw_token salt new_password now w =
      reset salt new_password now (consume_token raw_token password_reset now w)
