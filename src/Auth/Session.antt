-- ===== src/Auth/Session.antt =====
-- backend/src/auth/auth.service.ts: the sessions, their rotation, and the end of a session.
use socialhub.Prelude.{
  String, Bool, true, false, not, Option, none, some, Result, ok, err, ltb, ◌==◌, ◌&&◌,
  if◌then◌else◌,
}
use text.Mathlib.Text.{◌==◌ as str_eq}
use socialhub.Schema.{RowId, Millis}
use socialhub.Database.{update, first}
use socialhub.Auth.{
  AuthPorts, AuthUser, RefreshToken, World, AuthResponse, Claims, AuthError, invalid_refresh_token,
  of_hash,
}

-- findUnique by the hash, with the user included: the row, its id, and the user's row.
abbrev pub Found : Type 0
Found = Option (RowId × RefreshToken × Option AuthUser)

module _ (ports : AuthPorts) where
  -- The row of a new session.
  abbrev pub new_token : (user_id : RowId) (raw : String) (now : Millis) → RefreshToken
  new_token user_id raw now = record {
    user_id = user_id;
    token_hash = ports.hash_token raw;
    expires_at = ports.refresh_expiry now;
    revoked = false;
  }

  -- `raw` is the random value of the new refresh token.
  unfoldable pub issue_token_pair :
      (user_id : RowId)
      → AuthUser
      → (raw : String) (now : Millis) → World ports
      → AuthResponse × World ports
  issue_token_pair user_id u raw now w =
      let claims : Claims = record {
        sub = user_id;
        email = u.email;
        role = u.role;
        org_id = u.org_id;
      } in
      let (_, tokens) = ports.refresh_tokens.create w.refresh_tokens (new_token user_id raw now) in
      (
        record { user = claims; access_token = ports.sign claims; refresh_token = raw },
        record w { refresh_tokens = tokens },
      )

  abbrev pub open_of_user : RowId → RefreshToken → Bool
  open_of_user user_id t = (t.user_id == user_id) && not t.revoked

  abbrev pub open_of_hash : String → RefreshToken → Bool
  open_of_hash h t = str_eq t.token_hash h && not t.revoked

  abbrev pub revoke_token : RefreshToken → RefreshToken
  revoke_token t = record t { revoked = true }

  unfoldable pub revoke_sessions : RowId → World ports → World ports
  revoke_sessions user_id w = record w {
    refresh_tokens =
        ports.refresh_tokens.update_all w.refresh_tokens (open_of_user user_id) revoke_token;
  }

  abbrev pub with_user : World ports → Option (RowId × RefreshToken) → Found
  with_user w none = none
  with_user w (some (id, t)) = some (id, t, ports.users.find w.users t.user_id)

  unfoldable pub read_token : (raw_refresh_token : String) → World ports → Found
  read_token raw_refresh_token w = with_user w (
      first (
        ports.refresh_tokens.find_many w.refresh_tokens
          (of_hash (ports.hash_token raw_refresh_token))))

  unfoldable pub issued : AuthResponse × World ports → Result AuthError AuthResponse × World ports
  issued (session, w) = (ok session, w)

  -- Rotation.
  unfoldable pub rotated :
      RowId
      → RefreshToken
      → Option AuthUser
      → (raw : String) (now : Millis) → World ports
      → Result AuthError AuthResponse × World ports
  unfolding issued
  rotated id t none raw now w = (err invalid_refresh_token, w)
  rotated id t (some u) raw now w = issued (
      issue_token_pair t.user_id u raw now (record w {
        refresh_tokens = update ports.refresh_tokens w.refresh_tokens id revoke_token;
      }))

  -- What `refresh` does once it has read the token. Reuse revokes the sessions of the user.
  unfoldable pub refreshed :
      Found
      → (raw : String) (now : Millis) → World ports
      → Result AuthError AuthResponse × World ports
  refreshed none raw now w = (err invalid_refresh_token, w)
  refreshed (some (id, t, u)) raw now w =
      if t.revoked
      then (err invalid_refresh_token, revoke_sessions t.user_id w)
      else if ltb t.expires_at now
      then (err invalid_refresh_token, w)
      else rotated id t u raw now w

  unfoldable pub refresh :
      (raw_refresh_token : String)
      → (raw : String) (now : Millis) → World ports
      → Result AuthError AuthResponse × World ports
  refresh raw_refresh_token raw now w = refreshed (read_token raw_refresh_token w) raw now w

  unfoldable pub logout : (raw_refresh_token : String) → World ports → World ports
  logout raw_refresh_token w = record w {
    refresh_tokens =
        ports.refresh_tokens.update_all w.refresh_tokens
          (open_of_hash (ports.hash_token raw_refresh_token)) revoke_token;
  }
