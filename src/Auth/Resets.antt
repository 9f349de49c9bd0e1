-- ===== src/Auth/Resets.antt =====
-- What a reset of the password promises.
use socialhub.Auth.Rotation.{revoke_sessions-Closed}
use socialhub.Auth.Replay.{Excludes, Closed-Excludes}
use socialhub.Auth.Links.{Spent, consume_found-cases}
use socialhub.Auth.Account.{password_set, reset_password, consume_token, reset, find_token}
use socialhub.Auth.{AuthPorts, AuthError, invalid_link, World, UserToken, AuthUser, password_reset}
use socialhub.Auth.Session.{refresh, revoke_sessions}
use socialhub.Schema.{RowId, Millis}
use socialhub.Prelude.{◌≡◌, refl, Result, err, String, ok, some, inl, ==-refl, inr}

module _ (ports : AuthPorts) where
  not_reset : ¬ (◌≡◌ {A = Result AuthError (Unit {0})} (err invalid_link) (ok tt))
  not_reset h = cc

  -- A reset that succeeds spends its link, sets the new password for the user of the link, which
  -- also verifies the address, and closes every session of this user: no refresh token, whenever
  -- it comes, gives the user a session from there on.
  pub reset_password-Excludes :
      (raw salt new_password : String) (now : Millis) (w : World ports) (k : RowId) (t : UserToken)
      (u : AuthUser) (token raw' : String) (later : Millis)
      → find_token ports raw w ≡ some (k, t)
      → ports.users.find w.users t.user_id ≡ some u
      → (reset_password ports raw salt new_password now w).0 ≡ ok tt
      → Spent ports (reset_password ports raw salt new_password now w).1.user_tokens k
        × (ports.users.find (reset_password ports raw salt new_password now w).1.users t.user_id
            ≡ some (record u {
              password_hash = some (ports.hash_password salt new_password);
              email_verified_at = some now;
            }))
        × Excludes ports t.user_id
            (refresh ports token raw' later (reset_password ports raw salt new_password now w).1).0
  unfolding reset_password consume_token reset revoke_sessions
  reset_password-Excludes raw salt new_password now w k t u token raw' later found user h =
      elim (consume_found-cases ports k t password_reset now w) [
        | inl (s, spent, e) ↦
            let v =
              password_set ports t.user_id salt new_password now (record w { user_tokens = s }) in
            rw (found, e)
              (
                spent,
                rw (ports.users.find-update_many, ==-refl t.user_id, user) refl,
                Closed-Excludes ports t.user_id (revoke_sessions ports t.user_id v) token raw' later
                    (revoke_sessions-Closed ports t.user_id v),
              )
        | inr (v, e) ↦ absurd (not_reset (rw (found, e) at h))
      ]
