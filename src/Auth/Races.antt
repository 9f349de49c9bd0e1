-- ===== src/Auth/Races.antt =====
-- Two requests that have read the same row before either of them writes.
use socialhub.Database.{update, matches, touch}
use socialhub.Auth.Session.{refreshed, rotated, issued, revoke_token, issue_token_pair}
use socialhub.Auth.{
  AuthPorts, AuthResponse, World, RefreshToken, AuthUser, UserToken, UserTokenType, invalid_link,
  RecoveryCode,
}
use socialhub.Schema.{RowId, Millis}
use socialhub.Prelude.{◌≡◌, err, ok, String, some, ltb, none, false, refl, arith, Option, ==-refl}
use socialhub.Auth.Account.{consume_found}
use socialhub.Auth.Mfa.{burned, burn, is_unused}
use socialhub.Auth.Links.{consume_found-Spent, Spent-refused}

module _ (ports : AuthPorts) where
  pub refreshed-open :
      (k : RowId) (t : RefreshToken) (u : AuthUser) (raw : String) (now : Millis) (w : World ports)
      → t.revoked ≡ false
      → ltb t.expires_at now ≡ false
      → (a : AuthResponse) × ((refreshed ports (some (k, t, some u)) raw now w).0 ≡ ok a)
  unfolding refreshed rotated issued
  refreshed-open k t u raw now w h p =
      let s = update ports.refresh_tokens w.refresh_tokens k (revoke_token ports) in
      (
        (issue_token_pair ports t.user_id u raw now (record w { refresh_tokens = s })).0,
        rw (h, p) refl,
      )

  -- Two refreshes that have both read an open token before either of them writes give a session
  -- each: nothing in the second write looks at the first.
  pub refreshed-both :
      (k : RowId) (t : RefreshToken) (u : AuthUser) (one two : String) (now later : Millis)
      (w : World ports)
      → t.revoked ≡ false
      → ltb t.expires_at now ≡ false
      → ltb t.expires_at later ≡ false
      → ((a : AuthResponse) × ((refreshed ports (some (k, t, some u)) one now w).0 ≡ ok a))
        × ((b : AuthResponse) × ((refreshed ports
                (some (k, t, some u))
                two
                later
                (refreshed ports (some (k, t, some u)) one now w).1).0
              ≡ ok b))
  refreshed-both k t u one two now later w h p q = (
    refreshed-open k t u one now w h p,
    refreshed-open k t u two later (refreshed ports (some (k, t, some u)) one now w).1 h q,
  )

  -- A link is redeemed once, even in a race: where one request has redeemed it, every other is
  -- refused, of whatever kind and whatever it read of the row beforehand.
  pub consume_found-once :
      (k : RowId) (t t' a : UserToken) (type type' : UserTokenType) (now later : Millis)
      (w : World ports)
      → (consume_found ports (some (k, t)) type now w).0 ≡ ok a
      → (consume_found ports
          (some (k, t'))
          type'
          later
          (consume_found ports (some (k, t)) type now w).1).0
        ≡ err invalid_link
  consume_found-once k t t' a type type' now later w h =
      Spent-refused ports k t' type' later (consume_found ports (some (k, t)) type now w).1
        (consume_found-Spent ports k t a type now w h)

  burned-spent :
      (o : Option RecoveryCode) (now : Millis)
      → matches is_unused (touch is_unused (burned now) o) ≡ 0
  burned-spent none now = refl
  burned-spent (some c) now = ground arith

  -- Once a request has tried to use a recovery code, no other request uses it, even in a race:
  -- whatever the other one read of the row beforehand, it is refused.
  pub burn-once :
      (id : RowId) (c c' : RecoveryCode) (now later : Millis) (w : World ports)
      → (burn ports (some (id, c')) later (burn ports (some (id, c)) now w).1).0 ≡ ok false
  unfolding burn
  burn-once id c c' now later w =
      rw
        (
          ports.recovery_codes.count-update_many,
          ports.recovery_codes.find-update_many,
          ==-refl id,
          burned-spent (ports.recovery_codes.find w.recovery_codes id) now,
        )
        refl
