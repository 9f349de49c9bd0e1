-- ===== src/Auth/Links.antt =====
-- What the single-use links promise.
use socialhub.Database.{matches, touch}
use socialhub.Auth.Account.{consume_found, consumed, is_open, consumed_by, redeemable}
use socialhub.Schema.{RowId, Millis}
use socialhub.Auth.{AuthPorts, World, UserToken, UserTokenType, AuthError, invalid_link}
use socialhub.Prelude.{
  ◌≡◌, refl, Option, Result, some, err, ok, arith, Bool-cases, inl, none, inr, ==-refl, ◌==◌, ◌⊎◌,
}

touch-spent :
    (o : Option UserToken) (now : Millis) → matches is_open (touch is_open (consumed_by now) o) ≡ 0
touch-spent none now = refl
touch-spent (some t) now = ground arith

no_ok : (a : UserToken) → ¬ (◌≡◌ {A = Result AuthError UserToken} (err invalid_link) (ok a))
no_ok a h = cc

module _ (ports : AuthPorts) where
  -- The link's row is consumed, or is not there.
  abbrev pub Spent : ports.user_tokens.State → RowId → Type 0
  Spent s k = matches is_open (ports.user_tokens.find s k) ≡ 0

  pub Spent-refused :
      (k : RowId) (t : UserToken) (type : UserTokenType) (now : Millis) (w : World ports)
      → Spent w.user_tokens k
      → (consume_found ports (some (k, t)) type now w).0 ≡ err invalid_link
  unfolding consume_found consumed
  Spent-refused k t type now w h = elim (Bool-cases (redeemable ports type now t)) [
    | inl e ↦ rw (e, ports.user_tokens.count-update_many, h) refl
    | inr e ↦ rw e refl
  ]

  pub consume_found-Spent :
      (k : RowId) (t a : UserToken) (type : UserTokenType) (now : Millis) (w : World ports)
      → (consume_found ports (some (k, t)) type now w).0 ≡ ok a
      → Spent (consume_found ports (some (k, t)) type now w).1.user_tokens k
  unfolding consume_found consumed
  consume_found-Spent k t a type now w h = elim (Bool-cases (redeemable ports type now t)) [
    | inl e ↦
        rw (e, ports.user_tokens.find-update_many, ==-refl k)
          (touch-spent (ports.user_tokens.find w.user_tokens k) now)
    | inr e ↦ absurd (no_ok a (rw e at h))
  ]

  -- Either the link is redeemed, and nothing but its row changes, or it is refused.
  pub consume_found-cases :
      (k : RowId) (t : UserToken) (type : UserTokenType) (now : Millis) (w : World ports)
      → ((s : ports.user_tokens.State) × Spent s k
          × (consume_found ports (some (k, t)) type now w ≡ (ok t, record w { user_tokens = s })))
        ⊎ ((v : World ports) × (consume_found ports (some (k, t)) type now w
              ≡ (err invalid_link, v)))
  unfolding consume_found consumed
  consume_found-cases k t type now w =
      let s = (ports.user_tokens.update_many w.user_tokens k is_open (consumed_by now)).1 in
      elim (Bool-cases (redeemable ports type now t)) [
        | inl e ↦
            elim (Bool-cases
              ((ports.user_tokens.update_many w.user_tokens k is_open (consumed_by now)).0 == 0)) [
                | inl f ↦ inr (record w { user_tokens = s }, rw (e, f) refl)
                | inr f ↦ inl (
                  s,
                  rw (ports.user_tokens.find-update_many, ==-refl k)
                      (touch-spent (ports.user_tokens.find w.user_tokens k) now),
                  rw (e, f) refl,
                )
              ]
        | inr e ↦ inr (w, rw e refl)
      ]
