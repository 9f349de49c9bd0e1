-- ===== src/Auth/Enrolment/Outcomes.antt =====
-- What turning the second factor on and off leaves behind, on every branch.
use socialhub.Prelude.{
  All, length, ◌≡◌, refl, Text, String, Bool, true, false, Option, none, some, Result, ok, err, ◌⊎◌,
  List, [], ◌∷◌, ◌==◌, if◌then◌else◌,
}
use socialhub.Schema.{RowId, Millis}
use socialhub.Database.{find-update_self}
use socialhub.Database.Every.{Every, delete_all-Every}
use socialhub.Auth.{AuthPorts, World, AuthUser, RecoveryCode, AuthError, mfa_not_enabled}
use socialhub.Auth.Mfa.{
  totp_with, verify_second_factor, judged, recovery_hash, after_totp, check_totp, burn,
  find_recovery,
}
use socialhub.Auth.SecondFactor.{IsSecondFactor, answer-IsSecondFactor}
use socialhub.Auth.Enrolment.{
  disable, disable_user, withdrawn, new_code, switched_on, switched_off, code_of_user,
}

module _ (ports : AuthPorts) where
  -- The hash is that of one of the codes.
  abbrev pub OneOf : List Text → String → Type 0
  OneOf [] h = ⊥
  OneOf (c ∷ cs) h = (recovery_hash ports c ≡ h) ⊎ OneOf cs h

  -- A recovery code of another user, or an unused one with the hash of one of the codes.
  abbrev pub FromCodes : RowId → List Text → RecoveryCode → Type 0
  FromCodes id cs c = ((c.user_id == id) ≡ false) ⊎ ((c.used_at ≡ none) × OneOf cs c.code_hash)

  -- The code is stored for the user, unused.
  abbrev pub Stored : RowId → ports.recovery_codes.State → Text → Type 0
  Stored id s c = (k : RowId) × (ports.recovery_codes.find s k ≡ some (new_code ports id c))

  abbrev pub Enabled :
      RowId
      → (code : Text) (codes : List Text) (now : Millis) → World ports
      → Result AuthError (List Text) × World ports
      → Type 0
  Enabled id code codes now w (err e, v) = v ≡ w
  Enabled id code codes now w (ok cs, v) =
      (cs ≡ codes)
      × ((u : AuthUser) × (ports.users.find w.users id ≡ some u)
          × (u.mfa_enabled ≡ false)
          × ((enc : String) × (u.mfa_secret_enc ≡ some enc)
              × (totp_with ports code now (ports.decrypt enc) ≡ ok true))
          × (ports.users.find v.users id ≡ some (switched_on u)))
      × Every ports.recovery_codes v.recovery_codes (FromCodes id codes)
      × All (Stored id v.recovery_codes) codes
      × (ports.recovery_codes.count v.recovery_codes (code_of_user id) ≡ length codes)

  abbrev pub Disabled :
      RowId
      → (code : Text) (now : Millis) → World ports
      → Result AuthError (Unit {0}) × World ports
      → Type 0
  Disabled id code now w (err e, v) = v.users ≡ w.users
  Disabled id code now w (ok _, v) =
      ((u : AuthUser) × (ports.users.find w.users id ≡ some u)
        × (u.mfa_enabled ≡ true)
        × IsSecondFactor ports id u code now w
        × (ports.users.find v.users id ≡ some (switched_off u)))
      × Every ports.recovery_codes v.recovery_codes (λ c. (c.user_id == id) ≡ false)

  burn-users :
      (o : Option (RowId × RecoveryCode)) (now : Millis) (w : World ports)
      → (burn ports o now w).1.users ≡ w.users
  unfolding burn
  burn-users none now w = refl
  burn-users (some (k, c)) now w = refl

  after_totp-users :
      (id : RowId) (code : Text) (now : Millis) (w : World ports) (r : Result AuthError Bool)
      → (after_totp ports id code now w r).1.users ≡ w.users
  unfolding after_totp
  after_totp-users id code now w (err e) = refl
  after_totp-users id code now w (ok true) = refl
  after_totp-users id code now w (ok false) = burn-users (find_recovery ports id code w) now w

  withdrawn-Disabled :
      (id : RowId) (u : AuthUser) (code : Text) (now : Millis) (w : World ports)
      (r : Result AuthError Bool × World ports)
      → ports.users.find w.users id ≡ some u
      → u.mfa_enabled ≡ true
      → r.1.users ≡ w.users
      → after_totp ports id code now w (check_totp ports u code now) ≡ r
      → Disabled id code now w (withdrawn ports id (judged ports id r))
  unfolding withdrawn judged
  withdrawn-Disabled id u code now w (err e, v) f on k q = k
  withdrawn-Disabled id u code now w (ok false, v) f on k q = k
  withdrawn-Disabled id u code now w (ok true, v) f on k q = (
    (
      u,
      f,
      on,
      answer-IsSecondFactor ports id u code now w (check_totp ports u code now) refl (rw q refl),
      find-update_self ports.users v.users id switched_off u (rw k f),
    ),
    delete_all-Every ports.recovery_codes v.recovery_codes (code_of_user id) _ (λ c e. e),
  )

  guarded-Disabled :
      (id : RowId) (u : AuthUser) (code : Text) (now : Millis) (w : World ports) (on : Bool)
      → ports.users.find w.users id ≡ some u
      → u.mfa_enabled ≡ on
      → Disabled id code now w (
          if on
          then withdrawn ports id (judged ports id (verify_second_factor ports id u code now w))
          else (err mfa_not_enabled, w))
  unfolding verify_second_factor
  guarded-Disabled id u code now w false f e = refl
  guarded-Disabled id u code now w true f e =
      withdrawn-Disabled id u code now w _ f e
        (after_totp-users id code now w (check_totp ports u code now)) refl

  found-Disabled :
      (id : RowId) (code : Text) (now : Millis) (w : World ports) (o : Option AuthUser)
      → ports.users.find w.users id ≡ o
      → Disabled id code now w (disable_user ports id code now w o)
  unfolding disable_user
  found-Disabled id code now w none f = refl
  found-Disabled id code now w (some u) f = guarded-Disabled id u code now w u.mfa_enabled f refl

  -- Turning the second factor off succeeds only for a user whose second factor is on, with a
  -- second factor of the user. Its secret and all its recovery codes are then gone. Otherwise no
  -- user changes.
  pub disable-Disabled :
      (id : RowId) (code : Text) (now : Millis) (w : World ports)
      → Disabled id code now w (disable ports id code now w)
  unfolding disable
  disable-Disabled id code now w = found-Disabled id code now w _ refl
