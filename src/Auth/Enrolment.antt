-- ===== src/Auth/Enrolment.antt =====
-- backend/src/auth/mfa.service.ts: turning the second factor on and off.
pub mod Outcomes
use socialhub.Prelude.{
  ◌≡◌, refl, sym, ◌∙◌, Text, ℕ, String, Bool, true, false, Option, none, some, Result, ok, err, ◌⊎◌,
  inl, inr, Bool-cases, List, [], ◌∷◌, if◌then◌else◌, ◌==◌, ◌&&◌, ok-injective, map,
}
use socialhub.Schema.{RowId, Millis}
use socialhub.Database.{update, find-update_self}
use socialhub.Database.Every.{Every, create-Every, delete_all-Every, Holds}
use socialhub.SocialToken.{truthy}
use socialhub.Auth.{
  AuthPorts, World, AuthUser, RecoveryCode, AuthError, unauthorized, mfa_already_enabled,
  mfa_not_started, mfa_not_enabled, wrong_code,
}
use socialhub.Auth.Mfa.{totp_with, verify_second_factor, judged, recovery_hash, is_unused}

abbrev pub switched_on : AuthUser → AuthUser
switched_on u = record u { mfa_enabled = true }

abbrev pub switched_off : AuthUser → AuthUser
switched_off u = record u { mfa_enabled = false; mfa_secret_enc = none }

abbrev pub code_of_user : RowId → RecoveryCode → Bool
code_of_user user_id c = c.user_id == user_id

-- MfaStatusDto.
pub record MfaStatus : Type 0 where
  pub enabled : Bool
  pub recovery_codes_remaining : ℕ

module _ (ports : AuthPorts) where
  abbrev pub new_code : RowId → Text → RecoveryCode
  new_code user_id c = record {
    user_id = user_id;
    code_hash = recovery_hash ports c;
    used_at = none;
  }

  unfoldable pub create_codes :
      RowId → List Text → ports.recovery_codes.State → ports.recovery_codes.State
  create_codes user_id [] s = s
  create_codes user_id (c ∷ cs) s =
      create_codes user_id cs (ports.recovery_codes.create s (new_code user_id c)).1

  -- The transaction of `enable`. `codes` are the random recovery codes.
  unfoldable pub enrol : RowId → (codes : List Text) → World ports → World ports
  enrol user_id codes w = record w {
    users = update ports.users w.users user_id switched_on;
    recovery_codes =
        create_codes user_id codes
          (ports.recovery_codes.delete_all w.recovery_codes (code_of_user user_id));
  }

  unfoldable pub enabled_by :
      RowId
      → (codes : List Text) → World ports
      → Result AuthError Bool
      → Result AuthError (List Text) × World ports
  enabled_by user_id codes w (err e) = (err e, w)
  enabled_by user_id codes w (ok false) = (err wrong_code, w)
  enabled_by user_id codes w (ok true) = (ok codes, enrol user_id codes w)

  unfoldable pub enable_user :
      RowId
      → (code : Text) (codes : List Text) (now : Millis) → World ports
      → Option AuthUser
      → Result AuthError (List Text) × World ports
  enable_user user_id code codes now w none = (err unauthorized, w)
  enable_user user_id code codes now w (some u) =
      if u.mfa_enabled then (err mfa_already_enabled, w) else elim u.mfa_secret_enc [
        | none ↦ (err mfa_not_started, w)
        | some enc ↦
            if truthy (some enc)
            then enabled_by user_id codes w (totp_with ports code now (ports.decrypt enc))
            else (err mfa_not_started, w)
      ]

  unfoldable pub enable :
      RowId
      → (code : Text) (codes : List Text) (now : Millis) → World ports
      → Result AuthError (List Text) × World ports
  enable user_id code codes now w =
      enable_user user_id code codes now w (ports.users.find w.users user_id)

  -- The transaction of `disable`.
  unfoldable pub withdrawn :
      RowId → Result AuthError RowId × World ports → Result AuthError (Unit {0}) × World ports
  withdrawn user_id (err e, w) = (err e, w)
  withdrawn user_id (ok _, w) = (
    ok tt,
    record w {
      users = update ports.users w.users user_id switched_off;
      recovery_codes = ports.recovery_codes.delete_all w.recovery_codes (code_of_user user_id);
    },
  )

  unfoldable pub disable_user :
      RowId
      → (code : Text) (now : Millis) → World ports
      → Option AuthUser
      → Result AuthError (Unit {0}) × World ports
  disable_user user_id code now w none = (err unauthorized, w)
  disable_user user_id code now w (some u) =
      if u.mfa_enabled
      then withdrawn user_id
          (judged ports user_id (verify_second_factor ports user_id u code now w))
      else (err mfa_not_enabled, w)

  unfoldable pub disable :
      RowId → (code : Text) (now : Millis) → World ports → Result AuthError (Unit {0}) × World ports
  disable user_id code now w = disable_user user_id code now w (ports.users.find w.users user_id)

  abbrev pub unused_code : RowId → RecoveryCode → Bool
  unused_code user_id c = (c.user_id == user_id) && is_unused c

  abbrev status_of_user : RowId → World ports → Option AuthUser → Result AuthError MfaStatus
  status_of_user user_id w none = err unauthorized
  status_of_user user_id w (some u) = ok (record {
    enabled = u.mfa_enabled;
    recovery_codes_remaining =
        if u.mfa_enabled
        then ports.recovery_codes.count w.recovery_codes (unused_code user_id)
        else 0;
  })

  unfoldable pub status : RowId → World ports → Result AuthError MfaStatus
  status user_id w = status_of_user user_id w (ports.users.find w.users user_id)
