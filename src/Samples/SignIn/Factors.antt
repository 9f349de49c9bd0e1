-- ===== src/Samples/SignIn/Factors.antt =====
-- The second factor on the sample data.
use socialhub.Crypto.Base32.{strip_spaces, is_space}
use socialhub.Crypto.Totp.{verify_totp}
use socialhub.Schema.{UserRole}
use socialhub.Prelude.{refl, ◌≡◌, codes, none, some, true}
use socialhub.Samples.SignIn.{auth_ports, world, UserRole, str_eq}
use socialhub.RateLimit.{all_up}
use socialhub.Auth.{ChallengePayload, AuthUser, AuthResponse, RecoveryCode}
use socialhub.Auth.Session.{issue_token_pair, issued}
use socialhub.Auth.Login.{assert_org_active}
use socialhub.Auth.Mfa.{
  complete_mfa_login, burn, verify_challenge, verify_challenged, verify_second_factor, check_totp,
  after_totp, find_recovery, strip_code, judged, completed, completed_user, completed_active,
}
use socialhub.Auth.SecondFactor.{IsSecondFactor, complete_mfa_login-IsSecondFactor}
use socialhub.Database.Rows.{rows}
use socialhub.Database.Slots.{find, find_many, update_many}

abbrev ada_session : AuthResponse
ada_session = record {
  user = record { sub = 0; email = "ada"; role = UserRole.owner; org_id = 0 };
  access_token = "access";
  refresh_token = "raw";
}

abbrev grace_session : AuthResponse
grace_session = record {
  user = record { sub = 1; email = "grace"; role = UserRole.owner; org_id = 0 };
  access_token = "access";
  refresh_token = "raw";
}

complete_mfa_login-IsSecondFactor_example :
    (p : ChallengePayload) × (u : AuthUser) × (auth_ports.open_challenge 1000 "challenge" ≡ some p)
    × (str_eq p.typ "mfa_challenge" ≡ true)
    × (p.sub ≡ 1)
    × (auth_ports.users.find world.users 1 ≡ some u)
    × (u.mfa_enabled ≡ true)
    × IsSecondFactor auth_ports 1 u (codes "aaaaa-bbbbb") 1000 world
unfolding world rows find find_many update_many complete_mfa_login verify_challenge
    verify_challenged verify_second_factor check_totp after_totp burn find_recovery strip_code
    judged completed completed_user completed_active issued issue_token_pair assert_org_active
    verify_totp strip_spaces is_space
complete_mfa_login-IsSecondFactor_example =
    complete_mfa_login-IsSecondFactor auth_ports all_up "challenge" (codes "aaaaa-bbbbb") "raw" 1000
      world grace_session refl

abbrev recovery_code : RecoveryCode
recovery_code = record { user_id = 1; code_hash = "hashed"; used_at = none }
