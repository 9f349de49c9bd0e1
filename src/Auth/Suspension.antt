-- ===== src/Auth/Suspension.antt =====
-- backend/src/admin/admin-compliance.service.ts: the suspension of an organization, and what is left
-- to its members.
use socialhub.Auth.Races.{refreshed-open}
use socialhub.RateLimit.{Net}
use socialhub.Database.{update, find-update_self, first}
use socialhub.Auth.Login.{
  login, log_in_checked, log_in_user, log_in_active, assert_org_active, check_throttle,
  find_by_email, password_ok,
}
use socialhub.Schema.{Millis, RowId}
use socialhub.Prelude.{refl, ◌≡◌, Option, Result, ok, err, some, none, String, true, false, ltb}
use socialhub.Auth.{
  AuthPorts, World, Organization, OrgStatus, active, suspended, Millis, RowId, AuthError,
  org_not_found, RefreshToken, AuthUser, org_suspended, AuthResponse, of_hash,
}
use socialhub.Auth.Session.{refresh, read_token, with_user}

module _ (ports : AuthPorts) where
  abbrev suspended_since : Millis → OrgStatus → Option Millis
  suspended_since now suspended = some now
  suspended_since now active = none

  abbrev status_of_org : OrgStatus → (now : Millis) → Organization → Organization
  status_of_org status now o = record o {
    status = status;
    suspended_at = suspended_since now status;
  }

  unfoldable pub status_set :
      RowId
      → OrgStatus
      → (now : Millis) → World ports
      → Option Organization
      → Result AuthError (Unit {0}) × World ports
  status_set org_id status now w none = (err org_not_found, w)
  status_set org_id status now w (some o) = (
    ok tt,
    record w {
      organizations = update ports.organizations w.organizations org_id (status_of_org status now);
    },
  )

  -- setOrgStatus, and its two callers.
  unfoldable pub set_org_status :
      RowId → OrgStatus → (now : Millis) → World ports → Result AuthError (Unit {0}) × World ports
  unfolding status_set
  set_org_status org_id status now w =
      status_set org_id status now w (ports.organizations.find w.organizations org_id)

  abbrev pub suspend_org :
      RowId → (now : Millis) → World ports → Result AuthError (Unit {0}) × World ports
  suspend_org org_id now w = set_org_status org_id suspended now w

  abbrev pub reactivate_org :
      RowId → (now : Millis) → World ports → Result AuthError (Unit {0}) × World ports
  reactivate_org org_id now w = set_org_status org_id active now w

  with_user-same :
      (w : World ports) (s : ports.organizations.State) (o : Option (RowId × RefreshToken))
      → with_user ports (record w { organizations = s }) o ≡ with_user ports w o
  with_user-same w s none = refl
  with_user-same w s (some (k, t)) = refl

  -- The suspension of an organization refuses the next login of its members, with the right
  -- password and an open throttle. It does not refuse their next refresh: an open refresh token
  -- gives a session as before.
  pub suspend_org_leaks :
      (o : Organization) (id k : RowId) (t : RefreshToken) (u : AuthUser) (w : World ports)
      (net : Net) (email password ip raw_refresh_token raw : String) (at now : Millis)
      → ports.organizations.find w.organizations u.org_id ≡ some o
      → find_by_email ports email w ≡ some (id, u)
      → password_ok ports password u ≡ true
      → check_throttle ports net email ip now w ≡ ok tt
      → read_token ports raw_refresh_token w ≡ some (k, t, some u)
      → t.revoked ≡ false
      → ltb t.expires_at now ≡ false
      → ((login ports net email password ip raw now (suspend_org u.org_id at w).1).0
          ≡ err org_suspended)
        × ((a : AuthResponse) × ((refresh ports raw_refresh_token raw now
                (suspend_org u.org_id at w).1).0
              ≡ ok a))
  unfolding set_org_status status_set login log_in_checked log_in_user log_in_active
      assert_org_active check_throttle refresh read_token
  suspend_org_leaks o id k t u w net email password ip raw_refresh_token raw at now org user right
        untried found live fresh =
      let s = update ports.organizations w.organizations u.org_id (status_of_org suspended at) in
      (
        rw
            (
              org,
              untried,
              user,
              right,
              find-update_self ports.organizations w.organizations u.org_id
                  (status_of_org suspended at) o org,
            )
            refl,
        rw
            (
              org,
              with_user-same w s (
                  first (
                    ports.refresh_tokens.find_many w.refresh_tokens
                      (of_hash (ports.hash_token raw_refresh_token)))),
              found,
            )
            (refreshed-open ports k t u raw now (record w { organizations = s }) live fresh),
      )
