-- ===== src/Access/Invites.antt =====
-- backend/src/organizations/invites/invites.service.ts: invitations to an organization, within the
-- seats of its plan.
use socialhub.Prelude.{
  ◌+◌, ◌*◌, String, Bool, true, false, Option, none, some, Result, ok, err, ◌==◌, not,
  if◌then◌else◌, ◌&&◌, ◌>>=◌, ◌>>◌, require, require_some, ltb,
}
use text.Mathlib.Text.{◌==◌ as str_eq}
use socialhub.Schema.{RowId, Millis, UserRole, role_eq, InviteStatus, is_pending_invite}
use socialhub.Database.{Table, update, first}
use socialhub.Access.Roles.{role_meets_minimum}
use socialhub.Access.Members.{User, Actor}
use socialhub.Schema.{PlanTier}
use socialhub.Plans.{PlanError, assert_can_add_team_member}

-- INVITE_TTL_MS: 7 days.
abbrev pub invite_ttl : Millis
invite_ttl = 7 * 24 * 60 * 60 * 1000

pub record Invite : Type 0 where
  pub org_id : RowId
  pub email : String
  pub role : UserRole
  pub token_hash : String
  pub status : InviteStatus
  pub invited_by_id : RowId
  pub expires_at : Millis

pub data InviteError : Type 0 where
  owner_not_invitable above_own_rank already_member invite_not_found : InviteError
  invalid_invite expired_invite account_exists : InviteError
  plan : PlanError → InviteError

abbrev as_plan_error : Result PlanError (Unit {0}) → Result InviteError (Unit {0})
as_plan_error (ok _) = ok tt
as_plan_error (err e) = err (plan e)

abbrev no_row : {A : Type 0} → Option A → Bool
no_row none = true
no_row (some _) = false

-- The tables, the plan of an organization, and what the language and the crypto library give.
pub record InvitePorts : Type 1 where
  pub invites : Table Invite
  pub users : Table User
  -- email.trim().toLowerCase()
  pub normalize : String → String
  -- sha256 in hex
  pub hash_token : String → String

pub record Office (ports : InvitePorts) : Type 0 where
  pub invites : ports.invites.State
  pub users : ports.users.State
  -- An organization's planTier.
  pub plan_tier : RowId → Option PlanTier

module _ (ports : InvitePorts) where
  abbrev pub of_email : String → User → Bool
  of_email email u = str_eq u.email email

  abbrev pub of_org : RowId → User → Bool
  of_org org_id u = u.org_id == org_id

  abbrev pub outstanding : RowId → String → Invite → Bool
  outstanding org_id email i =
      (i.org_id == org_id) && (str_eq i.email email && is_pending_invite i.status)

  abbrev pub pending_of_org : RowId → Invite → Bool
  pending_of_org org_id i = (i.org_id == org_id) && is_pending_invite i.status

  abbrev is_member : RowId → Option (RowId × User) → Bool
  is_member org_id none = false
  is_member org_id (some (_, u)) = u.org_id == org_id

  unfoldable pub check_create :
      Office ports → RowId → UserRole → String → UserRole → Result InviteError (Unit {0})
  check_create w org_id inviter_role email role = do
    require (not (role_eq role UserRole.owner)) owner_not_invitable
    require (role_meets_minimum inviter_role role) above_own_rank
    require (not (is_member org_id (first (ports.users.find_many w.users (of_email email)))))
        already_member
    as_plan_error (
        assert_can_add_team_member (w.plan_tier org_id) (ports.users.count w.users (of_org org_id))
          (ports.invites.count w.invites (pending_of_org org_id)))

  -- The earlier invitation of the same address is revoked, and a new one is made.
  unfoldable pub created :
      RowId
      → Actor
      → String
      → UserRole
      → (raw_token : String) (now : Millis) → Office ports
      → Result InviteError (Unit {0})
      → Result InviteError RowId × Office ports
  created org_id inviter email role raw_token now w (err e) = (err e, w)
  created org_id inviter email role raw_token now w (ok _) =
      let revoked =
        ports.invites.update_all w.invites (outstanding org_id email)
          (λ i. record i { status = InviteStatus.revoked }) in
      let (id, invites) = ports.invites.create revoked (record {
        org_id = org_id;
        email = email;
        role = role;
        token_hash = ports.hash_token raw_token;
        status = InviteStatus.pending;
        invited_by_id = inviter.user_id;
        expires_at = now + invite_ttl;
      }) in
      (ok id, record w { invites = invites })

  unfoldable pub create :
      RowId
      → Actor
      → (email : String) → UserRole
      → (raw_token : String) (now : Millis) → Office ports
      → Result InviteError RowId × Office ports
  create org_id inviter email role raw_token now w =
      let email' = ports.normalize email in
      created org_id inviter email' role raw_token now w
        (check_create w org_id inviter.role email' role)

  unfoldable pub revoked_found :
      RowId → RowId → Office ports → Option Invite → Result InviteError (Unit {0}) × Office ports
  revoked_found invite_id org_id w none = (err invite_not_found, w)
  revoked_found invite_id org_id w (some invite) =
      if invite.org_id == org_id
      then (
        ok tt,
        record w {
          invites =
              update ports.invites w.invites invite_id
                (λ i. record i { status = InviteStatus.revoked });
        },
      )
      else (err invite_not_found, w)

  unfoldable pub revoke :
      (invite_id org_id : RowId) → Office ports → Result InviteError (Unit {0}) × Office ports
  revoke invite_id org_id w =
      revoked_found invite_id org_id w (ports.invites.find w.invites invite_id)

  -- The invite that the token names, if it may be accepted.
  unfoldable pub check_accept :
      Office ports → (raw_token : String) (now : Millis) → Result InviteError (RowId × Invite)
  check_accept w raw_token now = do
    found ←
        require_some
          (first (
            ports.invites.find_many w.invites
              (λ i. str_eq i.token_hash (ports.hash_token raw_token))))
          invalid_invite
    require (is_pending_invite (found.1).status) invalid_invite
    require (not (ltb (found.1).expires_at now)) expired_invite
    require (no_row (first (ports.users.find_many w.users (of_email (found.1).email))))
        account_exists
    ok found

  -- The new user, once the invite is claimed.
  unfoldable pub joined : Invite → Office ports → Result InviteError RowId × Office ports
  joined invite w =
      let (id, users) =
        ports.users.create w.users
          (record { email = invite.email; org_id = invite.org_id; role = invite.role }) in
      (ok id, record w { users = users })

  -- A claim that matched no row throws, and the transaction is rolled back to `w`.
  unfoldable pub claim_counted :
      Invite → (w claimed : Office ports) → Bool → Result InviteError RowId × Office ports
  claim_counted invite w claimed false = (err invalid_invite, w)
  claim_counted invite w claimed true = joined invite claimed

  unfoldable pub claim_invite :
      RowId → Invite → Office ports → Result InviteError RowId × Office ports
  claim_invite id invite w =
      let (count, invites) =
        ports.invites.update_many w.invites id (λ i. is_pending_invite i.status)
          (λ i. record i { status = InviteStatus.accepted }) in
      claim_counted invite w (record w { invites = invites }) (count == 1)

  unfoldable pub accepted :
      Office ports → Result InviteError (RowId × Invite) → Result InviteError RowId × Office ports
  accepted w (err e) = (err e, w)
  accepted w (ok (id, invite)) = claim_invite id invite w

  unfoldable pub accept :
      (raw_token : String) (now : Millis) → Office ports → Result InviteError RowId × Office ports
  accept raw_token now w = accepted w (check_accept w raw_token now)
