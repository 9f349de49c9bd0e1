-- ===== src/Access/Joining.antt =====
-- What an invitation can and cannot do.
use socialhub.Prelude.{
  ◌+◌, ◌≤◌, String, ◌≡◌, ◌≢◌, refl, Bool, true, false, Option, none, some, Result, ok, err, ◌==◌,
  arith, ==-refl, subst, ok-injective,
}
use socialhub.Schema.{RowId, Millis, UserRole, InviteStatus, is_pending_invite}
use socialhub.Database.{touch, matches}
use socialhub.Plans.{is_within_limit, limits_for, assert_can_add_team_member}
use socialhub.Access.Roles.{role_rank, role_meets_minimum}
use socialhub.Access.Members.{Actor}
use socialhub.Access.Invites.{
  Invite, InvitePorts, Office, InviteError, invalid_invite, check_create, created, create,
  claim_invite, claim_counted, joined, of_org, pending_of_org, invite_ttl,
}

abbrev is_open : Invite → Bool
is_open i = is_pending_invite i.status

abbrev mark_accepted : Invite → Invite
mark_accepted i = record i { status = InviteStatus.accepted }

taken : (o : Option Invite) → (matches is_open (touch is_open mark_accepted o) == 1) ≡ false
taken none = refl
taken (some i) = ground arith

module _ (ports : InvitePorts) (id : RowId) where
  counted_once :
      (invite other : Invite) (w : Office ports) (user : RowId) (one : Bool)
      → let invites = (ports.invites.update_many w.invites id is_open mark_accepted).1 in
        let first = claim_counted ports invite w (record w { invites = invites }) one in
        first.0 ≡ ok user → claim_invite ports id other first.1 ≡ (err invalid_invite, first.1)
  unfolding claim_counted claim_invite joined
  counted_once invite other w user true h =
      rw (ports.invites.count-update_many, ports.invites.find-update_many, ==-refl)
        (rw (taken (ports.invites.find w.invites id)) refl)
  counted_once invite other w user false h = cc

  -- Two acceptances of one invitation that have both passed the checks: once the first has
  -- created its user, the second is told that the invitation is not valid, and leaves everything
  -- as the first left it. So an invitation never makes two users.
  pub concurrent_accepts :
      (invite other : Invite) (w : Office ports) (user : RowId)
      → (claim_invite ports id invite w).0 ≡ ok user
      → claim_invite ports id other (claim_invite ports id invite w).1
        ≡ (err invalid_invite, (claim_invite ports id invite w).1)
  unfolding claim_invite
  concurrent_accepts invite other w user h = counted_once invite other w user _ h

-- An invitation that is made: the stored row, and the bounds that it meets.
pub record IsInvited (ports : InvitePorts) (w v : Office ports) (org_id : RowId) (inviter : Actor)
    (role : UserRole) (raw_token : String) (now : Millis) (id : RowId) : Type 0 where
  pub row :
      (i : Invite) × (ports.invites.find v.invites id ≡ some i)
      × (i.org_id ≡ org_id)
      × (i.role ≡ role)
      × (i.status ≡ InviteStatus.pending)
      × (i.token_hash ≡ ports.hash_token raw_token)
      × (i.expires_at ≡ now + 604800000)
  pub not_owner : role ≢ UserRole.owner
  pub within_rank : role_rank role ≤ role_rank inviter.role
  pub within_seats :
      is_within_limit
        (ports.users.count w.users (of_org ports org_id)
          + ports.invites.count w.invites (pending_of_org ports org_id))
        (limits_for (w.plan_tier org_id)).max_team_members
      ≡ true
  pub same_users : v.users ≡ w.users

module _ (ports : InvitePorts) (org_id : RowId) (inviter : Actor) (role : UserRole)
    (raw_token : String) (now : Millis) (w : Office ports) where
  checked-bounds :
      (email : String)
      → check_create ports w org_id inviter.role email role ≡ ok tt
      → (role ≢ UserRole.owner)
        × (role_rank role ≤ role_rank inviter.role)
        × (is_within_limit
              (ports.users.count w.users (of_org ports org_id)
                + ports.invites.count w.invites (pending_of_org ports org_id))
              (limits_for (w.plan_tier org_id)).max_team_members
            ≡ true)
  unfolding check_create role_meets_minimum assert_can_add_team_member
  checked-bounds email h = (ground arith, ground arith, ground arith)

  created-IsInvited :
      (email : String) (checked : Result InviteError (Unit {0})) (id : RowId)
      → check_create ports w org_id inviter.role email role ≡ checked
      → (created ports org_id inviter email role raw_token now w checked).0 ≡ ok id
      → IsInvited ports w
          (created ports org_id inviter email role raw_token now w checked).1
          org_id
          inviter
          role
          raw_token
          now
          id
  unfolding created
  created-IsInvited email (err e) id h made = cc
  created-IsInvited email (ok u) id h made =
      let (not_owner, within_rank, within_seats) = checked-bounds email h in
      let row : Invite = record {
        org_id = org_id;
        email = email;
        role = role;
        token_hash = ports.hash_token raw_token;
        status = InviteStatus.pending;
        invited_by_id = inviter.user_id;
        expires_at = now + invite_ttl;
      } in
      subst
        (λ k.
          IsInvited ports w (created ports org_id inviter email role raw_token now w (ok u)).1
            org_id inviter role raw_token now k)
        (ok-injective made)
        (record {
          row = (row, rw (ports.invites.find-create, ==-refl) refl, refl, refl, refl, refl, refl);
          not_owner = not_owner;
          within_rank = within_rank;
          within_seats = within_seats;
          same_users = refl;
        })

  -- An invitation that is made is stored as pending, for seven days, under the hash of its token,
  -- with a role that is not `owner` and not above the inviter's, and while members and pending
  -- invitations together are below the seats of the plan; it makes no user.
  pub create_bounds :
      (email : String) (id : RowId)
      → (create ports org_id inviter email role raw_token now w).0 ≡ ok id
      → IsInvited ports w
          (create ports org_id inviter email role raw_token now w).1
          org_id
          inviter
          role
          raw_token
          now
          id
  unfolding create
  create_bounds email id made = created-IsInvited (ports.normalize email) _ id refl made
