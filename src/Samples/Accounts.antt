-- ===== src/Samples/Accounts.antt =====
-- Tokens, members, designs and invitations on the sample data.
use socialhub.Access.Joining.{concurrent_accepts}
use socialhub.Access.Roles.{role_rank, role_meets_minimum}
use socialhub.Schema.{UserRole, ApprovalStatus, InviteStatus, PlanTier}
use socialhub.Samples.{
  token_ports, world_of, owner, admin, asset, invite_ports, editor, revoked_account,
}
use socialhub.Access.Invites.{Invite, claim_invite, Office, claim_counted, joined, invalid_invite}
use socialhub.Access.Approval.{
  check_move, ContentAsset, transition, moved, Move, check_transition, find_by_id_scoped,
  valid_transitions, check_move_iff, min_role_for,
}
use socialhub.Access.Members.{Changes, User, change_role, change_role-Changes}
use socialhub.Database.Rows.{rows}
use socialhub.Database.Slots.{find, update_many, create, stored}
use socialhub.SocialToken.Status.{Agrees, refresh_account-Agrees}
use socialhub.Prelude.{refl, ◌≡◌, some, [], ◌∷◌, ok, err, ◌↔◌, ◌≤◌, true, ◌⊎◌}
use socialhub.SocialToken.{refresh_account}
use socialhub.Access.Review.{Request, serve, is_approved, any_verdict, approved_by_admin}

refresh_account-Agrees_example :
    Agrees token_ports 0
      (world_of []).accounts
      (refresh_account token_ports (world_of []).accounts 100 0 revoked_account)
refresh_account-Agrees_example =
    refresh_account-Agrees token_ports (world_of []).accounts 100 0 revoked_account

-- The editor has id 0, and the owner id 1.
unfoldable members : (rows {Row = User}).State
unfolding rows
members = stored (owner ∷ editor ∷ [])

change_role-Changes_example :
    Changes rows members 7 0 UserRole.admin admin
      (change_role rows 7 0 UserRole.admin admin members)
change_role-Changes_example = change_role-Changes rows members 7 0 UserRole.admin admin

check_move_iff_example :
    (check_move ApprovalStatus.draft ApprovalStatus.pending_approval UserRole.editor ≡ ok tt) ↔ (
      (least : UserRole) × Move ApprovalStatus.draft ApprovalStatus.pending_approval least
      × (role_rank least ≤ role_rank UserRole.editor))
check_move_iff_example =
    check_move_iff ApprovalStatus.draft ApprovalStatus.pending_approval UserRole.editor

unfoldable designs : (rows {Row = ContentAsset}).State
unfolding rows
designs = stored (asset ∷ [])

abbrev approval : Request
approval = record {
  org_id = 7;
  asset_id = 0;
  target = ApprovalStatus.approved;
  role = UserRole.admin;
}

approved_by_admin_example :
    (is_approved (rows.find designs 0) ≡ true) ⊎ (any_verdict 0 (approval ∷ []) ≡ true)
unfolding designs serve transition moved check_transition find_by_id_scoped check_move
    valid_transitions min_role_for role_meets_minimum role_rank rows find update_many
approved_by_admin_example = approved_by_admin rows 0 (approval ∷ []) designs refl

-- The office with one pending invitation, whose id is 0.
abbrev invite : Invite
invite = record {
  org_id = 7;
  email = "new@example.org";
  role = UserRole.editor;
  token_hash = "secret";
  status = InviteStatus.pending;
  invited_by_id = 9;
  expires_at = 500;
}

unfoldable inviting : Office invite_ports
unfolding rows
inviting = record {
  invites = stored (invite ∷ []);
  users = stored (owner ∷ []);
  plan_tier = λ org. some PlanTier.pro;
}

concurrent_accepts_example :
    claim_invite invite_ports 0 invite (claim_invite invite_ports 0 invite inviting).1
    ≡ (err invalid_invite, (claim_invite invite_ports 0 invite inviting).1)
unfolding inviting claim_invite claim_counted joined rows find update_many create
concurrent_accepts_example = concurrent_accepts invite_ports 0 invite invite inviting 1 refl
