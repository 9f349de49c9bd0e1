-- ===== src/Erasure/Accounts.antt =====
-- backend/src/users/account-data.service.ts: the deletion of an account, and its two transactions.
use socialhub.Erasure.Cascades.{
  delete_accounts, delete_user, delete_assets, delete_members, delete_named, delete_org,
}
use socialhub.Prelude.{
  String, Bool, true, false, Option, none, some, Result, ok, err, ◌==◌, if◌then◌else◌, ◌>>=◌,
}
use socialhub.Schema.{RowId, UserRole, role_eq}
use socialhub.Erasure.{
  ErasePorts, World, Scope, Member, EraseError, organization, user, wrong_password, unauthorized,
  account_of_org, no_password, asset_of_org,
}

module _ (ports : ErasePorts) where
  -- The steps of the transaction.
  unfoldable pub erased : (org_id : RowId) → World ports → Result EraseError (World ports)
  erased org_id w = do
    s ← delete_accounts ports (account_of_org org_id) (delete_assets ports (asset_of_org org_id) w)
    t ← delete_members ports org_id (delete_named ports org_id s)
    delete_org ports org_id t

  unfoldable pub left : (user_id : RowId) → World ports → Result EraseError (World ports)
  left user_id w =
      let v = record w {
        comments = ports.comments.delete_all w.comments (λ c. c.author_id == user_id);
      } in
      delete_user ports user_id (delete_assets ports (λ a. a.created_by_id == user_id) v)

  -- A transaction: where a step fails, everything stays as it was.
  unfoldable pub committed :
      Scope → World ports → Result EraseError (World ports) → Result EraseError Scope × World ports
  committed scope w (err e) = (err e, w)
  committed scope w (ok v) = (ok scope, v)

  unfoldable pub delete_organization :
      (org_id : RowId) → World ports → Result EraseError Scope × World ports
  delete_organization org_id w = committed organization w (erased org_id w)

  unfoldable pub delete_membership :
      (user_id : RowId) → World ports → Result EraseError Scope × World ports
  delete_membership user_id w = committed user w (left user_id w)

  abbrev pub is_owner : UserRole → Bool
  is_owner role = role_eq role UserRole.owner

  unfoldable pub delete_confirmed :
      (user_id : RowId) → Member → World ports → Bool → Result EraseError Scope × World ports
  delete_confirmed user_id u w false = (err wrong_password, w)
  delete_confirmed user_id u w true =
      if is_owner u.role then delete_organization u.org_id w else delete_membership user_id w

  unfoldable pub delete_member :
      (user_id : RowId) (password : String)
      → World ports
      → Option Member
      → Result EraseError Scope × World ports
  delete_member user_id password w none = (err unauthorized, w)
  delete_member user_id password w (some u) = elim u.password_hash [
    | none ↦ (err no_password, w)
    | some h ↦ delete_confirmed user_id u w (ports.password_matches password h)
  ]

  unfoldable pub delete_account :
      (user_id : RowId) (password : String) → World ports → Result EraseError Scope × World ports
  delete_account user_id password w =
      delete_member user_id password w (ports.users.find w.users user_id)
