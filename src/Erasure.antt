-- ===== src/Erasure.antt =====
-- backend/src/users/account-data.service.ts: the deletion of an account, with the references of
-- backend/prisma/schema.prisma that a deletion cascades along or is refused by.
pub mod Cascades
pub mod Accounts
pub mod Organizations
pub mod Blocked
use socialhub.Prelude.{
  ℕ, String, Bool, true, false, not, Option, none, some, Result, ok, err, ◌==◌, ◌&&◌, ◌||◌, ltb,
  if◌then◌else◌,
}
use socialhub.Schema.{RowId, UserRole, role_eq}
use socialhub.Database.{Table}
use socialhub.SocialToken.{SocialAccount}
use socialhub.Publishing.{PublishJob, CarouselPost}
use socialhub.Access.Approval.{ContentAsset}

-- The models that nothing references and that belong to an organization: those that are deleted by
-- name, and those that the organization's deletion cascades to.
pub data OrgModel : Type 0 where
  template brand_kit ai_usage_log audit_log invite sso_config : OrgModel
  media_asset subscription invoice : OrgModel

-- The models that a user's deletion cascades to.
pub data UserModel : Type 0 where
  refresh_token user_token mfa_recovery_code notification : UserModel

abbrev pub org_model_code : OrgModel → ℕ
org_model_code template = 0
org_model_code brand_kit = 1
org_model_code ai_usage_log = 2
org_model_code audit_log = 3
org_model_code invite = 4
org_model_code sso_config = 5
org_model_code media_asset = 6
org_model_code subscription = 7
org_model_code invoice = 8

-- The columns of a row that the deletion reads.
pub record OrgRow : Type 0 where
  pub org_id : RowId

pub record UserRow : Type 0 where
  pub user_id : RowId

pub record Member : Type 0 where
  pub org_id : RowId
  pub role : UserRole
  pub password_hash : Option String

pub record Comment : Type 0 where
  pub asset_id : RowId
  pub author_id : RowId

pub record Variant : Type 0 where
  pub asset_id : RowId

pub record PostMetric : Type 0 where
  pub publish_job_id : RowId

-- The exceptions: a 401, two 400s, and the database's refusal.
pub data EraseError : Type 0 where
  unauthorized no_password wrong_password still_referenced : EraseError

pub data Scope : Type 0 where
  organization user : Scope

pub record ErasePorts : Type 1 where
  pub organizations : Table (Unit {0})
  pub users : Table Member
  pub assets : Table ContentAsset
  pub variants : Table Variant
  pub carousels : Table CarouselPost
  pub jobs : Table PublishJob
  pub metrics : Table PostMetric
  pub comments : Table Comment
  pub accounts : Table SocialAccount
  pub org_rows : Table OrgRow
  pub user_rows : Table UserRow
  -- bcrypt.compare
  pub password_matches : (password hash : String) → Bool

pub record World (ports : ErasePorts) : Type 0 where
  pub organizations : ports.organizations.State
  pub users : ports.users.State
  pub assets : ports.assets.State
  pub variants : ports.variants.State
  pub carousels : ports.carousels.State
  pub jobs : ports.jobs.State
  pub metrics : ports.metrics.State
  pub comments : ports.comments.State
  pub accounts : ports.accounts.State
  pub org_rows : OrgModel → ports.org_rows.State
  pub user_rows : UserModel → ports.user_rows.State

-- The row that a foreign key names meets a condition.
abbrev pub hit : {Row : Type 0} → (Row → Bool) → Option Row → Bool
hit p none = false
hit p (some r) = p r

abbrev pub row_of_org : RowId → OrgRow → Bool
row_of_org org_id r = r.org_id == org_id

abbrev pub member_of_org : RowId → Member → Bool
member_of_org org_id u = u.org_id == org_id

abbrev pub asset_of_org : RowId → ContentAsset → Bool
asset_of_org org_id a = a.org_id == org_id

abbrev pub account_of_org : RowId → SocialAccount → Bool
account_of_org org_id a = a.org_id == org_id

abbrev pub carousel_of_org : RowId → CarouselPost → Bool
carousel_of_org org_id c = c.org_id == org_id
