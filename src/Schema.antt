-- ===== src/Schema.antt =====
-- The enums of backend/prisma/schema.prisma, with the tests that the services make on them.
use socialhub.Prelude.{if◌then◌else◌, ℕ, Bool, true, ◌==◌, ◌≡◌, refl, sym, ap, ◌∙◌, ==_iff, ==-refl}

-- Rows are named by opaque ids (uuid strings in the schema), which the code only compares.
abbrev pub RowId : Type 0
RowId = ℕ

-- An instant or a length of time, in milliseconds.
abbrev pub Millis : Type 0
Millis = ℕ

pub data UserRole : Type 0 where
  owner admin editor viewer : UserRole

pub data Platform : Type 0 where
  instagram facebook threads x linkedin : Platform

pub data PlanTier : Type 0 where
  free starter pro enterprise : PlanTier

pub data VariantStatus : Type 0 where
  pending ready failed : VariantStatus

pub data PublishJobStatus : Type 0 where
  queued scheduled processing published failed cancelled : PublishJobStatus

pub data SocialAccountStatus : Type 0 where
  connected expired revoked error : SocialAccountStatus

pub data ApprovalStatus : Type 0 where
  draft pending_approval approved rejected : ApprovalStatus

pub data InviteStatus : Type 0 where
  pending accepted revoked : InviteStatus

-- `===` on an enum compares the position of the value in its declaration.
abbrev role_code : UserRole → ℕ
role_code UserRole.owner = 0
role_code UserRole.admin = 1
role_code UserRole.editor = 2
role_code UserRole.viewer = 3

abbrev pub role_eq : UserRole → UserRole → Bool
role_eq a b = role_code a == role_code b

abbrev platform_code : Platform → ℕ
platform_code Platform.instagram = 0
platform_code Platform.facebook = 1
platform_code Platform.threads = 2
platform_code Platform.x = 3
platform_code Platform.linkedin = 4

abbrev pub platform_eq : Platform → Platform → Bool
platform_eq a b = platform_code a == platform_code b

platform_of : ℕ → Platform
platform_of n =
    if n == 0
    then Platform.instagram
    else if n == 1
    then Platform.facebook
    else if n == 2
    then Platform.threads
    else if n == 3
    then Platform.x
    else Platform.linkedin

platform_of-code : (p : Platform) → platform_of (platform_code p) ≡ p
unfolding platform_of
platform_of-code Platform.instagram = refl
platform_of-code Platform.facebook = refl
platform_of-code Platform.threads = refl
platform_of-code Platform.x = refl
platform_of-code Platform.linkedin = refl

pub platform_eq_same : (a b : Platform) → platform_eq a b ≡ true → a ≡ b
platform_eq_same a b h =
    sym (platform_of-code a)
    ∙ (ap platform_of ((==_iff (platform_code a) (platform_code b)).0 h) ∙ platform_of-code b)

pub platform_eq_refl : (p : Platform) → platform_eq p p ≡ true
platform_eq_refl p = ==-refl (platform_code p)

abbrev job_status_code : PublishJobStatus → ℕ
job_status_code PublishJobStatus.queued = 0
job_status_code PublishJobStatus.scheduled = 1
job_status_code PublishJobStatus.processing = 2
job_status_code PublishJobStatus.published = 3
job_status_code PublishJobStatus.failed = 4
job_status_code PublishJobStatus.cancelled = 5

abbrev pub job_status_eq : PublishJobStatus → PublishJobStatus → Bool
job_status_eq a b = job_status_code a == job_status_code b

abbrev approval_code : ApprovalStatus → ℕ
approval_code ApprovalStatus.draft = 0
approval_code ApprovalStatus.pending_approval = 1
approval_code ApprovalStatus.approved = 2
approval_code ApprovalStatus.rejected = 3

abbrev pub approval_eq : ApprovalStatus → ApprovalStatus → Bool
approval_eq a b = approval_code a == approval_code b

abbrev pub is_connected : SocialAccountStatus → Bool
is_connected SocialAccountStatus.connected = Bool.true
is_connected _ = Bool.false

abbrev pub is_ready : VariantStatus → Bool
is_ready VariantStatus.ready = Bool.true
is_ready _ = Bool.false

abbrev pub is_pending_invite : InviteStatus → Bool
is_pending_invite InviteStatus.pending = Bool.true
is_pending_invite _ = Bool.false
