-- ===== src/Samples.antt =====
-- Concrete tables, ports and rows, on which the operations run.
pub mod Publishing
pub mod Accounts
pub mod Payments
pub mod Usage
pub mod SignIn
pub mod Limits
pub mod Codes
pub mod Connections
pub mod Erasing
pub mod Posts
pub mod Services
use socialhub.Prelude.{
  ℕ, String, Bool, true, false, Option, none, some, List, [], ◌∷◌, Result, ok, err, if◌then◌else◌,
}
use text.Mathlib.Text.{◌==◌ as str_eq}
use socialhub.Schema.{
  RowId, Platform, UserRole, PlanTier, PublishJobStatus, SocialAccountStatus, VariantStatus,
  ApprovalStatus,
}
use socialhub.Database.{Table}
use socialhub.Database.Rows.{rows}
use socialhub.Database.Slots.{stored}
use socialhub.SocialToken.{SocialAccount, RefreshedTokens, TokenPorts}
use socialhub.Publishing.{
  accepted, refused, Ports, World, PublishJob, ContentVariant, CarouselPost, PublishRequest,
  QueueEntry,
}
use socialhub.Publishing.Execute.{Run, Context}
use socialhub.Access.Members.{User, Actor}
use socialhub.Access.Approval.{ContentAsset}
use socialhub.Access.Invites.{Invite, InvitePorts, Office}

-- A platform that rejects one grant and renews every other.
abbrev answer_refresh : Platform → String → Result String RefreshedTokens
answer_refresh platform token =
    if str_eq token "revoked-grant"
    then err "invalid_grant"
    else ok (record { access_token = "fresh"; refresh_token = none; expires_at = some 900000000 })

-- A cipher that leaves the text as it is.
abbrev pub token_ports : TokenPorts
token_ports = record {
  accounts = rows;
  encrypt = λ s. s;
  decrypt = λ s. some s;
  refresh = answer_refresh;
  means_revoked = λ message. str_eq message "invalid_grant";
}

abbrev pub ports : Ports
ports = record { tokens = token_ports; jobs = rows; carousels = rows }

abbrev pub account : SocialAccount
account = record {
  org_id = 7;
  platform = Platform.threads;
  status = SocialAccountStatus.connected;
  external_account_id = "threads-1";
  external_user_id = some "threads-1";
  access_token_enc = "token";
  refresh_token_enc = none;
  expires_at = none;
}

-- Its token has expired, and its grant is rejected.
abbrev pub revoked_account : SocialAccount
revoked_account = record account { refresh_token_enc = some "revoked-grant"; expires_at = some 1 }

abbrev pub variant : ContentVariant
variant = record {
  asset_id = 3;
  asset = record {
    org_id = 7;
    approval_status = ApprovalStatus.approved;
    requires_approval = true;
  };
  platform = Platform.threads;
  status = VariantStatus.ready;
  rendered_media_url = some "/media/1.png";
  caption = some "hello";
}

abbrev pub carousel_post : CarouselPost
carousel_post = record {
  org_id = 7;
  created_by_id = 2;
  media_urls = "/media/1.png" ∷ "/media/2.png" ∷ [];
  caption = none;
}

abbrev pub job : PublishJob
job = record {
  variant_id = some 5;
  carousel_post_id = none;
  social_account_id = 0;
  scheduled_at = none;
  caption = none;
  status = PublishJobStatus.queued;
  attempt_count = 0;
  last_error = none;
  external_post_id = none;
}

abbrev pub carousel_job : PublishJob
carousel_job = record job { variant_id = none; carousel_post_id = some 0 }

abbrev pub scheduled_job : PublishJob
scheduled_job = record job { status = PublishJobStatus.scheduled; scheduled_at = some 50 }

abbrev pub only_variant : RowId → Option ContentVariant
only_variant id = some variant

abbrev pub only_author : RowId → Option RowId
only_author id = some 2

abbrev pub entry : QueueEntry
entry = record {
  queue = "publish-threads";
  job = record { publish_job_id = 0; caption = none };
  attempts = 3;
  attempts_made = 0;
}

-- One account, one carousel, and the jobs that are given.
unfoldable pub world_of : List PublishJob → World ports
unfolding rows
world_of jobs = record {
  jobs = stored jobs;
  carousels = stored (carousel_post ∷ []);
  accounts = stored (account ∷ []);
  variants = only_variant;
  authors = only_author;
  queue = [];
  sent = [];
  notices = [];
}

-- A platform that accepts everything, and one that refuses everything.
abbrev pub accepting : Run
accepting = record { now = 100; answer = λ p r. accepted "post-1" }

abbrev pub refusing : Run
refusing = record { now = 100; answer = λ p r. refused "unavailable" }

abbrev pub first_attempt : Context
first_attempt = record { attempts_made = 0; max_attempts = 3 }

abbrev pub owner : User
owner = record { email = "owner@example.org"; org_id = 7; role = UserRole.owner }

abbrev pub editor : User
editor = record { email = "editor@example.org"; org_id = 7; role = UserRole.editor }

abbrev pub admin : Actor
admin = record { user_id = 9; role = UserRole.admin }

abbrev pub asset : ContentAsset
asset = record { org_id = 7; created_by_id = 2; approval_status = ApprovalStatus.pending_approval }

abbrev pub invite_ports : InvitePorts
invite_ports = record { invites = rows; users = rows; normalize = λ s. s; hash_token = λ s. s }

unfoldable pub office : Office invite_ports
unfolding rows
office = record { invites = []; users = stored (owner ∷ []); plan_tier = λ org. some PlanTier.pro }
