-- ===== src/Publishing/Validate.antt =====
-- loadAndValidate and loadAndValidateCarousel of publishing.service.ts.
use socialhub.Prelude.{
  ℕ, String, not, ◌||◌, Option, some, List, Result, ok, ◌>>=◌, ◌>>◌, require, require_some, leb,
  ◌==◌, length,
}
use socialhub.Schema.{
  RowId, Platform, ApprovalStatus, approval_eq, platform_eq, is_ready, is_connected,
}
use socialhub.SocialToken.{SocialAccount, truthy, has_adapter}
use socialhub.Publishing.{
  Ports, World, ContentVariant, PublishError, variant_not_found, account_not_found, not_approved,
  variant_not_ready, no_rendered_image, account_unusable, platform_mismatch, carousel_not_supported,
  carousel_empty, carousel_too_long, queue_for,
}

-- `maxCarouselItems` of each adapter's capabilities().
unfoldable pub max_carousel_items : Platform → Option ℕ
max_carousel_items Platform.instagram = some 10
max_carousel_items Platform.x = some 4
max_carousel_items Platform.facebook = some 10
max_carousel_items Platform.threads = some 20
max_carousel_items Platform.linkedin = some 20

module _ {ports : Ports} where
  -- The account of the caller's organization: another's is reported as missing.
  unfoldable pub find_account : World ports → RowId → RowId → Result PublishError SocialAccount
  find_account w org_id social_account_id = do
    account ←
        require_some (ports.tokens.accounts.find w.accounts social_account_id) account_not_found
    require (account.org_id == org_id) account_not_found
    ok account

  unfoldable pub load_and_validate :
      World ports
      → (org_id variant_id social_account_id : RowId)
      → Result PublishError (ContentVariant × SocialAccount)
  unfolding find_account
  load_and_validate w org_id variant_id social_account_id = do
    variant ← require_some (w.variants variant_id) variant_not_found
    require (variant.asset.org_id == org_id) variant_not_found
    require
        (not variant.asset.requires_approval
          || approval_eq variant.asset.approval_status ApprovalStatus.approved)
        not_approved
    account ← find_account w org_id social_account_id
    require (is_ready variant.status) variant_not_ready
    require (truthy variant.rendered_media_url) no_rendered_image
    require (is_connected account.status) (account_unusable account.platform account.status)
    require (platform_eq account.platform variant.platform)
        (platform_mismatch variant.platform account.platform)
    ok (variant, account)

  -- Returns the account and the name of its queue. A missing adapter, queue or limit (or a limit
  -- of 0) means that the platform has no carousels.
  unfoldable pub load_and_validate_carousel :
      World ports
      → (org_id social_account_id : RowId) → List String
      → Result PublishError (SocialAccount × String)
  unfolding find_account queue_for max_carousel_items has_adapter
  load_and_validate_carousel w org_id social_account_id media_urls = do
    account ← find_account w org_id social_account_id
    require (is_connected account.status) (account_unusable account.platform account.status)
    require (has_adapter account.platform) (carousel_not_supported account.platform)
    queue ← require_some (queue_for account.platform) (carousel_not_supported account.platform)
    max_items ←
        require_some (max_carousel_items account.platform) (carousel_not_supported account.platform)
    require (not (max_items == 0)) (carousel_not_supported account.platform)
    require (leb 1 (length media_urls)) carousel_empty
    require (leb (length media_urls) max_items) (carousel_too_long account.platform max_items)
    ok (account, queue)
