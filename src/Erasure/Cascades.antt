-- ===== src/Erasure/Cascades.antt =====
-- The deletions of backend/src/users/account-data.service.ts, with the references of
-- backend/prisma/schema.prisma: what each one cascades to, and what refuses it.
use socialhub.Prelude.{Bool, false, none, some, Result, ok, err, ◌==◌, ◌||◌, ltb, if◌then◌else◌}
use socialhub.Schema.{RowId}
use socialhub.SocialToken.{SocialAccount}
use socialhub.Publishing.{PublishJob, CarouselPost}
use socialhub.Access.Approval.{ContentAsset}
use socialhub.Erasure.{
  ErasePorts, World, OrgModel, hit, EraseError, org_model_code, row_of_org, member_of_org,
  carousel_of_org, sso_config, still_referenced, account_of_org, invoice, invite, asset_of_org,
  subscription, audit_log, template, media_asset, ai_usage_log, brand_kit,
}

module _ (ports : ErasePorts) where
  -- The jobs whose content variant belongs to an asset that meets the condition.
  abbrev pub job_of_asset : (ContentAsset → Bool) → World ports → PublishJob → Bool
  job_of_asset p w j = elim j.variant_id [
    | none ↦ false
    | some v ↦
        hit (λ x. hit p (ports.assets.find w.assets x.asset_id)) (ports.variants.find w.variants v)
  ]

  abbrev pub job_of_carousel : (CarouselPost → Bool) → World ports → PublishJob → Bool
  job_of_carousel p w j = elim j.carousel_post_id [
    | none ↦ false
    | some c ↦ hit p (ports.carousels.find w.carousels c)
  ]

  -- The jobs, with the metrics of each.
  unfoldable pub delete_jobs : (PublishJob → Bool) → World ports → World ports
  delete_jobs p w = record w {
    metrics =
        ports.metrics.delete_all w.metrics (λ m. hit p (ports.jobs.find w.jobs m.publish_job_id));
    jobs = ports.jobs.delete_all w.jobs p;
  }

  -- contentAsset.deleteMany, which cascades to the variants, their jobs, and the comments.
  unfoldable pub delete_assets : (ContentAsset → Bool) → World ports → World ports
  delete_assets p w =
      let v = delete_jobs (job_of_asset p w) w in
      record v {
        variants =
            ports.variants.delete_all w.variants
              (λ x. hit p (ports.assets.find w.assets x.asset_id));
        comments =
            ports.comments.delete_all w.comments
              (λ c. hit p (ports.assets.find w.assets c.asset_id));
        assets = ports.assets.delete_all w.assets p;
      }

  -- The jobs of the accounts that meet the condition.
  abbrev pub job_of_account : (SocialAccount → Bool) → World ports → PublishJob → Bool
  job_of_account p w j = hit p (ports.accounts.find w.accounts j.social_account_id)

  -- socialAccount.deleteMany, which a job of one of the accounts refuses.
  unfoldable pub delete_accounts :
      (SocialAccount → Bool) → World ports → Result EraseError (World ports)
  delete_accounts p w =
      if ltb 0 (ports.jobs.count w.jobs (job_of_account p w))
      then err still_referenced
      else ok (record w { accounts = ports.accounts.delete_all w.accounts p })

  unfoldable pub delete_org_rows : RowId → OrgModel → World ports → World ports
  delete_org_rows org_id model w = record w {
    org_rows = λ m.
        if org_model_code m == org_model_code model
        then ports.org_rows.delete_all (w.org_rows m) (row_of_org org_id)
        else w.org_rows m;
  }

  -- A comment or an asset of one of the users refuses their deletion.
  abbrev pub users_referenced : (gone : RowId → Bool) → World ports → Bool
  users_referenced gone w =
      ltb 0 (ports.comments.count w.comments (λ c. gone c.author_id))
      || ltb 0 (ports.assets.count w.assets (λ a. gone a.created_by_id))

  abbrev pub without_user_rows : (gone : RowId → Bool) → World ports → World ports
  without_user_rows gone w = record w {
    user_rows = λ m. ports.user_rows.delete_all (w.user_rows m) (λ r. gone r.user_id);
  }

  abbrev pub is_member : RowId → World ports → RowId → Bool
  is_member org_id w id = hit (member_of_org org_id) (ports.users.find w.users id)

  -- user.deleteMany({ where: { orgId } })
  unfoldable pub delete_members : (org_id : RowId) → World ports → Result EraseError (World ports)
  delete_members org_id w =
      if users_referenced (is_member org_id w) w
      then err still_referenced
      else ok (record (without_user_rows (is_member org_id w) w) {
        users = ports.users.delete_all w.users (member_of_org org_id);
      })

  -- user.delete({ where: { id } })
  unfoldable pub delete_user : (user_id : RowId) → World ports → Result EraseError (World ports)
  delete_user user_id w =
      if users_referenced (λ id. id == user_id) w
      then err still_referenced
      else ok (record (without_user_rows (λ id. id == user_id) w) {
        users = ports.users.delete w.users user_id;
      })

  abbrev pub org_rows_left : RowId → World ports → OrgModel → Bool
  org_rows_left org_id w m = ltb 0 (ports.org_rows.count (w.org_rows m) (row_of_org org_id))

  -- The references that refuse the deletion of an organization.
  abbrev pub org_referenced : RowId → World ports → Bool
  org_referenced org_id w =
      ((ltb 0 (ports.users.count w.users (member_of_org org_id))
          || ltb 0 (ports.accounts.count w.accounts (account_of_org org_id)))
        || (ltb 0 (ports.assets.count w.assets (asset_of_org org_id))
            || org_rows_left org_id w template))
      || ((org_rows_left org_id w brand_kit || org_rows_left org_id w ai_usage_log)
          || (org_rows_left org_id w invite || org_rows_left org_id w sso_config))

  -- carouselPost, mediaAsset, subscription and invoice: the cascade of an organization.
  unfoldable pub without_org_rows : RowId → World ports → World ports
  without_org_rows org_id w =
      let v = delete_jobs (job_of_carousel (carousel_of_org org_id) w) w in
      delete_org_rows org_id invoice (
        delete_org_rows org_id subscription (
          delete_org_rows org_id media_asset (record v {
            carousels = ports.carousels.delete_all v.carousels (carousel_of_org org_id);
          })))

  -- organization.delete({ where: { id } })
  unfoldable pub delete_org : RowId → World ports → Result EraseError (World ports)
  delete_org org_id w =
      if org_referenced org_id w
      then err still_referenced
      else ok (
          let v = without_org_rows org_id w in
          record v { organizations = ports.organizations.delete v.organizations org_id })

  -- The deletions by name that nothing refuses.
  unfoldable pub delete_named : RowId → World ports → World ports
  delete_named org_id w = delete_org_rows org_id sso_config (
      delete_org_rows org_id invite (
        delete_org_rows org_id audit_log (
          delete_org_rows org_id ai_usage_log
            (delete_org_rows org_id brand_kit (delete_org_rows org_id template w)))))
