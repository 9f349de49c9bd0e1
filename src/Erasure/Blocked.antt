-- ===== src/Erasure/Blocked.antt =====
-- An organization that cannot be deleted.
use socialhub.Prelude.{◌≡◌, refl, true, false, none, some, err, lt→ltb, ==-refl}
use socialhub.Schema.{RowId}
use socialhub.SocialToken.{SocialAccount}
use socialhub.Publishing.{PublishJob}
use socialhub.Erasure.{ErasePorts, World, still_referenced, asset_of_org, account_of_org}
use socialhub.Erasure.Cascades.{
  job_of_asset, job_of_account, delete_assets, delete_jobs, delete_accounts,
}
use socialhub.Erasure.Accounts.{erased, delete_organization, committed}

module _ (ports : ErasePorts) where
  -- A job without a variant is not reached by the deletion of the assets.
  carousel_job_stays :
      (org_id k : RowId) (j : PublishJob) (w : World ports)
      → j.variant_id ≡ none
      → ports.jobs.find w.jobs k ≡ some j
      → ports.jobs.find
          (ports.jobs.delete_all w.jobs (job_of_asset ports (asset_of_org org_id) w))
          k
        ≡ some j
  carousel_job_stays org_id k j w n h =
      let q : job_of_asset ports (asset_of_org org_id) w j ≡ false = rw n refl in
      rw (ports.jobs.find-delete_all, h, q) refl

  -- An organization that has published, or has scheduled, a carousel on one of its accounts cannot
  -- be deleted: the deletion is refused, and everything stays as it was. The job of a carousel has
  -- no content variant.
  pub delete_organization_blocked :
      (org_id k : RowId) (j : PublishJob) (a : SocialAccount) (w : World ports)
      → ports.jobs.find w.jobs k ≡ some j
      → j.variant_id ≡ none
      → ports.accounts.find w.accounts j.social_account_id ≡ some a
      → a.org_id ≡ org_id
      → delete_organization ports org_id w ≡ (err still_referenced, w)
  unfolding delete_organization erased committed delete_accounts delete_assets delete_jobs
  delete_organization_blocked org_id k j a w h n f o =
      let p = asset_of_org org_id in
      let jobs = ports.jobs.delete_all w.jobs (job_of_asset ports p w) in
      let of = job_of_account ports (account_of_org org_id) w in
      let stays = carousel_job_stays org_id k j w n h in
      let refers : of j ≡ true = rw (f, o, ==-refl org_id) refl in
      rw (lt→ltb 0 (ports.jobs.count jobs of) (ports.jobs.count_finds jobs of k j stays refers))
        refl
