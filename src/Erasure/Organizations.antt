-- ===== src/Erasure/Organizations.antt =====
-- The deletion of an organization.
use socialhub.Prelude.{
  Option, some, ◌||◌, ◌≡◌, refl, Bool, true, false, none, Result, ok, err, ◌⊎◌, inl, inr, ◌==◌,
  ==-refl, ltb, Bool-cases,
}
use socialhub.Schema.{RowId}
use socialhub.Database.{dropped}
use socialhub.Database.Every.{
  Every, Swept, delete_all-Swept, delete_twice-Swept, delete_all-Every_from, count_every,
  count-delete_all,
}
use socialhub.Access.Approval.{ContentAsset}
use socialhub.Erasure.{
  template, brand_kit, ai_usage_log, audit_log, invite, sso_config, media_asset, subscription,
  invoice, ErasePorts, World, EraseError, Scope, OrgModel, UserModel, Comment, hit, asset_of_org,
  account_of_org, member_of_org, carousel_of_org, row_of_org,
}
use socialhub.Erasure.Cascades.{
  job_of_asset, job_of_carousel, job_of_account, is_member, delete_assets, delete_jobs,
  delete_accounts, delete_named, delete_org_rows, delete_members, delete_org, without_org_rows,
}
use socialhub.Erasure.Accounts.{erased, delete_organization, committed}

-- A row that a deletion has kept is read as before.
hit-dropped :
    {Row : Type 0} (p q : Row → Bool) (o : Option Row)
    → hit p o ≡ false
    → hit q (dropped p o) ≡ hit q o
hit-dropped p q none e = refl
hit-dropped p q (some r) e = rw e refl

not_both : (b : Bool) → b ≡ false → b ≡ true → ⊥
not_both b e f = cc

module _ (ports : ErasePorts) where
  -- What the deletion reads stays within the organization: the jobs of its accounts are all about
  -- its designs, and its members have written on its designs and made designs of it only.
  pub record WellScoped (org_id : RowId) (w : World ports) : Type 0 where
    pub jobs : Every ports.jobs w.jobs (λ j.
        (job_of_account ports (account_of_org org_id) w j ≡ false)
        ⊎ (job_of_asset ports (asset_of_org org_id) w j ≡ true))
    pub comments : Every ports.comments w.comments (λ c.
        (is_member ports org_id w c.author_id ≡ false)
        ⊎ (hit (asset_of_org org_id) (ports.assets.find w.assets c.asset_id) ≡ true))
    pub assets :
        Every ports.assets w.assets
          (λ a. (is_member ports org_id w a.created_by_id ≡ false) ⊎ (asset_of_org org_id a ≡ true))

  -- Nothing of the organization is left, and everything of every other is.
  abbrev pub Erased : RowId → World ports → Result EraseError Scope × World ports → Type 0
  Erased org_id w (err e, v) = ⊥
  Erased org_id w (ok scope, v) =
      (ports.organizations.find v.organizations org_id ≡ none)
      × ((k : RowId)
          → ((org_id == k) ≡ true)
            ⊎ (ports.organizations.find v.organizations k
                ≡ ports.organizations.find w.organizations k))
      × Swept ports.users w.users v.users (member_of_org org_id)
      × Swept ports.assets w.assets v.assets (asset_of_org org_id)
      × Swept ports.accounts w.accounts v.accounts (account_of_org org_id)
      × Swept ports.carousels w.carousels v.carousels (carousel_of_org org_id)
      × Swept ports.variants w.variants v.variants
          (λ x. hit (asset_of_org org_id) (ports.assets.find w.assets x.asset_id))
      × Swept ports.comments w.comments v.comments
          (λ c. hit (asset_of_org org_id) (ports.assets.find w.assets c.asset_id))
      × Swept ports.jobs w.jobs v.jobs (λ j.
        job_of_asset ports (asset_of_org org_id) w j
        || job_of_carousel ports (carousel_of_org org_id) w j)
      × Swept ports.metrics w.metrics v.metrics (λ m.
        hit (job_of_asset ports (asset_of_org org_id) w) (ports.jobs.find w.jobs m.publish_job_id)
        || hit (job_of_carousel ports (carousel_of_org org_id) w)
            (ports.jobs.find w.jobs m.publish_job_id))
      × ((m : OrgModel) → Swept ports.org_rows (w.org_rows m) (v.org_rows m) (row_of_org org_id))
      × ((m : UserModel)
          → Swept ports.user_rows (w.user_rows m) (v.user_rows m)
              (λ r. is_member ports org_id w r.user_id))

  either :
      {Row : Type 0} (p q : Row → Bool) (r : Row)
      → q r ≡ false
      → (p r ≡ false) ⊎ (q r ≡ true)
      → p r ≡ false
  either p q r e (inl f) = f
  either p q r e (inr f) = absurd (not_both (q r) e f)

  no_job :
      (org_id : RowId) (w : World ports)
      → WellScoped org_id w
      → ltb 0 (
          ports.jobs.count
            (ports.jobs.delete_all w.jobs (job_of_asset ports (asset_of_org org_id) w))
            (job_of_account ports (account_of_org org_id) w))
        ≡ false
  no_job org_id w h =
      let p = job_of_account ports (account_of_org org_id) w in
      let q = job_of_asset ports (asset_of_org org_id) w in
      rw
        (count_every ports.jobs (ports.jobs.delete_all w.jobs q) p
          (delete_all-Every_from ports.jobs w.jobs q _ _ (λ j e k. either p q j e k) h.jobs))
        refl

  no_comment :
      (org_id : RowId) (w : World ports)
      → WellScoped org_id w
      → ltb 0 (
          ports.comments.count
            (ports.comments.delete_all w.comments
              (λ c. hit (asset_of_org org_id) (ports.assets.find w.assets c.asset_id)))
            (λ c. is_member ports org_id w c.author_id))
        ≡ false
  no_comment org_id w h =
      let p : Comment → Bool = λ c. is_member ports org_id w c.author_id in
      let q : Comment → Bool =
        λ c. hit (asset_of_org org_id) (ports.assets.find w.assets c.asset_id) in
      rw
        (count_every ports.comments (ports.comments.delete_all w.comments q) p (
          delete_all-Every_from ports.comments w.comments q _ _ (λ c e k. either p q c e k)
            h.comments))
        refl

  no_asset :
      (org_id : RowId) (w : World ports)
      → WellScoped org_id w
      → ltb 0 (
          ports.assets.count
            (ports.assets.delete_all w.assets (asset_of_org org_id))
            (λ a. is_member ports org_id w a.created_by_id))
        ≡ false
  no_asset org_id w h =
      let p : ContentAsset → Bool = λ a. is_member ports org_id w a.created_by_id in
      let q = asset_of_org org_id in
      rw
        (count_every ports.assets (ports.assets.delete_all w.assets q) p
          (delete_all-Every_from ports.assets w.assets q _ _ (λ a e k. either p q a e k) h.assets))
        refl

  rows-Swept :
      (org_id : RowId) (w : World ports) (m : OrgModel)
      → Swept ports.org_rows
          (w.org_rows m)
          ((without_org_rows ports org_id (delete_named ports org_id w)).org_rows m)
          (row_of_org org_id)
  unfolding without_org_rows delete_named delete_org_rows delete_jobs
  rows-Swept org_id w template =
      delete_all-Swept ports.org_rows (w.org_rows template) (row_of_org org_id)
  rows-Swept org_id w brand_kit =
      delete_all-Swept ports.org_rows (w.org_rows brand_kit) (row_of_org org_id)
  rows-Swept org_id w ai_usage_log =
      delete_all-Swept ports.org_rows (w.org_rows ai_usage_log) (row_of_org org_id)
  rows-Swept org_id w audit_log =
      delete_all-Swept ports.org_rows (w.org_rows audit_log) (row_of_org org_id)
  rows-Swept org_id w invite =
      delete_all-Swept ports.org_rows (w.org_rows invite) (row_of_org org_id)
  rows-Swept org_id w sso_config =
      delete_all-Swept ports.org_rows (w.org_rows sso_config) (row_of_org org_id)
  rows-Swept org_id w media_asset =
      delete_all-Swept ports.org_rows (w.org_rows media_asset) (row_of_org org_id)
  rows-Swept org_id w subscription =
      delete_all-Swept ports.org_rows (w.org_rows subscription) (row_of_org org_id)
  rows-Swept org_id w invoice =
      delete_all-Swept ports.org_rows (w.org_rows invoice) (row_of_org org_id)

  -- The deletion of an organization goes through where every job of its accounts is about one of
  -- its designs (so that none is about a carousel alone), and its members have commented on its
  -- designs and made designs of it only. No member, design, variant, comment, account, carousel or
  -- other row of it is left then, no job about its designs or carousels, and no metric of such a
  -- job; every other row of these tables is kept.
  pub delete_organization-Erased :
      (org_id : RowId) (w : World ports)
      → WellScoped org_id w
      → Erased org_id w (delete_organization ports org_id w)
  unfolding delete_organization erased committed delete_accounts delete_assets delete_jobs
      delete_named delete_org_rows delete_members delete_org without_org_rows
  delete_organization-Erased org_id w h =
      rw
        (
          no_job org_id w h,
          no_comment org_id w h,
          no_asset org_id w h,
          count-delete_all ports.users w.users (member_of_org org_id),
          count-delete_all ports.accounts w.accounts (account_of_org org_id),
          count-delete_all ports.assets w.assets (asset_of_org org_id),
          count-delete_all ports.org_rows (w.org_rows template) (row_of_org org_id),
          count-delete_all ports.org_rows (w.org_rows brand_kit) (row_of_org org_id),
          count-delete_all ports.org_rows (w.org_rows ai_usage_log) (row_of_org org_id),
          count-delete_all ports.org_rows (w.org_rows invite) (row_of_org org_id),
          count-delete_all ports.org_rows (w.org_rows sso_config) (row_of_org org_id),
        )
        (
          rw (ports.organizations.find-delete w.organizations org_id org_id, ==-refl org_id) refl,
          (λ k. elim (Bool-cases (org_id == k)) [
            | inl e ↦ inl e
            | inr e ↦ inr (rw (ports.organizations.find-delete w.organizations org_id k, e) refl)
          ]),
          delete_all-Swept ports.users w.users (member_of_org org_id),
          delete_all-Swept ports.assets w.assets (asset_of_org org_id),
          delete_all-Swept ports.accounts w.accounts (account_of_org org_id),
          delete_all-Swept ports.carousels w.carousels (carousel_of_org org_id),
          delete_all-Swept ports.variants w.variants _,
          delete_all-Swept ports.comments w.comments _,
          delete_twice-Swept ports.jobs w.jobs (job_of_asset ports (asset_of_org org_id) w)
              (job_of_carousel ports (carousel_of_org org_id) w) _ (λ j e. refl),
          delete_twice-Swept ports.metrics w.metrics
              (λ m.
                hit (job_of_asset ports (asset_of_org org_id) w)
                  (ports.jobs.find w.jobs m.publish_job_id))
              (λ m. hit (job_of_carousel ports (carousel_of_org org_id) w) (
                ports.jobs.find
                  (ports.jobs.delete_all w.jobs (job_of_asset ports (asset_of_org org_id) w))
                  m.publish_job_id))
              _
              (λ m e. rw ports.jobs.find-delete_all (
                hit-dropped (job_of_asset ports (asset_of_org org_id) w)
                  (job_of_carousel ports (carousel_of_org org_id) w)
                  (ports.jobs.find w.jobs m.publish_job_id) e)),
          rows-Swept org_id w,
          (λ m.
              delete_all-Swept ports.user_rows (w.user_rows m)
                (λ r. is_member ports org_id w r.user_id)),
        )
