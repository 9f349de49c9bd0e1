-- ===== src/Samples/Erasing.antt =====
-- An organization with a member, a design that was published, and an account.
use socialhub.Prelude.{◌≡◌, refl, some, err, [], ◌∷◌, ◌==◌, Bool-cases, inl, inr}
use text.Mathlib.Text.{◌==◌ as str_eq}
use socialhub.Schema.{UserRole}
use socialhub.Database.Rows.{rows}
use socialhub.Database.Slots.{find, stored}
use socialhub.Publishing.{PublishJob}
use socialhub.Erasure.{ErasePorts, World, Member, still_referenced}
use socialhub.Erasure.Accounts.{delete_organization}
use socialhub.Erasure.Organizations.{WellScoped, Erased, delete_organization-Erased}
use socialhub.Erasure.Blocked.{delete_organization_blocked}
use socialhub.Samples.{account, asset, job, carousel_job, carousel_post}

abbrev erase_ports : ErasePorts
erase_ports = record {
  organizations = rows;
  users = rows;
  assets = rows;
  variants = rows;
  carousels = rows;
  jobs = rows;
  metrics = rows;
  comments = rows;
  accounts = rows;
  org_rows = rows;
  user_rows = rows;
  password_matches = λ p h. str_eq p h;
}

abbrev member : Member
member = record { org_id = 7; role = UserRole.owner; password_hash = some "secret" }

abbrev design_job : PublishJob
design_job = record job { variant_id = some 0 }

-- With the job that is given.
unfoldable house : PublishJob → World erase_ports
unfolding rows
house j = record {
  organizations = stored (tt ∷ []);
  users = stored (member ∷ []);
  assets = stored (asset ∷ []);
  variants = stored (record { asset_id = 0 } ∷ []);
  carousels = stored (carousel_post ∷ []);
  jobs = stored (j ∷ []);
  metrics = stored (record { publish_job_id = 0 } ∷ []);
  comments = stored (record { asset_id = 0; author_id = 0 } ∷ []);
  accounts = stored (account ∷ []);
  org_rows = λ m. stored (record { org_id = 7 } ∷ record { org_id = 8 } ∷ []);
  user_rows = λ m. stored (record { user_id = 0 } ∷ []);
}

house-WellScoped : WellScoped erase_ports 7 (house design_job)
unfolding house rows find
house-WellScoped = record {
  jobs = λ k. elim (Bool-cases (0 == k)) [ inl e ↦ rw e (inr refl) | inr e ↦ rw e tt ];
  comments = λ k. elim (Bool-cases (0 == k)) [ inl e ↦ rw e (inr refl) | inr e ↦ rw e tt ];
  assets = λ k. elim (Bool-cases (0 == k)) [ inl e ↦ rw e (inr refl) | inr e ↦ rw e tt ];
}

delete_organization-Erased_example :
    Erased erase_ports 7 (house design_job) (delete_organization erase_ports 7 (house design_job))
delete_organization-Erased_example =
    delete_organization-Erased erase_ports 7 (house design_job) house-WellScoped

delete_organization_blocked_example :
    delete_organization erase_ports 7 (house carousel_job)
    ≡ (err still_referenced, house carousel_job)
unfolding house rows find
delete_organization_blocked_example =
    delete_organization_blocked erase_ports 7 0 carousel_job account (house carousel_job) refl refl
      refl refl
