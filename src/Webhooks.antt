-- ===== src/Webhooks.antt =====
-- backend/src/webhooks/webhooks.service.ts: the events that Meta delivers.
pub mod Settled
pub mod Redelivery
pub mod Isolation
use socialhub.Prelude.{
  ℕ, String, Bool, true, false, not, Option, none, some, List, [], ◌∷◌, ◌&&◌, ◌||◌, ◌+◌, ltb,
  if◌then◌else◌, or_option,
}
use text.Mathlib.Text.{◌==◌ as str_eq}
use socialhub.Schema.{
  RowId, Platform, platform_eq, PublishJobStatus, job_status_eq, SocialAccountStatus,
}
use socialhub.Database.{Table}
use socialhub.SocialToken.{SocialAccount}
use socialhub.Publishing.{PublishJob, removed_on}

-- A value of unknown type: a string, something else, or nothing.
pub data Unknown : Type 0 where
  missing other : Unknown
  text_of : String → Unknown

-- MetaWebhookChange: `value` by the names of its fields.
pub record MetaWebhookChange : Type 0 where
  pub field : Option String
  pub value : Option (String → Unknown)

pub record MetaWebhookEntry : Type 0 where
  pub id : Option String
  pub changes : Option (List MetaWebhookChange)

pub record MetaWebhookPayload : Type 0 where
  pub entry : Option (List MetaWebhookEntry)

pub record WebhookPorts : Type 1 where
  pub jobs : Table PublishJob
  pub accounts : Table SocialAccount

pub record World (ports : WebhookPorts) : Type 0 where
  pub jobs : ports.jobs.State
  pub accounts : ports.accounts.State

-- asString: a string that is not empty.
unfoldable pub as_string : Unknown → Option String
as_string missing = none
as_string other = none
as_string (text_of s) = if str_eq s "" then none else some s

abbrev pub has_text : String → Option String → Bool
has_text s o = elim o [ none ↦ false | some t ↦ str_eq t s ]

abbrev pub or_empty : {A : Type 0} → Option (List A) → List A
or_empty none = []
or_empty (some l) = l

abbrev pub value_of : MetaWebhookChange → String → Unknown
value_of c name = elim c.value [ none ↦ missing | some v ↦ v name ]

abbrev pub field_of : MetaWebhookChange → String
field_of c = elim c.field [ none ↦ "" | some f ↦ f ]

-- POST_REMOVAL_FIELDS.
abbrev pub is_removal_field : String → Bool
is_removal_field f = str_eq f "feed" || (str_eq f "mentions" || str_eq f "media")

-- POST_REMOVAL_VERBS, of a verb that is there.
abbrev pub is_removal_verb : Option String → Bool
is_removal_verb none = false
is_removal_verb (some v) =
    (str_eq v "remove" || str_eq v "delete") || (str_eq v "hide" || str_eq v "unpublish")

unfoldable pub verb_of : MetaWebhookChange → Option String
verb_of c = or_option (as_string (value_of c "verb")) (as_string (value_of c "action"))

unfoldable pub post_of : MetaWebhookChange → Option String
post_of c =
    or_option (as_string (value_of c "post_id"))
      (or_option (as_string (value_of c "media_id")) (as_string (value_of c "id")))

-- What a change is about: a post that was removed, a grant that was revoked, or nothing of ours.
pub data Action : Type 0 where
  post_removed account_revoked : String → Action
  unmapped : Action

unfoldable pub is_revocation : MetaWebhookChange → Bool
is_revocation c =
    has_text "revoke" (verb_of c)
    || (has_text "removed" (as_string (value_of c "status"))
        || has_text "unsubscribed" (as_string (value_of c "status")))

-- The entry's id counts where it is not empty.
abbrev pub revoked_by : Option String → Action
revoked_by none = unmapped
revoked_by (some id) = if str_eq id "" then unmapped else account_revoked id

unfoldable pub permission_action : MetaWebhookEntry → MetaWebhookChange → Action
permission_action e c =
    if str_eq (field_of c) "permissions" && is_revocation c then revoked_by e.id else unmapped

unfoldable pub removal_action : MetaWebhookEntry → MetaWebhookChange → Option String → Action
removal_action e c none = permission_action e c
removal_action e c (some post) = post_removed post

unfoldable pub action_of : MetaWebhookEntry → MetaWebhookChange → Action
action_of e c =
    if is_removal_field (field_of c) && is_removal_verb (verb_of c)
    then removal_action e c (post_of c)
    else permission_action e c

abbrev pub account_on : Platform → Option SocialAccount → Bool
account_on platform o = elim o [ none ↦ false | some a ↦ platform_eq a.platform platform ]

abbrev pub fail_removed : Platform → PublishJob → PublishJob
fail_removed platform j = record j {
  status = PublishJobStatus.failed;
  last_error = some (removed_on platform);
}

abbrev pub is_revoked : SocialAccountStatus → Bool
is_revoked SocialAccountStatus.revoked = true
is_revoked _ = false

abbrev pub revocable : Platform → (external_user_id : String) → SocialAccount → Bool
revocable platform user a =
    platform_eq a.platform platform
    && (has_text user a.external_user_id && not (is_revoked a.status))

abbrev pub revoke : SocialAccount → SocialAccount
revoke a = record a { status = SocialAccountStatus.revoked }

module _ (ports : WebhookPorts) where
  -- A published job of the post, whose account is on the platform.
  abbrev pub removable :
      ports.accounts.State → Platform → (external_post_id : String) → PublishJob → Bool
  removable accounts platform post j =
      has_text post j.external_post_id
      && (job_status_eq j.status PublishJobStatus.published
          && account_on platform (ports.accounts.find accounts j.social_account_id))

  unfoldable pub mark_post_removed :
      Platform → (external_post_id : String) → World ports → Bool × World ports
  mark_post_removed platform post w =
      let p = removable w.accounts platform post in
      (
        ltb 0 (ports.jobs.count w.jobs p),
        record w { jobs = ports.jobs.update_all w.jobs p (fail_removed platform) },
      )

  unfoldable pub mark_account_revoked :
      Platform → (external_user_id : String) → World ports → Bool × World ports
  mark_account_revoked platform user w =
      let p = revocable platform user in
      (
        ltb 0 (ports.accounts.count w.accounts p),
        record w { accounts = ports.accounts.update_all w.accounts p revoke },
      )

  unfoldable pub perform : Platform → Action → World ports → Bool × World ports
  perform platform (post_removed post) w = mark_post_removed platform post w
  perform platform (account_revoked user) w = mark_account_revoked platform user w
  perform platform unmapped w = (false, w)

  abbrev pub handle_change :
      Platform → MetaWebhookEntry → MetaWebhookChange → World ports → Bool × World ports
  handle_change platform e c w = perform platform (action_of e c) w

  -- The two loops, with the number that was handled so far.
  unfoldable pub handle_changes :
      Platform → MetaWebhookEntry → List MetaWebhookChange → ℕ × World ports → ℕ × World ports
  handle_changes platform e [] (handled, w) = (handled, w)
  handle_changes platform e (c ∷ cs) (handled, w) =
      let (acted, v) = handle_change platform e c w in
      handle_changes platform e cs ((if acted then handled + 1 else handled), v)

  unfoldable pub handle_entries :
      Platform → List MetaWebhookEntry → ℕ × World ports → ℕ × World ports
  handle_entries platform [] s = s
  handle_entries platform (e ∷ es) s =
      handle_entries platform es (handle_changes platform e (or_empty e.changes) s)

  unfoldable pub handle_meta_event : Platform → MetaWebhookPayload → World ports → ℕ × World ports
  handle_meta_event platform payload w = handle_entries platform (or_empty payload.entry) (0, w)
