-- ===== src/Auth/Google.antt =====
-- backend/src/auth/google-auth.service.ts: the sign-in with Google, from the callback to the
-- session.
pub mod Accounts
pub mod Tickets
use socialhub.Prelude.{
  Bool, Option, String, Result, ◌*◌, List, none, ℕ, some, false, ◌&&◌, err, ok, if◌then◌else◌, true,
  ◌||◌, not, ltb, ◌==◌,
}
use Prim.Native.String.{◌++◌ as str_append}
use socialhub.Auth.IdToken.{
  GooglePorts, GoogleError, Identity, truthy, is_text, linked_elsewhere, ticket_refused,
  not_configured, enabled, verify_state, exchange_code_for_claims,
}
use socialhub.Prelude.{
  String, Bool, true, false, not, Option, none, some, Result, ok, err, ◌&&◌, ◌*◌, ltb,
  if◌then◌else◌,
}
use text.Mathlib.Text.{◌==◌ as str_eq}
use socialhub.Schema.{RowId, Millis, UserRole}
use socialhub.Database.{update, first}
use socialhub.Auth.{
  AuthPorts, AuthUser, AuthResponse, World, UserToken, UserTokenType, google_login_handoff, type_eq,
  token_of_hash, user_of_email, active,
}
use socialhub.Auth.Session.{issue_token_pair}
use socialhub.Auth.Account.{is_open, consumed_by, new_link}

-- HANDOFF_TTL_MS.
abbrev pub handoff_ttl : Millis
handoff_ttl = 2 * 60 * 1000

module _ (ports : AuthPorts) where
  -- findUnique({ where: { googleId } })
  abbrev pub of_google : (sub : String) → AuthUser → Bool
  of_google sub u = is_text sub u.google_id

  -- emailVerifiedAt ?? new Date()
  abbrev pub link_google : (sub : String) (now : Millis) → AuthUser → AuthUser
  link_google sub now u = record u {
    google_id = some sub;
    email_verified_at = some (elim u.email_verified_at [ none ↦ now | some at ↦ at ]);
  }

  abbrev pub google_owner : Identity → (org_id : RowId) (now : Millis) → AuthUser
  google_owner i org_id now = record {
    email = i.email;
    password_hash = none;
    role = UserRole.owner;
    org_id = org_id;
    mfa_enabled = false;
    mfa_secret_enc = none;
    email_verified_at = some now;
    google_id = some i.sub;
  }

  -- The organization and its owner, in one transaction.
  unfoldable pub create_google_owner : Identity → (now : Millis) → World ports → RowId × World ports
  create_google_owner i now w =
      let (org_id, organizations) =
        ports.organizations.create w.organizations (record {
          name = ports.default_org_name i.email;
          status = active;
          suspended_at = none;
        }) in
      let (id, users) = ports.users.create w.users (google_owner i org_id now) in
      (id, record w { organizations = organizations; users = users })

  unfoldable pub link_email :
      Identity
      → (now : Millis) → World ports
      → RowId
      → Option String
      → Result GoogleError RowId × World ports
  link_email i now w id none =
      (ok id, record w { users = update ports.users w.users id (link_google i.sub now) })
  link_email i now w id (some other) =
      if str_eq other i.sub then (ok id, w) else (err linked_elsewhere, w)

  unfoldable pub created_google : RowId × World ports → Result GoogleError RowId × World ports
  created_google (id, w) = (ok id, w)

  unfoldable pub resolve_email :
      Identity
      → (now : Millis) → World ports
      → Option (RowId × AuthUser)
      → Result GoogleError RowId × World ports
  resolve_email i now w (some (id, u)) = link_email i now w id (truthy u.google_id)
  resolve_email i now w none = created_google (create_google_owner i now w)

  unfoldable pub resolve_google :
      Identity
      → (now : Millis) → World ports
      → Option (RowId × AuthUser)
      → Result GoogleError RowId × World ports
  resolve_google i now w (some (id, u)) = (ok id, w)
  resolve_google i now w none =
      resolve_email i now w (first (ports.users.find_many w.users (user_of_email i.email)))

  unfoldable pub resolve_user :
      Identity → (now : Millis) → World ports → Result GoogleError RowId × World ports
  resolve_user i now w =
      resolve_google i now w (first (ports.users.find_many w.users (of_google i.sub)))

  unfoldable pub mint_handoff_ticket :
      (user_id : RowId) (raw : String) (now : Millis) → World ports → World ports
  mint_handoff_ticket user_id raw now w = record w {
    user_tokens =
        (ports.user_tokens.create w.user_tokens
          (new_link ports user_id google_login_handoff handoff_ttl raw now)).1;
  }

  -- A ticket as it is read, with its user.
  abbrev pub Ticket : Type 0
  Ticket = Option (RowId × UserToken × Option AuthUser)

  abbrev pub ticket_user : World ports → Option (RowId × UserToken) → Ticket
  ticket_user w none = none
  ticket_user w (some (id, t)) = some (id, t, ports.users.find w.users t.user_id)

  unfoldable pub read_ticket : (raw_ticket : String) → World ports → Ticket
  read_ticket raw_ticket w = ticket_user w (
      first
        (ports.user_tokens.find_many w.user_tokens (token_of_hash (ports.hash_token raw_ticket))))

  abbrev pub ticket_ok : (now : Millis) → UserToken → Bool
  ticket_ok now t =
      type_eq t.token_type google_login_handoff && (is_open t && not (ltb t.expires_at now))

  unfoldable pub signed_in :
      AuthResponse × World ports → Result GoogleError AuthResponse × World ports
  signed_in (a, w) = (ok a, w)

  -- issueSession of auth.service.ts is issueTokenPair.
  unfoldable pub exchanged_ticket :
      Ticket
      → (raw : String) (now : Millis) → World ports
      → Result GoogleError AuthResponse × World ports
  exchanged_ticket none raw now w = (err ticket_refused, w)
  exchanged_ticket (some (id, t, none)) raw now w = (err ticket_refused, w)
  exchanged_ticket (some (id, t, some u)) raw now w =
      if ticket_ok now t
      then signed_in (
          issue_token_pair ports t.user_id u raw now (record w {
            user_tokens = update ports.user_tokens w.user_tokens id (consumed_by now);
          }))
      else (err ticket_refused, w)

  unfoldable pub exchange_ticket :
      (raw_ticket : String) (raw : String) (now : Millis)
      → World ports
      → Result GoogleError AuthResponse × World ports
  exchange_ticket raw_ticket raw now w = exchanged_ticket (read_ticket raw_ticket w) raw now w

  module _ (google : GooglePorts) where
    unfoldable pub ticketed :
        (raw : String) (now : Millis)
        → Result GoogleError RowId × World ports
        → Result GoogleError String × World ports
    ticketed raw now (err e, w) = (err e, w)
    ticketed raw now (ok user_id, w) = (
      ok (
          str_append google.frontend_url
            (str_append "/#/auth/google?ticket=" (google.encode_uri raw))),
      mint_handoff_ticket user_id raw now w,
    )

    unfoldable pub called_back :
        (raw : String) (now : Millis)
        → World ports
        → Result GoogleError Identity
        → Result GoogleError String × World ports
    called_back raw now w (err e) = (err e, w)
    called_back raw now w (ok i) = ticketed raw now (resolve_user i now w)

    unfoldable pub after_state :
        (code raw : String) (now : Millis)
        → World ports
        → Result GoogleError (Unit {0})
        → Result GoogleError String × World ports
    after_state code raw now w (err e) = (err e, w)
    after_state code raw now w (ok _) =
        called_back raw now w (exchange_code_for_claims google code now)

    -- `raw` is the random value of the ticket.
    unfoldable pub handle_callback :
        (code state raw : String) (now : Millis)
        → World ports
        → Result GoogleError String × World ports
    handle_callback code state raw now w =
        if enabled google
        then after_state code raw now w (verify_state google state now)
        else (err not_configured, w)
