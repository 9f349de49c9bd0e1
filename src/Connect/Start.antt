-- ===== src/Connect/Start.antt =====
-- backend/src/social-accounts/social-accounts.service.ts: the authorization URL of each platform, and
-- the callback that it leads to.
use socialhub.Prelude.{String, none, some, Result, ok, err, if◌then◌else◌}
use socialhub.Schema.{RowId, Millis, Platform}
use socialhub.Connect.{
  ConnectPorts, ConnectError, OauthState, Connection, World, not_set_up, adapter_error, no_verifier,
  encode_state, decode_state, upsert_account, truthy,
}

module _ (ports : ConnectPorts) where
  -- A missing credential is told apart by its message.
  unfoldable pub build_authorization_url :
      (label : String) → Result String String → Result ConnectError String
  build_authorization_url label (ok url) = ok url
  build_authorization_url label (err message) =
      if ports.names_missing_key message
      then err (not_set_up label)
      else err (adapter_error message)

  abbrev pub plain_url :
      Platform → (label : String) → (org_id : RowId) (now : Millis) → Result ConnectError String
  plain_url platform label org_id now = build_authorization_url label (
      ports.authorization_url platform
        (encode_state ports (record { org_id = org_id; issued_at = now; code_verifier = none }))
        none)

  abbrev pub build_instagram_authorization_url :
      (org_id : RowId) (now : Millis) → Result ConnectError String
  build_instagram_authorization_url = plain_url Platform.instagram "Instagram"

  abbrev pub build_facebook_authorization_url :
      (org_id : RowId) (now : Millis) → Result ConnectError String
  build_facebook_authorization_url = plain_url Platform.facebook "Facebook"

  abbrev pub build_threads_authorization_url :
      (org_id : RowId) (now : Millis) → Result ConnectError String
  build_threads_authorization_url = plain_url Platform.threads "Threads"

  abbrev pub build_linkedin_authorization_url :
      (org_id : RowId) (now : Millis) → Result ConnectError String
  build_linkedin_authorization_url = plain_url Platform.linkedin "LinkedIn"

  -- `verifier` is random.
  unfoldable pub build_x_authorization_url :
      (org_id : RowId) (verifier : String) (now : Millis) → Result ConnectError String
  build_x_authorization_url org_id verifier now = build_authorization_url "X" (
      ports.authorization_url Platform.x
        (encode_state ports
          (record { org_id = org_id; issued_at = now; code_verifier = some verifier }))
        (some (ports.challenge_of verifier)))

  unfoldable pub upserted :
      Platform
      → (org_id : RowId) → World ports
      → Result String Connection
      → Result ConnectError RowId × World ports
  upserted platform org_id w (err message) = (err (adapter_error message), w)
  upserted platform org_id w (ok c) = upsert_account ports org_id platform c w

  unfoldable pub called_back :
      Platform
      → (code : String) → World ports
      → Result ConnectError OauthState
      → Result ConnectError RowId × World ports
  called_back platform code w (err e) = (err e, w)
  called_back platform code w (ok state) =
      upserted platform state.org_id w (ports.connect platform code none)

  unfoldable pub handle_callback :
      Platform
      → (code raw_state : String) (now : Millis) → World ports
      → Result ConnectError RowId × World ports
  handle_callback platform code raw_state now w =
      called_back platform code w (decode_state ports raw_state now)

  abbrev pub handle_instagram_callback :
      (code raw_state : String) (now : Millis)
      → World ports
      → Result ConnectError RowId × World ports
  handle_instagram_callback = handle_callback Platform.instagram

  abbrev pub handle_facebook_callback :
      (code raw_state : String) (now : Millis)
      → World ports
      → Result ConnectError RowId × World ports
  handle_facebook_callback = handle_callback Platform.facebook

  abbrev pub handle_threads_callback :
      (code raw_state : String) (now : Millis)
      → World ports
      → Result ConnectError RowId × World ports
  handle_threads_callback = handle_callback Platform.threads

  abbrev pub handle_linkedin_callback :
      (code raw_state : String) (now : Millis)
      → World ports
      → Result ConnectError RowId × World ports
  handle_linkedin_callback = handle_callback Platform.linkedin

  unfoldable pub called_back_x :
      (code : String)
      → World ports
      → Result ConnectError OauthState
      → Result ConnectError RowId × World ports
  called_back_x code w (err e) = (err e, w)
  called_back_x code w (ok state) =
      if truthy state.code_verifier
      then upserted Platform.x state.org_id w (ports.connect Platform.x code state.code_verifier)
      else (err no_verifier, w)

  unfoldable pub handle_x_callback :
      (code raw_state : String) (now : Millis)
      → World ports
      → Result ConnectError RowId × World ports
  handle_x_callback code raw_state now w = called_back_x code w (decode_state ports raw_state now)
