-- ===== src/Connect.antt =====
-- backend/src/social-accounts/social-accounts.service.ts: connecting the accounts of the platforms,
-- disconnecting them, and the deletion that a platform asks for.
pub mod Start
pub mod States
pub mod Caps
pub mod Overrun
pub mod Deletion
use socialhub.Prelude.{
  or_option, ℕ, String, Bool, true, false, not, Option, none, some, Result, ok, err, List, [], ◌∷◌,
  ◌==◌, ◌&&◌, ◌||◌, ◌+◌, ◌*◌, ltb, if◌then◌else◌,
}
use text.Mathlib.Text.{◌==◌ as str_eq}
use socialhub.Schema.{RowId, Millis, Platform, platform_eq, PlanTier, SocialAccountStatus}
use socialhub.Database.{Table, update, first}
use socialhub.SocialToken.{SocialAccount, truthy}
use socialhub.Publishing.{PublishJob}
use socialhub.Plans.{PlanError, assert_can_connect_social_account}

-- STATE_MAX_AGE_MS.
abbrev pub state_max_age : Millis
state_max_age = 10 * 60 * 1000

-- OAuthState.
pub record OauthState : Type 0 where
  pub org_id : RowId
  pub issued_at : Millis
  pub code_verifier : Option String

-- What an adapter's `connect` gives.
pub record Connection : Type 0 where
  pub external_account_id : String
  pub external_user_id : Option String
  pub access_token : String
  pub refresh_token : Option String
  pub expires_at : Option Millis

pub record DataDeletionRequest : Type 0 where
  pub platform : Platform
  pub external_user_id : String
  pub confirmation_code : String
  pub status : String

-- What is thrown: 400s, the 402, the 404, the 503 with its label, an error of an adapter or of the
-- configuration with its message, and the database's refusal of a deletion.
pub data ConnectError : Type 0 where
  bad_state state_expired no_verifier : ConnectError
  over_limit : PlanError → ConnectError
  account_not_found : ConnectError
  not_set_up : (label : String) → ConnectError
  adapter_error : (message : String) → ConnectError
  still_referenced : ConnectError

-- The tables, and what the cipher, the language, the adapters and the random source give.
pub record ConnectPorts : Type 1 where
  pub accounts : Table SocialAccount
  pub jobs : Table PublishJob
  pub requests : Table DataDeletionRequest
  pub encrypt : String → String
  pub decrypt : String → Option String
  -- JSON.stringify and JSON.parse of a state
  pub to_json : OauthState → String
  pub of_json : String → Option OauthState
  pub connect : Platform → (code : String) (verifier : Option String) → Result String Connection
  pub authorization_url :
      Platform → (state : String) (challenge : Option String) → Result String String
  -- /does not exist/i.test(message)
  pub names_missing_key : (message : String) → Bool
  -- generatePkcePair: the challenge of a verifier
  pub challenge_of : (verifier : String) → String

pub record World (ports : ConnectPorts) : Type 0 where
  pub accounts : ports.accounts.State
  pub jobs : ports.jobs.State
  pub requests : ports.requests.State
  pub plan_tier : RowId → Option PlanTier

abbrev pub of_org : RowId → SocialAccount → Bool
of_org org_id a = a.org_id == org_id

-- The unique key (orgId, platform, externalAccountId).
abbrev pub of_key : RowId → Platform → String → SocialAccount → Bool
of_key org_id platform external a =
    (a.org_id == org_id)
    && (platform_eq a.platform platform && str_eq a.external_account_id external)

-- `age > STATE_MAX_AGE_MS || age < 0`, with the subtractions moved to the other side.
abbrev pub is_stale : (now issued_at : Millis) → Bool
is_stale now issued_at = ltb (issued_at + state_max_age) now || ltb now issued_at

module _ (ports : ConnectPorts) where
  unfoldable pub encode_state : OauthState → String
  encode_state state = ports.encrypt (ports.to_json state)

  unfoldable pub decoded_state : (now : Millis) → Option OauthState → Result ConnectError OauthState
  decoded_state now none = err bad_state
  decoded_state now (some state) =
      if is_stale now state.issued_at then err state_expired else ok state

  abbrev pub parsed : Option String → Option OauthState
  parsed none = none
  parsed (some json) = ports.of_json json

  unfoldable pub decode_state : (raw_state : String) (now : Millis) → Result ConnectError OauthState
  decode_state raw_state now = decoded_state now (parsed (ports.decrypt raw_state))

  -- `o ? encrypt(o) : null`
  abbrev pub sealed : Option String → Option String
  sealed o = elim o [
    | none ↦ none
    | some t ↦ if truthy (some t) then some (ports.encrypt t) else none
  ]

  -- The columns that a connection writes; an expiry that the platform does not give is left as it is.
  abbrev pub connected_by : Connection → SocialAccount → SocialAccount
  connected_by c a = record a {
    external_user_id = c.external_user_id;
    access_token_enc = ports.encrypt c.access_token;
    refresh_token_enc = sealed c.refresh_token;
    expires_at = or_option c.expires_at a.expires_at;
    status = SocialAccountStatus.connected;
  }

  abbrev pub new_account : RowId → Platform → Connection → SocialAccount
  new_account org_id platform c = record {
    org_id = org_id;
    platform = platform;
    status = SocialAccountStatus.connected;
    external_account_id = c.external_account_id;
    external_user_id = c.external_user_id;
    access_token_enc = ports.encrypt c.access_token;
    refresh_token_enc = sealed c.refresh_token;
    expires_at = c.expires_at;
  }

  abbrev pub find_account : RowId → Platform → String → World ports → Option (RowId × SocialAccount)
  find_account org_id platform external w =
      first (ports.accounts.find_many w.accounts (of_key org_id platform external))

  -- The upsert, from what the unique key names: the account's id, and the table after.
  unfoldable pub stored_account :
      RowId
      → Platform
      → Connection
      → World ports
      → Option (RowId × SocialAccount)
      → RowId × World ports
  stored_account org_id platform c w (some (id, a)) =
      (id, record w { accounts = update ports.accounts w.accounts id (connected_by c) })
  stored_account org_id platform c w none =
      let (id, accounts) = ports.accounts.create w.accounts (new_account org_id platform c) in
      (id, record w { accounts = accounts })

  unfoldable pub as_plan_error : Result PlanError (Unit {0}) → Result ConnectError (Unit {0})
  as_plan_error (ok _) = ok tt
  as_plan_error (err e) = err (over_limit e)

  -- A new connection has to fit the plan; a reconnection always may.
  unfoldable pub check_cap :
      RowId → World ports → Option (RowId × SocialAccount) → Result ConnectError (Unit {0})
  check_cap org_id w (some _) = ok tt
  check_cap org_id w none = as_plan_error (
      assert_can_connect_social_account (w.plan_tier org_id)
        (ports.accounts.count w.accounts (of_org org_id)))

  unfoldable pub stored_checked :
      RowId
      → Platform
      → Connection
      → World ports
      → Option (RowId × SocialAccount)
      → Result ConnectError (Unit {0})
      → Result ConnectError RowId × World ports
  stored_checked org_id platform c w o (err e) = (err e, w)
  stored_checked org_id platform c w o (ok _) =
      let (id, v) = stored_account org_id platform c w o in (ok id, v)

  unfoldable pub upsert_account :
      RowId → Platform → Connection → World ports → Result ConnectError RowId × World ports
  upsert_account org_id platform c w =
      let o = find_account org_id platform c.external_account_id w in
      stored_checked org_id platform c w o (check_cap org_id w o)

  abbrev pub revoke_account : SocialAccount → SocialAccount
  revoke_account a = record a { status = SocialAccountStatus.revoked; refresh_token_enc = none }

  unfoldable pub disconnected :
      (account_id org_id : RowId)
      → World ports
      → Option SocialAccount
      → Result ConnectError (Unit {0}) × World ports
  disconnected account_id org_id w none = (err account_not_found, w)
  disconnected account_id org_id w (some a) =
      if a.org_id == org_id
      then (
        ok tt,
        record w { accounts = update ports.accounts w.accounts account_id revoke_account },
      )
      else (err account_not_found, w)

  unfoldable pub disconnect :
      (account_id org_id : RowId) → World ports → Result ConnectError (Unit {0}) × World ports
  disconnect account_id org_id w =
      disconnected account_id org_id w (ports.accounts.find w.accounts account_id)
