-- ===== src/SocialToken.antt =====
-- backend/src/social-accounts/social-token.service.ts: access tokens are refreshed before they
-- expire, and an account whose token cannot be refreshed is marked for reconnection.
pub mod Status
pub mod Readable
pub mod Sweeps
use socialhub.Prelude.{
  ℕ, ◌+◌, ◌*◌, String, ◌≡◌, Bool, true, false, not, Option, none, some, List, [], ◌∷◌, leb,
  if◌then◌else◌, Result, ok, err, or_option, length,
}
use text.Mathlib.Text.{◌==◌ as str_eq}
use socialhub.Schema.{RowId, Millis, Platform, SocialAccountStatus, is_connected}
use socialhub.Database.{Table, update}

-- TOKEN_REFRESH_THRESHOLD_MS: 24 hours.
abbrev pub token_refresh_threshold : Millis
token_refresh_threshold = 24 * 60 * 60 * 1000

pub record SocialAccount : Type 0 where
  pub org_id : RowId
  pub platform : Platform
  pub status : SocialAccountStatus
  pub external_account_id : String
  pub external_user_id : Option String
  pub access_token_enc : String
  pub refresh_token_enc : Option String
  pub expires_at : Option Millis

pub record RefreshedTokens : Type 0 where
  pub access_token : String
  pub refresh_token : Option String
  pub expires_at : Option Millis

-- TokenReconnectRequiredError, or any other error.
pub data TokenError : Type 0 where
  reconnect_required : Platform → SocialAccountStatus → TokenError
  other : TokenError

-- What the service is built on: the account table, the token cipher (`none` where it throws), the
-- platforms' refresh calls, and the pattern on error messages that means a rejected grant.
pub record TokenPorts : Type 1 where
  pub accounts : Table SocialAccount
  pub encrypt : String → String
  pub decrypt : String → Option String
  pub refresh : Platform → String → Result String RefreshedTokens
  pub means_revoked : String → Bool

-- `o ? … : …` on a string that may be missing: an empty one counts as missing.
abbrev pub truthy : Option String → Bool
truthy none = false
truthy (some s) = not (str_eq s "")

-- The constructor's `adapters`: every platform has one.
unfoldable pub has_adapter : Platform → Bool
has_adapter Platform.instagram = true
has_adapter Platform.x = true
has_adapter Platform.facebook = true
has_adapter Platform.threads = true
has_adapter Platform.linkedin = true

unfoldable pub needs_reconnect : SocialAccountStatus → Bool
needs_reconnect status = not (is_connected status)

-- `expiresAt - now <= threshold`, with the subtraction moved to the other side.
unfoldable pub is_due_for_refresh : SocialAccount → Millis → Bool
is_due_for_refresh account now = elim account.expires_at [
  | none ↦ false
  | some at ↦ leb at (now + token_refresh_threshold)
]

-- The stored refresh token if there is one, else the access token.
unfoldable pub token_for_refresh : SocialAccount → String
token_for_refresh account = elim account.refresh_token_enc [
  | none ↦ account.access_token_enc
  | some enc ↦ if truthy (some enc) then enc else account.access_token_enc
]

module _ (ports : TokenPorts) where
  open ports use {accounts, encrypt, decrypt, refresh, means_revoked}

  unfoldable pub status_for_failure : SocialAccount → Millis → String → SocialAccountStatus
  status_for_failure account now message =
      if means_revoked message then SocialAccountStatus.revoked else elim account.expires_at [
        | none ↦ SocialAccountStatus.error
        | some at ↦ if leb at now then SocialAccountStatus.expired else SocialAccountStatus.error
      ]

  -- The columns that a successful refresh writes; `account` is the row that the caller had read.
  unfoldable pub store_refreshed : SocialAccount → RefreshedTokens → SocialAccount → SocialAccount
  store_refreshed account refreshed row = record row {
    access_token_enc = encrypt refreshed.access_token;
    refresh_token_enc = elim refreshed.refresh_token [
      | none ↦ account.refresh_token_enc
      | some token ↦ if truthy (some token) then some (encrypt token) else account.refresh_token_enc
    ];
    expires_at = or_option refreshed.expires_at account.expires_at;
    status = SocialAccountStatus.connected;
  }

  -- After the platform has answered, with the row as it is then. Both writes throw where it is gone.
  unfoldable pub settle_found :
      accounts.State
      → Millis
      → RowId
      → SocialAccount
      → Result String RefreshedTokens
      → Option SocialAccount
      → Result TokenError SocialAccount × accounts.State
  settle_found s now id account answer none = (err other, s)
  settle_found s now id account (ok refreshed) (some row) = (
    ok (store_refreshed account refreshed row),
    update accounts s id (store_refreshed account refreshed),
  )
  settle_found s now id account (err message) (some row) =
      let status = status_for_failure account now message in
      (
        err (reconnect_required account.platform status),
        update accounts s id (λ r. record r { status = status }),
      )

  -- The token that is refreshed is decrypted before the `try`.
  unfoldable pub refresh_with :
      accounts.State
      → Millis
      → RowId
      → SocialAccount
      → Option String
      → Result TokenError SocialAccount × accounts.State
  refresh_with s now id account none = (err other, s)
  refresh_with s now id account (some token) =
      settle_found s now id account (refresh account.platform token) (accounts.find s id)

  unfoldable pub refresh_account :
      accounts.State
      → Millis
      → RowId
      → SocialAccount
      → Result TokenError SocialAccount × accounts.State
  refresh_account s now id account =
      if has_adapter account.platform
      then refresh_with s now id account (decrypt (token_for_refresh account))
      else (err (reconnect_required account.platform SocialAccountStatus.error), s)

  -- `decrypt` may throw.
  unfoldable pub decrypted : String → Result TokenError String
  decrypted enc = elim (decrypt enc) [ none ↦ err other | some token ↦ ok token ]

  unfoldable pub use_refreshed :
      Result TokenError SocialAccount × accounts.State → Result TokenError String × accounts.State
  unfolding decrypted
  use_refreshed (ok refreshed, s) = (decrypted refreshed.access_token_enc, s)
  use_refreshed (err e, s) = (err e, s)

  unfoldable pub ensure_fresh_access_token :
      accounts.State → Millis → RowId → SocialAccount → Result TokenError String × accounts.State
  unfolding needs_reconnect is_due_for_refresh use_refreshed decrypted
  ensure_fresh_access_token s now id account =
      if needs_reconnect account.status
      then (err (reconnect_required account.platform account.status), s)
      else if is_due_for_refresh account now
      then use_refreshed (refresh_account s now id account)
      else (decrypted account.access_token_enc, s)

  pub record Sweep : Type 0 where
    pub due : ℕ
    pub refreshed : ℕ
    pub needs_reconnect : ℕ

  -- The counters after one account: every error is caught.
  abbrev pub tally : Result TokenError SocialAccount → ℕ × ℕ → ℕ × ℕ
  tally (ok _) (good, bad) = (good + 1, bad)
  tally (err _) (good, bad) = (good, bad + 1)

  -- The loop of the sweep over the rows that were read.
  unfoldable pub sweep_each :
      List (RowId × SocialAccount) → Millis → ℕ × ℕ → accounts.State → (ℕ × ℕ) × accounts.State
  sweep_each [] now counts s = (counts, s)
  sweep_each ((id, account) ∷ rest) now counts s =
      let (answer, s') = refresh_account s now id account in
      sweep_each rest now (tally answer counts) s'

  abbrev pub is_due_row : Millis → SocialAccount → Bool
  unfolding is_due_for_refresh
  is_due_row now account =
      if is_connected account.status then is_due_for_refresh account now else false

  unfoldable pub refresh_due_accounts : accounts.State → Millis → Sweep × accounts.State
  unfolding sweep_each
  refresh_due_accounts s now =
      let due = accounts.find_many s (is_due_row now) in
      let (counts, s') = sweep_each due now (0, 0) s in
      (record { due = length due; refreshed = counts.0; needs_reconnect = counts.1 }, s')
