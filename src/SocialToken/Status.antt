-- ===== src/SocialToken/Status.antt =====
-- What a refresh answers against the row that it leaves.
use socialhub.Prelude.{◌≡◌, refl, Option, none, some, Result, ok, err, arith, true, false, String}
use socialhub.Schema.{RowId, Millis, SocialAccountStatus, is_connected, Platform}
use socialhub.Database.{find-update_self}
use socialhub.SocialToken.{
  SocialAccount, TokenPorts, TokenError, RefreshedTokens, reconnect_required, other,
  refresh_account, settle_found, status_for_failure, store_refreshed, refresh_with, has_adapter,
}

-- The answer of a refresh against the row that it leaves.
abbrev pub Agrees :
    (ports : TokenPorts)
    → RowId
    → ports.accounts.State
    → Result TokenError SocialAccount × ports.accounts.State
    → Type 0
Agrees ports id before (ok account, after) =
    (ports.accounts.find after id ≡ some account) × (account.status ≡ SocialAccountStatus.connected)
Agrees ports id before (err (reconnect_required platform status), after) =
    (row : SocialAccount) × (ports.accounts.find after id ≡ some row)
    × (row.status ≡ status)
    × (is_connected status ≡ false)
Agrees ports id before (err other, after) = after ≡ before

pub has_adapter_all : (p : Platform) → has_adapter p ≡ true
unfolding has_adapter
has_adapter_all Platform.instagram = refl
has_adapter_all Platform.x = refl
has_adapter_all Platform.facebook = refl
has_adapter_all Platform.threads = refl
has_adapter_all Platform.linkedin = refl

module _ (ports : TokenPorts) (s : ports.accounts.State) (now : Millis) (id : RowId)
    (account : SocialAccount) where
  failure-unconnected :
      (message : String) → is_connected (status_for_failure ports account now message) ≡ false
  unfolding status_for_failure
  failure-unconnected message = ground arith

  settle_refresh-Agrees :
      (found : Option SocialAccount) (answer : Result String RefreshedTokens)
      → ports.accounts.find s id ≡ found
      → Agrees ports id s (settle_found ports s now id account answer found)
  unfolding settle_found store_refreshed
  settle_refresh-Agrees none answer e = refl
  settle_refresh-Agrees (some row) (ok refreshed) e =
      (find-update_self ports.accounts s id _ row e, refl)
  settle_refresh-Agrees (some row) (err message) e =
      (_, find-update_self ports.accounts s id _ row e, refl, failure-unconnected message)

  refresh_with-Agrees :
      (token : Option String) → Agrees ports id s (refresh_with ports s now id account token)
  unfolding refresh_with
  refresh_with-Agrees none = refl
  refresh_with-Agrees (some token) = settle_refresh-Agrees _ _ refl

  -- A refresh, on every branch: if it succeeds, it returns the stored row, whose status is
  -- `connected`; if it asks for a reconnection, the stored row has the status that the error
  -- names, which is not `connected`; if it fails otherwise, nothing is written.
  pub refresh_account-Agrees : Agrees ports id s (refresh_account ports s now id account)
  unfolding refresh_account
  refresh_account-Agrees = rw has_adapter_all (refresh_with-Agrees _)
