-- ===== src/SocialToken/Readable.antt =====
-- Which stored tokens the cipher can read, and that the token service then throws nothing unforeseen.
use socialhub.Prelude.{
  ◌≡◌, refl, Bool, true, false, Option, none, some, Result, ok, err, ◌≢◌, arith, String, Bool-cases,
  inl, inr,
}
use socialhub.Schema.{RowId, Millis}
use socialhub.Database.{always}
use socialhub.Database.Every.{Every, update_many-Every}
use socialhub.SocialToken.Status.{has_adapter_all}
use socialhub.SocialToken.{
  SocialAccount, TokenPorts, TokenError, RefreshedTokens, other, refresh_account, settle_found,
  store_refreshed, refresh_with, token_for_refresh, use_refreshed, decrypted,
  ensure_fresh_access_token, needs_reconnect, is_due_for_refresh,
}

module _ (ports : TokenPorts) where
  -- Whether the cipher reads a text.
  abbrev pub opens : String → Bool
  opens enc = elim (ports.decrypt enc) [ none ↦ false | some _ ↦ true ]

  -- The access token can be read, and so can the token that a refresh would use.
  pub record IsReadable (account : SocialAccount) : Type 0 where
    pub access : opens account.access_token_enc ≡ true
    pub for_refresh : opens (token_for_refresh account) ≡ true

  -- What is encrypted can be read again.
  abbrev pub IsCipher : Type 0
  IsCipher = (text : String) → ports.decrypt (ports.encrypt text) ≡ some text

  module _ (cipher : IsCipher) where
    opens-encrypt : (text : String) → opens (ports.encrypt text) ≡ true
    opens-encrypt text = rw (opens, cipher text) refl

    store_refreshed-IsReadable :
        (account : SocialAccount) (refreshed : RefreshedTokens) (row : SocialAccount)
        → IsReadable account
        → IsReadable (store_refreshed ports account refreshed row)
    unfolding store_refreshed token_for_refresh
    store_refreshed-IsReadable account refreshed row h = record {
      access = opens-encrypt refreshed.access_token;
      for_refresh = grind (arith, opens-encrypt, h.for_refresh);
    }

    module _ (s : ports.accounts.State) (now : Millis) (id : RowId) (account : SocialAccount)
        (h : Every ports.accounts s IsReadable) (readable : IsReadable account) where
      settle_found-IsReadable :
          (answer : Result String RefreshedTokens) (found : Option SocialAccount)
          → Every ports.accounts (settle_found ports s now id account answer found).1 IsReadable
      unfolding settle_found token_for_refresh
      settle_found-IsReadable answer none = h
      settle_found-IsReadable (ok refreshed) (some row) =
          update_many-Every ports.accounts s id always _ IsReadable
            (λ r q. store_refreshed-IsReadable account refreshed r readable) h
      settle_found-IsReadable (err message) (some row) =
          update_many-Every ports.accounts s id always _ IsReadable
            (λ r q. record { access = q.access; for_refresh = q.for_refresh }) h

      refresh_account-IsReadable :
          Every ports.accounts (refresh_account ports s now id account).1 IsReadable
      unfolding refresh_account refresh_with
      refresh_account-IsReadable =
          rw (has_adapter_all account.platform)
            (with_token (ports.decrypt (token_for_refresh account)))
        where
          with_token :
              (token : Option String)
              → Every ports.accounts (refresh_with ports s now id account token).1 IsReadable
          with_token none = h
          with_token (some token) = settle_found-IsReadable _ _

      use_refreshed_table :
          (answer : Result TokenError SocialAccount × ports.accounts.State)
          → (use_refreshed ports answer).1 ≡ answer.1
      unfolding use_refreshed
      use_refreshed_table (ok account, t) = refl
      use_refreshed_table (err e, t) = refl

      -- The token service leaves every stored token readable.
      pub ensure_fresh-IsReadable :
          Every ports.accounts (ensure_fresh_access_token ports s now id account).1 IsReadable
      unfolding ensure_fresh_access_token
      ensure_fresh-IsReadable = elim (Bool-cases (needs_reconnect account.status)) [
        | inl e ↦ rw e h
        | inr e ↦ elim (Bool-cases (is_due_for_refresh account now)) [
          | inl d ↦ rw (e, d, use_refreshed_table) refresh_account-IsReadable
          | inr d ↦ rw (e, d) h
        ]
      ]

      -- And it throws nothing but TokenReconnectRequiredError for an account that is stored.
      module _ (stored : ports.accounts.find s id ≡ some account) where
        decrypted-opens : (enc : String) → opens enc ≡ true → decrypted ports enc ≢ err other
        unfolding decrypted
        decrypted-opens enc o e = ground (arith, o)

        settled_use :
            (answer : Result String RefreshedTokens)
            → (use_refreshed ports (settle_found ports s now id account answer (some account))).0
              ≢ err other
        unfolding settle_found use_refreshed store_refreshed
        settled_use (ok refreshed) e = decrypted-opens _ (opens-encrypt refreshed.access_token) e
        settled_use (err message) e = ground arith

        refreshed_use : (use_refreshed ports (refresh_account ports s now id account)).0 ≢ err other
        unfolding refresh_account refresh_with
        refreshed_use =
            rw (has_adapter_all account.platform)
              (with_token (ports.decrypt (token_for_refresh account)) refl)
          where
            with_token :
                (token : Option String)
                → ports.decrypt (token_for_refresh account) ≡ token
                → (use_refreshed ports (refresh_with ports s now id account token)).0 ≢ err other
            with_token none e = absurd (ground (arith, readable.for_refresh, e))
            with_token (some token) e = rw stored (settled_use _)

        pub ensure_fresh_steady : (ensure_fresh_access_token ports s now id account).0 ≢ err other
        unfolding ensure_fresh_access_token
        ensure_fresh_steady = elim (Bool-cases (needs_reconnect account.status)) [
          | inl e ↦ rw e (λ q. ground arith)
          | inr e ↦ elim (Bool-cases (is_due_for_refresh account now)) [
            | inl d ↦ rw (e, d) refreshed_use
            | inr d ↦ rw (e, d) (decrypted-opens _ readable.access)
          ]
        ]
