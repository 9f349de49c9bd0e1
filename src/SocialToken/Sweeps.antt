-- ===== src/SocialToken/Sweeps.antt =====
-- The sweep over the accounts whose tokens are due.
use socialhub.Prelude.{ℕ, ◌+◌, ◌≡◌, List, [], ◌∷◌, Result, ok, err, arith, length}
use socialhub.Schema.{RowId, Millis}
use socialhub.SocialToken.{
  SocialAccount, TokenPorts, TokenError, tally, sweep_each, refresh_due_accounts, refresh_account,
  is_due_row,
}

module _ (ports : TokenPorts) where
  tally-total :
      (answer : Result TokenError SocialAccount) (counts : ℕ × ℕ)
      → (tally ports answer counts).0 + (tally ports answer counts).1 ≡ counts.0 + counts.1 + 1
  tally-total (ok account) (good, bad) = omega arith
  tally-total (err e) (good, bad) = omega arith

  sweep_each-total :
      (rows : List (RowId × SocialAccount)) (now : Millis) (counts : ℕ × ℕ)
      (s : ports.accounts.State)
      → (sweep_each ports rows now counts s).0.0 + (sweep_each ports rows now counts s).0.1
        ≡ counts.0 + counts.1 + length rows
  unfolding sweep_each
  sweep_each-total [] now counts s = omega arith
  sweep_each-total ((id, account) ∷ rest) now counts s =
      let out = refresh_account ports s now id account in
      omega (
        arith,
        sweep_each-total rest now (tally ports out.0 counts) out.1,
        tally-total out.0 counts,
      )

  -- Every due account is counted once, as refreshed or as needing a reconnection: no failure ends
  -- the sweep.
  pub sweep_counts_all :
      (s : ports.accounts.State) (now : Millis)
      → let sweep = (refresh_due_accounts ports s now).0 in
        sweep.due ≡ sweep.refreshed + sweep.needs_reconnect
  unfolding refresh_due_accounts
  sweep_counts_all s now =
      omega
        (arith, sweep_each-total (ports.accounts.find_many s (is_due_row ports now)) now (0, 0) s)
