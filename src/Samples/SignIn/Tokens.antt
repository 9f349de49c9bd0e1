-- ===== src/Samples/SignIn/Tokens.antt =====
-- Sessions and links on the sample data.
use socialhub.Auth.Resets.{reset_password-Excludes}
use socialhub.Auth.Links.{Spent}
use socialhub.Auth.Renewal.{issue_token-consume_token}
use socialhub.Auth.Account.{
  consume_found, consume_token, find_token, consumed, issue_token, reset_password, reset,
}
use socialhub.Auth.{RefreshToken, UserToken, password_reset, invalid_refresh_token}
use socialhub.Auth.Replay.{refresh-Excludes, Excludes}
use socialhub.Auth.Session.{refresh, refreshed, read_token, rotated, issued, issue_token_pair}
use socialhub.Database.Rows.{rows}
use socialhub.Database.Slots.{find, find_many, update_many, update_all}
use mathlib.Core.Option.{some-injective}
use text.Mathlib.Text.{◌==◌ as str_eq}
use socialhub.Schema.{RowId}
use socialhub.Prelude.{
  refl, ◌≡◌, some, false, none, err, Option, sym, Bool-cases, ◌∙◌, ok, subst, ◌==◌, inl, arith,
  ==_iff, inr,
}
use socialhub.Samples.SignIn.{auth_ports, world, ada, token, reset_link}

no_token : (t : RefreshToken) → ¬ (◌≡◌ {A = Option RefreshToken} none (some t))
no_token t h = cc

no_link : (t : UserToken) → ¬ (◌≡◌ {A = Option UserToken} none (some t))
no_link t h = cc

only_token :
    (k : RowId) (t : RefreshToken)
    → auth_ports.refresh_tokens.find world.refresh_tokens k ≡ some t
    → (0 ≡ k) × (token ≡ t)
unfolding world rows find
only_token k t h = elim (Bool-cases (0 == k)) [
  | inl e ↦ ((==_iff 0 k).0 e, some-injective token t (rw e at h))
  | inr e ↦ absurd (no_token t (rw e at h))
]

refresh-Excludes_example :
    ((refresh auth_ports "first" "third" 2000 (refresh auth_ports "first" "second" 1000 world).1).0
      ≡ err invalid_refresh_token)
    × Excludes auth_ports 0
        (refresh auth_ports "second" "fourth" 3000
          (refresh auth_ports "first" "third" 2000
            (refresh auth_ports "first" "second" 1000 world).1).1).0
unfolding world rows find refresh read_token refreshed rotated issued issue_token_pair find_many
refresh-Excludes_example =
    refresh-Excludes auth_ports world "first" "second" 1000
      (issue_token_pair auth_ports 0 ada "second" 1000 world).0 "third" 2000 "second" "fourth" 3000
      (λ j k a b h g e. sym (only_token j a h).0 ∙ (only_token k b g).0)
      (λ k t h.
        subst (λ (x : RefreshToken). str_eq x.token_hash "second" ≡ false) (only_token k t h).1
          refl)
      refl

pub only_link :
    (k : RowId) (t : UserToken)
    → auth_ports.user_tokens.find world.user_tokens k ≡ some t
    → reset_link ≡ t
unfolding world rows find
only_link k t h = elim (Bool-cases (0 == k)) [
  | inl e ↦ some-injective reset_link t (rw e at h)
  | inr e ↦ absurd (no_link t (rw e at h))
]

issue_token-consume_token_example :
    (t : UserToken) × (t.user_id ≡ 0)
    × ((consume_token auth_ports "newer" password_reset 2000
          (issue_token auth_ports 0 password_reset 3600000 "newer" 1000 world)).0
        ≡ ok t)
issue_token-consume_token_example =
    issue_token-consume_token auth_ports 0 password_reset 3600000 1000 2000 "newer" world
      (λ k t h.
        subst (λ (x : UserToken). str_eq x.token_hash "newer" ≡ false) (only_link k t h) refl)
      refl (omega arith)

reset_password-Excludes_example :
    Spent auth_ports (reset_password auth_ports "link" "salt" "better" 1000 world).1.user_tokens 0
    × (auth_ports.users.find (reset_password auth_ports "link" "salt" "better" 1000 world).1.users 0
        ≡ some (record ada { password_hash = some "better"; email_verified_at = some 1000 }))
    × Excludes auth_ports 0
        (refresh auth_ports "first" "second" 2000
          (reset_password auth_ports "link" "salt" "better" 1000 world).1).0
unfolding world rows find find_many update_many update_all find_token reset_password reset
    consume_token consume_found consumed
reset_password-Excludes_example =
    reset_password-Excludes auth_ports "link" "salt" "better" 1000 world 0 reset_link ada "first"
      "second" 2000 refl refl refl
