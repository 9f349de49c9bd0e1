-- ===== src/Samples/SignIn/Google.antt =====
-- The sign-in with Google, and the second factor turned on and off, on the sample data.
use socialhub.Prelude.{refl, ◌≡◌, codes, some, ok, err, [], ◌∷◌, List, Text}
use socialhub.Database.Rows.{rows}
use socialhub.Database.Slots.{find, find_many, stored}
use socialhub.RateLimit.{all_up}
use socialhub.Auth.{AuthResponse, UserToken, google_login_handoff, World, suspended, org_suspended}
use socialhub.Auth.IdToken.{Identity}
use socialhub.Auth.Login.{log_in_user}
use socialhub.Auth.Account.{new_link}
use socialhub.Auth.Google.{resolve_user, exchange_ticket, handoff_ttl, read_ticket}
use socialhub.Auth.Google.Accounts.{Resolves, resolve_user-Resolves}
use socialhub.Auth.Google.Tickets.{exchange_ticket_leaks}
use socialhub.Auth.Enrolment.{disable}
use socialhub.Auth.Enrolment.Outcomes.{Disabled, disable-Disabled}
use socialhub.Samples.SignIn.{auth_ports, world, ada}

-- Ada's Google account.
abbrev ada_identity : Identity
ada_identity = record { sub = "google-1"; email = "ada" }

resolve_user-Resolves_example :
    Resolves auth_ports ada_identity 1000 world (resolve_user auth_ports ada_identity 1000 world)
resolve_user-Resolves_example = resolve_user-Resolves auth_ports ada_identity 1000 world

abbrev ticket : UserToken
ticket = new_link auth_ports 0 google_login_handoff handoff_ttl "ticket" 1000

-- Ada's organization is suspended, and Ada has a ticket.
unfoldable closed : World auth_ports
unfolding world rows
closed = record world {
  organizations =
      stored (record { name = "ada"; status = suspended; suspended_at = some 500 } ∷ []);
  user_tokens = stored (ticket ∷ []);
}

exchange_ticket_leaks_example :
    ((log_in_user auth_ports all_up "ada" "secret" "10.0.0.1" "raw" 1001 closed (some (0, ada))).0
      ≡ err org_suspended)
    × ((a : AuthResponse) × ((exchange_ticket auth_ports "ticket" "raw" 1001 closed).0 ≡ ok a))
unfolding closed world rows find find_many read_ticket
exchange_ticket_leaks_example =
    exchange_ticket_leaks auth_ports all_up 0 ticket ada "ada" "secret" "10.0.0.1" "ticket" "raw"
      1001 closed refl refl refl refl

abbrev new_codes : List Text
new_codes = codes "aaaaabbbbb" ∷ codes "cccccddddd" ∷ []

-- Ada has a secret, and types a password of it.
unfoldable enrolling : World auth_ports
unfolding world rows
enrolling = record world { users = stored (record ada { mfa_secret_enc = some "sealed" } ∷ []) }

disable-Disabled_example :
    Disabled auth_ports 1
      (codes "aaaaa-bbbbb")
      1000
      world
      (disable auth_ports 1 (codes "aaaaa-bbbbb") 1000 world)
disable-Disabled_example = disable-Disabled auth_ports 1 (codes "aaaaa-bbbbb") 1000 world
