-- ===== src/Auth/Google/Tickets.antt =====
-- What a handoff ticket is exchanged for.
use socialhub.Prelude.{
  ◌≡◌, refl, sym, true, Option, none, some, ok, err, inl, inr, Bool-cases, String, subst, ◌≤◌, ◌+◌,
  arith, ◌∙◌,
}
use text.Mathlib.TextPositions.{eq_refl}
use mathlib.Core.Option.{some-injective}
use socialhub.Schema.{RowId, Millis}
use socialhub.RateLimit.{Net}
use socialhub.Database.{update, find-update_self, first-create}
use socialhub.Auth.{
  type_eq, AuthPorts, AuthUser, AuthResponse, World, UserToken, token_of_hash, google_login_handoff,
  org_suspended, is_suspended,
}
use socialhub.Auth.Session.{issue_token_pair}
use socialhub.Auth.Login.{log_in_user, log_in_active, assert_org_active, status_of, password_ok}
use socialhub.Auth.Account.{consumed_by, new_link}
use socialhub.Auth.Renewal.{FreshLink}
use socialhub.Auth.IdToken.{ticket_refused}
use socialhub.Auth.Google.{
  exchanged_ticket, exchange_ticket, read_ticket, ticket_ok, signed_in, mint_handoff_ticket,
  handoff_ttl,
}

module _ (ports : AuthPorts) where
  -- The session that an exchange gives, and the world that it leaves.
  abbrev pub opened_by :
      (id k : RowId)
      → AuthUser
      → (raw : String) → (now : Millis) → World ports
      → AuthResponse × World ports
  opened_by id k u raw now w =
      issue_token_pair ports id u raw now
        (record w { user_tokens = update ports.user_tokens w.user_tokens k (consumed_by now) })

  pub exchanged_ticket-ok :
      (k : RowId) (t : UserToken) (u : AuthUser) (raw : String) (now : Millis) (w : World ports)
      → ticket_ok ports now t ≡ true
      → exchanged_ticket ports (some (k, t, some u)) raw now w
        ≡ (ok (opened_by t.user_id k u raw now w).0, (opened_by t.user_id k u raw now w).1)
  unfolding exchanged_ticket signed_in
  exchanged_ticket-ok k t u raw now w h = rw h refl

  consumed-refused :
      (k : RowId) (t : UserToken) (o : Option AuthUser) (raw : String) (at now : Millis)
      (w : World ports)
      → exchanged_ticket ports (some (k, consumed_by at t, o)) raw now w ≡ (err ticket_refused, w)
  unfolding exchanged_ticket
  consumed-refused k t none raw at now w = refl
  consumed-refused k t (some u) raw at now w =
      elim (Bool-cases (type_eq t.token_type google_login_handoff)) [
        | inl e ↦ rw e refl
        | inr e ↦ rw e refl
      ]

  -- A ticket that was exchanged is refused from there on, whatever row with its id is read later.
  pub exchanged_ticket-once :
      (k : RowId) (t s : UserToken) (u : AuthUser) (o : Option AuthUser) (one two : String)
      (now later : Millis) (w : World ports)
      → ports.user_tokens.find w.user_tokens k ≡ some t
      → ticket_ok ports now t ≡ true
      → ports.user_tokens.find
          (exchanged_ticket ports (some (k, t, some u)) one now w).1.user_tokens
          k
        ≡ some s
      → exchanged_ticket ports
          (some (k, s, o))
          two
          later
          (exchanged_ticket ports (some (k, t, some u)) one now w).1
        ≡ (err ticket_refused, (exchanged_ticket ports (some (k, t, some u)) one now w).1)
  unfolding issue_token_pair
  exchanged_ticket-once k t s u o one two now later w f h g =
      let v = (exchanged_ticket ports (some (k, t, some u)) one now w).1 in
      let q : consumed_by now t ≡ s = some-injective _ s (
        sym (find-update_self ports.user_tokens w.user_tokens k (consumed_by now) t f)
        ∙ (rw (exchanged_ticket-ok k t u one now w h) at g)) in
      subst
        (λ (x : UserToken).
          exchanged_ticket ports (some (k, x, o)) two later v ≡ (err ticket_refused, v))
        q (consumed-refused k t o two now later v)

  -- Two requests that have both read a ticket before either of them writes are given a session
  -- each: nothing in the second write looks at the first.
  pub exchanged_ticket-both :
      (k : RowId) (t : UserToken) (u : AuthUser) (one two : String) (now later : Millis)
      (w : World ports)
      → ticket_ok ports now t ≡ true
      → ticket_ok ports later t ≡ true
      → ((a : AuthResponse) × ((exchanged_ticket ports (some (k, t, some u)) one now w).0 ≡ ok a))
        × ((b : AuthResponse) × ((exchanged_ticket ports
                (some (k, t, some u))
                two
                later
                (exchanged_ticket ports (some (k, t, some u)) one now w).1).0
              ≡ ok b))
  exchanged_ticket-both k t u one two now later w h g =
      let v = (exchanged_ticket ports (some (k, t, some u)) one now w).1 in
      (
        ((opened_by t.user_id k u one now w).0, rw (exchanged_ticket-ok k t u one now w h) refl),
        (
          (opened_by t.user_id k u two later v).0,
          rw (exchanged_ticket-ok k t u two later v g) refl,
        ),
      )

  -- Where the organization of a user is suspended, the login with the right password is refused,
  -- and a ticket of the user is exchanged for a session all the same, at the same time.
  pub exchange_ticket_leaks :
      (net : Net) (k : RowId) (t : UserToken) (u : AuthUser)
      (email password ip raw_ticket raw : String) (now : Millis) (w : World ports)
      → is_suspended (status_of ports (ports.organizations.find w.organizations u.org_id)) ≡ true
      → password_ok ports password u ≡ true
      → read_ticket ports raw_ticket w ≡ some (k, t, some u)
      → ticket_ok ports now t ≡ true
      → ((log_in_user ports net email password ip raw now w (some (t.user_id, u))).0
          ≡ err org_suspended)
        × ((a : AuthResponse) × ((exchange_ticket ports raw_ticket raw now w).0 ≡ ok a))
  unfolding log_in_user log_in_active assert_org_active exchange_ticket
  exchange_ticket_leaks net k t u email password ip raw_ticket raw now w s p f h = (
    rw (p, s) refl,
    ((opened_by t.user_id k u raw now w).0, rw (f, exchanged_ticket-ok k t u raw now w h) refl),
  )

  -- The ticket that a callback mints is exchanged, within its two minutes, for a session of the
  -- user it was minted for, with the user's role and organization. The hash of its value is new.
  pub mint-exchange_ticket :
      (id : RowId) (u : AuthUser) (raw_ticket raw : String) (now later : Millis) (w : World ports)
      → ports.users.find w.users id ≡ some u
      → FreshLink ports w (ports.hash_token raw_ticket)
      → later ≤ now + handoff_ttl
      → (a : AuthResponse) × ((exchange_ticket ports raw_ticket raw later
            (mint_handoff_ticket ports id raw_ticket now w)).0
          ≡ ok a)
        × (a.user.sub ≡ id)
        × (a.user.role ≡ u.role)
        × (a.user.org_id ≡ u.org_id)
  unfolding exchange_ticket read_ticket mint_handoff_ticket issue_token_pair
  mint-exchange_ticket id u raw_ticket raw now later w f fresh l =
      let n = new_link ports id google_login_handoff handoff_ttl raw_ticket now in
      let v = mint_handoff_ticket ports id raw_ticket now w in
      let c =
        first-create ports.user_tokens w.user_tokens n (token_of_hash (ports.hash_token raw_ticket))
          fresh (eq_refl _) in
      let k = (ports.user_tokens.create w.user_tokens n).0 in
      (
        (opened_by id k u raw later v).0,
        rw (c, f, exchanged_ticket-ok k n u raw later v (ground (arith, l))) refl,
        refl,
        refl,
        refl,
      )
