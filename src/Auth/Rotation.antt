-- ===== src/Auth/Rotation.antt =====
-- What the rotation of refresh tokens promises: a token that is used twice ends every session.
use socialhub.Database.{update, Listed, first, touch-some, first-Listed}
use socialhub.Auth.Session.{
  revoke_sessions, Found, refreshed, rotated, issued, issue_token_pair, revoke_token, read_token,
  new_token, open_of_user,
}
use socialhub.Auth.{AuthPorts, World, RefreshToken, AuthResponse, str_eq, AuthUser, of_hash}
use socialhub.Schema.{RowId, Millis}
use socialhub.Prelude.{
  ◌≡◌, String, Option-cases, some, inl, true, inr, false, ok, Option, ◌⊎◌, ltb, Bool-cases, none,
  refl, if◌then◌else◌, sym, ap, subst, ◌∙◌, ok-injective, arith,
}

module _ (ports : AuthPorts) where
  -- The schema's unique index.
  abbrev pub UniqueHashes : World ports → Type 0
  UniqueHashes w =
      (j k : RowId) (a b : RefreshToken)
      → ports.refresh_tokens.find w.refresh_tokens j ≡ some a
      → ports.refresh_tokens.find w.refresh_tokens k ≡ some b
      → str_eq a.token_hash b.token_hash ≡ true
      → j ≡ k

  -- No stored token has the hash.
  abbrev pub FreshHash : World ports → String → Type 0
  FreshHash w h =
      (k : RowId) (t : RefreshToken)
      → ports.refresh_tokens.find w.refresh_tokens k ≡ some t
      → str_eq t.token_hash h ≡ false

  -- The user has no open session.
  abbrev pub Closed : RowId → World ports → Type 0
  Closed u w =
      (k : RowId) (t : RefreshToken)
      → ports.refresh_tokens.find w.refresh_tokens k ≡ some t
      → t.user_id ≡ u
      → t.revoked ≡ true

  open_not :
      (u : RowId) (t : RefreshToken)
      → open_of_user ports u t ≡ false
      → t.user_id ≡ u
      → t.revoked ≡ true
  open_not u t h e = ground (arith, h, e)

  closing :
      (u : RowId) (r t : RefreshToken)
      → (if open_of_user ports u r then revoke_token ports r else r) ≡ t
      → t.user_id ≡ u
      → t.revoked ≡ true
  closing u r t h e = elim (Bool-cases (open_of_user ports u r)) [
    | inl a ↦ subst (λ (x : RefreshToken). x.revoked ≡ true) (rw a at h) refl
    | inr a ↦
        let x : r ≡ t = rw a at h in
        open_not u t (subst (λ (y : RefreshToken). open_of_user ports u y ≡ false) x a) e
  ]

  pub revoke_sessions-Closed : (u : RowId) (w : World ports) → Closed u (revoke_sessions ports u w)
  unfolding revoke_sessions
  revoke_sessions-Closed u w k t h e =
      let (r, q, x) =
        touch-some (open_of_user ports u) (revoke_token ports)
          (ports.refresh_tokens.find w.refresh_tokens k) t
          (sym (
              ports.refresh_tokens.find-update_all w.refresh_tokens (open_of_user ports u)
                (revoke_token ports) k)
            ∙ h) in
      closing u r t x e

  -- What a refresh that succeeds has read and written.
  refreshed-ok_found :
      (k : RowId) (t : RefreshToken) (u : Option AuthUser) (raw : String) (now : Millis)
      (w : World ports) (a : AuthResponse)
      → (t.revoked ≡ true) ⊎ (t.revoked ≡ false)
      → (ltb t.expires_at now ≡ true) ⊎ (ltb t.expires_at now ≡ false)
      → (refreshed ports (some (k, t, u)) raw now w).0 ≡ ok a
      → (k' : RowId) × (t' : RefreshToken) × (u' : AuthUser) × (◌≡◌ {A = Found}
          (some (k, t, u))
          (some (k', t', some u')))
        × (t'.revoked ≡ false)
        × (a.user.sub ≡ t'.user_id)
        × ((refreshed ports (some (k, t, u)) raw now w).1.refresh_tokens
            ≡ (ports.refresh_tokens.create
                (update ports.refresh_tokens w.refresh_tokens k' (revoke_token ports))
                (new_token ports t'.user_id raw now)).1)
  unfolding refreshed rotated issued issue_token_pair
  refreshed-ok_found k t none raw now w a (inl c) d h = cc
  refreshed-ok_found k t none raw now w a (inr c) (inl d) h = cc
  refreshed-ok_found k t none raw now w a (inr c) (inr d) h = cc
  refreshed-ok_found k t (some u) raw now w a (inl c) d h = cc
  refreshed-ok_found k t (some u) raw now w a (inr c) (inl d) h = cc
  refreshed-ok_found k t (some u) raw now w a (inr c) (inr d) h = (
    k,
    t,
    u,
    refl,
    c,
    sym (ap (λ (x : AuthResponse). x.user.sub) (ok-injective (rw (c, d) at h))),
    rw (c, d) refl,
  )

  pub refreshed-ok :
      (x : Found) (raw : String) (now : Millis) (w : World ports) (a : AuthResponse)
      → (refreshed ports x raw now w).0 ≡ ok a
      → (k : RowId) × (t : RefreshToken) × (u : AuthUser) × (x ≡ some (k, t, some u))
        × (t.revoked ≡ false)
        × (a.user.sub ≡ t.user_id)
        × ((refreshed ports x raw now w).1.refresh_tokens
            ≡ (ports.refresh_tokens.create
                (update ports.refresh_tokens w.refresh_tokens k (revoke_token ports))
                (new_token ports t.user_id raw now)).1)
  unfolding refreshed rotated issued issue_token_pair
  refreshed-ok none raw now w a h = cc
  refreshed-ok (some (k, t, u)) raw now w a h =
      refreshed-ok_found k t u raw now w a (Bool-cases t.revoked)
        (Bool-cases (ltb t.expires_at now)) h

  found-injective :
      (j k : RowId) (r t : RefreshToken) (u v : Option AuthUser)
      → ◌≡◌ {A = Found} (some (j, r, u)) (some (k, t, v))
      → ◌≡◌ {A = RowId × RefreshToken} (j, r) (k, t)
  found-injective j k r t u v h = cc

  pub read_token-Listed :
      (raw : String) (w : World ports) (k : RowId) (t : RefreshToken) (u : Option AuthUser)
      → read_token ports raw w ≡ some (k, t, u)
      → Listed (ports.refresh_tokens.find w.refresh_tokens) (of_hash (ports.hash_token raw)) (k, t)
  unfolding read_token
  read_token-Listed raw w k t u h =
      let s = w.refresh_tokens in
      let p = of_hash (ports.hash_token raw) in
      elim (Option-cases (first (ports.refresh_tokens.find_many s p))) [
        | inl e ↦ cc
        | inr ((j, r), e) ↦
            let l = first-Listed ports.refresh_tokens s p j r e in
            let q : ◌≡◌ {A = RowId × RefreshToken} (j, r) (k, t) =
              found-injective j k r t _ u (rw e at h) in
            subst (Listed (ports.refresh_tokens.find s) p) (q) l
      ]
