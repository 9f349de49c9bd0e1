-- ===== src/Auth/Replay.antt =====
-- A refresh token that comes a second time.
use mathlib.Core.Option.{some-injective}
use text.Mathlib.TextEquality.{eq_iff}
use socialhub.Database.{
  update, find-create_old, find-update_self, Listed, always, first, first-Listed,
}
use socialhub.Auth.Rotation.{
  Closed, refreshed-ok, read_token-Listed, UniqueHashes, FreshHash, revoke_sessions-Closed,
}
use socialhub.Auth.Session.{
  refresh, refreshed, rotated, issued, Found, read_token, revoke_token, new_token, issue_token_pair,
  revoke_sessions,
}
use socialhub.Auth.{
  AuthPorts, AuthError, AuthResponse, invalid_refresh_token, World, RefreshToken, of_hash, str_eq,
  AuthUser,
}
use socialhub.Schema.{RowId, Millis}
use socialhub.Prelude.{
  ℕ, ◌≡◌, ◌≢◌, Result, err, ◌⊎◌, ok, String, inl, some, inr, Bool-cases, ltb, Bool, sym, none,
  false, ◌∙◌, refl, true, ◌==◌, arith, subst, ==_iff, Option-cases, ap, Option,
}

absurd_revoked : (b : Bool) → b ≡ false → ¬ (b ≡ true)
absurd_revoked b h g = cc

-- Two texts with a third in common.
not_both :
    (s old new : String) → str_eq s old ≡ true → str_eq new old ≡ true → str_eq s new ≡ false → ⊥
not_both s old new h g f = ground (arith, eq_iff s old, eq_iff new old, eq_iff s new)

both : (s t old : String) → str_eq s old ≡ true → str_eq t old ≡ true → str_eq s t ≡ true
both s t old h g = ground (arith, eq_iff s old, eq_iff t old, eq_iff s t)

apart : (j k : ℕ) → (j == k) ≡ false → ¬ (j ≡ k)
apart j k h e = ground (arith, h, e)

module _ (ports : AuthPorts) where
  -- A refresh that gives no session of user `u`.
  abbrev pub Excludes : RowId → Result AuthError AuthResponse → Type 0
  Excludes u r =
      (r ≡ err invalid_refresh_token) ⊎ ((b : AuthResponse) × (r ≡ ok b) × (b.user.sub ≢ u))

  refreshed-cases :
      (x : Found) (raw : String) (now : Millis) (w : World ports)
      → ((refreshed ports x raw now w).0 ≡ err invalid_refresh_token)
        ⊎ ((b : AuthResponse) × ((refreshed ports x raw now w).0 ≡ ok b))
  unfolding refreshed rotated issued
  refreshed-cases none raw now w = inl refl
  refreshed-cases (some (k, t, none)) raw now w = elim (Bool-cases t.revoked) [
    | inl a ↦ inl (rw a refl)
    | inr a ↦ elim (Bool-cases (ltb t.expires_at now)) [
      | inl b ↦ inl (rw (a, b) refl)
      | inr b ↦ inl (rw (a, b) refl)
    ]
  ]
  refreshed-cases (some (k, t, some v)) raw now w = elim (Bool-cases t.revoked) [
    | inl a ↦ inl (rw a refl)
    | inr a ↦ elim (Bool-cases (ltb t.expires_at now)) [
      | inl b ↦ inl (rw (a, b) refl)
      | inr b ↦
          let s = update ports.refresh_tokens w.refresh_tokens k (revoke_token ports) in
          inr (
            (issue_token_pair ports t.user_id v raw now (record w { refresh_tokens = s })).0,
            rw (a, b) refl,
          )
    ]
  ]

  pub Closed-Excludes :
      (u : RowId) (w : World ports) (raw fresh : String) (now : Millis)
      → Closed ports u w
      → Excludes u (refresh ports raw fresh now w).0
  unfolding refresh
  Closed-Excludes u w raw fresh now c =
      elim (refreshed-cases (read_token ports raw w) fresh now w) [
        | inl e ↦ inl e
        | inr (b, e) ↦
            let (k, t, v, x, r, s, _) =
              refreshed-ok ports (read_token ports raw w) fresh now w b e in
            let l = read_token-Listed ports raw w k t (some v) x in
            let q = c k t l.0 in inr (b, e, λ z. absurd_revoked t.revoked r (q (sym s ∙ z)))
      ]

  -- After a rotation, the row that was read is still found by its hash, and it is revoked.
  module _ (w : World ports) (old new : String) (now : Millis) (k : RowId) (t : RefreshToken) where
    after : ports.refresh_tokens.State
    after =
        (ports.refresh_tokens.create
          (update ports.refresh_tokens w.refresh_tokens k (revoke_token ports))
          (new_token ports t.user_id new now)).1

    after-kept :
        ports.refresh_tokens.find w.refresh_tokens k ≡ some t
        → ports.refresh_tokens.find after k ≡ some (revoke_token ports t)
    unfolding after
    after-kept h =
        find-create_old ports.refresh_tokens _ _ (new_token ports t.user_id new now) k
          (find-update_self ports.refresh_tokens w.refresh_tokens k (revoke_token ports) t h)

    after-revoked :
        (j : RowId) (r : RefreshToken)
        → UniqueHashes ports w
        → FreshHash ports w (ports.hash_token new)
        → Listed
            (ports.refresh_tokens.find w.refresh_tokens)
            (of_hash (ports.hash_token old))
            (k, t)
        → Listed (ports.refresh_tokens.find after) (of_hash (ports.hash_token old)) (j, r)
        → r ≡ revoke_token ports t
    unfolding after
    after-revoked j r uniq fresh (h, a) (g, b) =
        let s = w.refresh_tokens in
        let n = new_token ports t.user_id new now in
        let s' = update ports.refresh_tokens s k (revoke_token ports) in
        elim (Bool-cases ((ports.refresh_tokens.create s' n).0 == j)) [
          | inl e ↦
              let q : n ≡ r =
                some-injective n r (rw (ports.refresh_tokens.find-create s' n j, e) at g) in
              absurd (
                not_both t.token_hash (ports.hash_token old) (ports.hash_token new) a
                  (subst (λ (x : RefreshToken). str_eq x.token_hash (ports.hash_token old) ≡ true)
                    (sym q) b)
                  (fresh k t h))
          | inr e ↦
              let g' =
                rw
                  (
                    ports.refresh_tokens.find-create s' n j,
                    e,
                    ports.refresh_tokens.find-update_many s k always (revoke_token ports) j,
                  )
                  at g in
              elim (Bool-cases (k == j)) [
                | inl f ↦
                    let h' : ports.refresh_tokens.find s j ≡ some t =
                      subst (λ x. ports.refresh_tokens.find s x ≡ some t) ((==_iff k j).0 f) h in
                    sym (some-injective (revoke_token ports t) r (rw (f, h') at g'))
                | inr f ↦
                    let q =
                      uniq j k r t (rw f at g') h
                        (both r.token_hash t.token_hash (ports.hash_token old) b a) in
                    absurd (apart k j f (sym q))
              ]
        ]

  refreshed-revoked :
      (k : RowId) (t : RefreshToken) (u : Option AuthUser) (raw : String) (now : Millis)
      (w : World ports)
      → t.revoked ≡ true
      → refreshed ports (some (k, t, u)) raw now w
        ≡ (err invalid_refresh_token, revoke_sessions ports t.user_id w)
  unfolding refreshed
  refreshed-revoked k t u raw now w h = rw h refl

  -- A token that is found revoked ends the sessions of its user.
  reused :
      (v : World ports) (old raw : String) (later : Millis) (k : RowId) (m : RefreshToken)
      → m.revoked ≡ true
      → Listed (ports.refresh_tokens.find v.refresh_tokens) (of_hash (ports.hash_token old)) (k, m)
      → ((j : RowId) (r : RefreshToken)
          → Listed
              (ports.refresh_tokens.find v.refresh_tokens)
              (of_hash (ports.hash_token old))
              (j, r)
          → r ≡ m)
      → refresh ports old raw later v
        ≡ (err invalid_refresh_token, revoke_sessions ports m.user_id v)
  unfolding refresh read_token
  reused v old raw later k m d (h, g) only =
      let s = v.refresh_tokens in
      let p = of_hash (ports.hash_token old) in
      elim (Option-cases (first (ports.refresh_tokens.find_many s p))) [
        | inl e ↦ absurd (ports.refresh_tokens.find_many_finds s p k m h g e)
        | inr ((j, r), e) ↦
            let o = only j r (first-Listed ports.refresh_tokens s p j r e) in
            let d' : r.revoked ≡ true = ap (λ (x : RefreshToken). x.revoked) o ∙ d in
            rw e (
              refreshed-revoked j r (ports.users.find v.users r.user_id) raw later v d'
              ∙ ap
                  (λ (x : RefreshToken).
                    (err invalid_refresh_token, revoke_sessions ports x.user_id v))
                  o)
      ]

  -- A refresh token that is used a second time, at any time after it was rotated, is refused, and
  -- ends the session that the rotation gave: no refresh token, the newest included, gives the user
  -- a session from there on. The hashes of the stored tokens differ, and the hash of the new one
  -- from all of them.
  pub refresh-Excludes :
      (w : World ports) (old new : String) (now : Millis) (a : AuthResponse) (raw : String)
      (later : Millis) (token raw' : String) (later' : Millis)
      → UniqueHashes ports w
      → FreshHash ports w (ports.hash_token new)
      → (refresh ports old new now w).0 ≡ ok a
      → ((refresh ports old raw later (refresh ports old new now w).1).0
          ≡ err invalid_refresh_token)
        × Excludes a.user.sub
            (refresh ports token raw' later'
              (refresh ports old raw later (refresh ports old new now w).1).1).0
  unfolding refresh after
  refresh-Excludes w old new now a raw later token raw' later' uniq fresh h =
      let (k, t, v, x, r, s, q) = refreshed-ok ports (read_token ports old w) new now w a h in
      let l = read_token-Listed ports old w k t (some v) x in
      let v = (refreshed ports (read_token ports old w) new now w).1 in
      let m = revoke_token ports t in
      let found = λ (y : ports.refresh_tokens.State).
        Listed (ports.refresh_tokens.find y) (of_hash (ports.hash_token old)) in
      let z =
        reused v old raw later k m refl
          (subst (λ y. found y (k, m)) (sym q) (after-kept w old new now k t l.0, l.1))
          (λ j r g.
            after-revoked w old new now k t j r uniq fresh l (subst (λ y. found y (j, r)) q g)) in
      let c =
        Closed-Excludes t.user_id (revoke_sessions ports t.user_id v) token raw' later'
          (revoke_sessions-Closed ports t.user_id v) in
      (
        ap (λ y. y.0) z,
        subst
            (λ y. Excludes y (refresh ports token raw' later' (refresh ports old raw later v).1).0)
            (sym s)
            (subst
              (λ (y : Result AuthError AuthResponse × World ports).
                Excludes t.user_id (refresh ports token raw' later' y.1).0)
              (sym z) c),
      )
