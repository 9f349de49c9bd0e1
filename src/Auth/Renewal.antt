-- ===== src/Auth/Renewal.antt =====
-- A link that takes the place of the older ones.
use socialhub.Database.{
  matches, find-create_old, Listed, first, touch-some, find-create_new, first-Listed,
}
use socialhub.Auth.Account.{
  consume_found, consumed, is_open, consumed_by, issue_token, new_link, redeemable, find_token,
  consume_token, open_of_type,
}
use socialhub.Schema.{RowId, Millis}
use socialhub.Auth.{
  email_verification, password_reset, google_login_handoff, AuthPorts, World, UserToken,
  UserTokenType, type_eq, invalid_link, token_of_hash,
}
use text.Mathlib.TextPositions.{eq_refl}
use text.Mathlib.Text.{◌==◌ as str_eq}
use mathlib.Core.Option.{some-injective}
use socialhub.Prelude.{
  ◌≡◌, refl, some, err, ok, arith, Bool-cases, inl, inr, String, false, ◌≤◌, ◌+◌, true, Bool,
  if◌then◌else◌, Option-cases, ◌&&◌, not, ◌==◌, ltb, sym, ◌∙◌, ap, subst,
}
use socialhub.Auth.Links.{Spent-refused}

type_eq_refl : (type : UserTokenType) → type_eq type type ≡ true
type_eq_refl email_verification = refl
type_eq_refl password_reset = refl
type_eq_refl google_login_handoff = refl

same_hash :
    (b : Bool) (r' r : UserToken) (now : Millis) (h : String)
    → (if b then consumed_by now r' else r') ≡ r
    → str_eq r.token_hash h ≡ true
    → str_eq r'.token_hash h ≡ false
    → ⊥
same_hash true r' r now h q g f =
    let e : r'.token_hash ≡ r.token_hash = ap (λ (x : UserToken). x.token_hash) q in
    let z : str_eq r.token_hash h ≡ false = subst (λ x. str_eq x h ≡ false) e f in cc
same_hash false r' r now h q g f =
    let z : str_eq r.token_hash h ≡ false =
      subst (λ (x : UserToken). str_eq x.token_hash h ≡ false) q f in
    cc

open_counts :
    (a : Bool) (t : UserToken) (b : Bool)
    → (a && (is_open t && b)) ≡ true
    → (matches is_open (some t) == 0) ≡ false
open_counts a t b h = ground arith

module _ (ports : AuthPorts) where
  -- What the update of the older links makes of a link of the type.
  superseded_of : UserToken → Millis → UserToken
  superseded_of t now = if open_of_type ports t.user_id t.token_type t then consumed_by now t else t

  superseded-spent :
      (t : UserToken) (now : Millis) → matches is_open (some (superseded_of t now)) ≡ 0
  unfolding superseded_of
  superseded-spent t now = ground (arith, type_eq_refl t.token_type)

  consume_found-open :
      (k : RowId) (t : UserToken) (type : UserTokenType) (now : Millis) (w : World ports)
      → redeemable ports type now t ≡ true
      → ports.user_tokens.find w.user_tokens k ≡ some t
      → (consume_found ports (some (k, t)) type now w).0 ≡ ok t
  unfolding consume_found consumed
  consume_found-open k t type now w h f =
      rw
        (
          h,
          ports.user_tokens.count-update_many,
          f,
          open_counts (type_eq t.token_type type) t (not (ltb t.expires_at now)) h,
        )
        refl

  -- A new link takes the place of the older ones of its user and type: none of these is redeemed
  -- from there on.
  pub issue_token-supersedes :
      (k : RowId) (t t' : UserToken) (type' : UserTokenType) (ttl now later : Millis) (raw : String)
      (w : World ports)
      → ports.user_tokens.find w.user_tokens k ≡ some t
      → (consume_found ports
          (some (k, t'))
          type'
          later
          (issue_token ports t.user_id t.token_type ttl raw now w)).0
        ≡ err invalid_link
  unfolding superseded_of
  issue_token-supersedes k t t' type' ttl now later raw w h =
      Spent-refused ports k t' type' later (issue_token ports t.user_id t.token_type ttl raw now w)
        (unfold issue_token in
          let s =
            ports.user_tokens.update_all w.user_tokens (open_of_type ports t.user_id t.token_type)
              (consumed_by now) in
          let n = new_link ports t.user_id t.token_type ttl raw now in
          rw
            (find-create_old ports.user_tokens s (superseded_of t now) n k
              (rw (ports.user_tokens.find-update_all, h) refl))
            (superseded-spent t now))

  -- No stored link has the hash.
  abbrev pub FreshLink : World ports → String → Type 0
  FreshLink w h =
      (k : RowId) (t : UserToken)
      → ports.user_tokens.find w.user_tokens k ≡ some t
      → str_eq t.token_hash h ≡ false

  Listed-new :
      (u : RowId) (type : UserTokenType) (ttl now : Millis) (raw : String) (w : World ports)
      (j : RowId) (r : UserToken)
      → FreshLink w (ports.hash_token raw)
      → Listed
          (ports.user_tokens.find (issue_token ports u type ttl raw now w).user_tokens)
          (token_of_hash (ports.hash_token raw))
          (j, r)
      → new_link ports u type ttl raw now ≡ r
  unfolding issue_token
  Listed-new u type ttl now raw w j r fresh (g, b) =
      let n = new_link ports u type ttl raw now in
      let p = open_of_type ports u type in
      let s = ports.user_tokens.update_all w.user_tokens p (consumed_by now) in
      elim (Bool-cases ((ports.user_tokens.create s n).0 == j)) [
        | inl e ↦ some-injective n r (rw (ports.user_tokens.find-create s n j, e) at g)
        | inr e ↦
            let (r', f, q) =
              touch-some p (consumed_by now) (ports.user_tokens.find w.user_tokens j) r (
                sym (ports.user_tokens.find-update_all w.user_tokens p (consumed_by now) j)
                ∙ (rw (ports.user_tokens.find-create s n j, e) at g)) in
            absurd (same_hash (p r') r' r now (ports.hash_token raw) q b (fresh j r' f))
      ]

  -- A link that was issued is redeemed, by the token that was mailed and for the type and the user
  -- that it was issued for, at every time up to its end. The hash of the token is new, and the
  -- token is not the empty text.
  pub issue_token-consume_token :
      (u : RowId) (type : UserTokenType) (ttl now later : Millis) (raw : String) (w : World ports)
      → FreshLink w (ports.hash_token raw)
      → str_eq raw "" ≡ false
      → later ≤ now + ttl
      → (t : UserToken) × (t.user_id ≡ u)
        × ((consume_token ports raw type later (issue_token ports u type ttl raw now w)).0 ≡ ok t)
  unfolding consume_token find_token issue_token
  issue_token-consume_token u type ttl now later raw w fresh named l =
      let n = new_link ports u type ttl raw now in
      let s = (issue_token ports u type ttl raw now w).user_tokens in
      let h = ports.hash_token raw in
      elim (Option-cases (first (ports.user_tokens.find_many s (token_of_hash h)))) [
        | inl e ↦ absurd (
            ports.user_tokens.find_many_finds s (token_of_hash h) _ n
              (find-create_new ports.user_tokens _ n) (eq_refl h) e)
        | inr ((j, r), e) ↦
            let f = first-Listed ports.user_tokens s (token_of_hash h) j r e in
            let q : n ≡ r = Listed-new u type ttl now raw w j r fresh f in
            (
              r,
              ap (λ (x : UserToken). x.user_id) (sym q),
              rw (named, e)
                  (consume_found-open j r type later _
                    (subst (λ (x : UserToken). redeemable ports type later x ≡ true) q
                      (rw (type_eq_refl type) (ground (arith, l))))
                    f.0),
            )
      ]
