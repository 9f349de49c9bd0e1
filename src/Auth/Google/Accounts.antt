-- ===== src/Auth/Google/Accounts.antt =====
-- Which account a Google identity is signed in to.
use socialhub.Prelude.{
  ◌≡◌, refl, true, false, Option, none, some, Result, ok, err, ◌⊎◌, inl, inr, Bool-cases, ◌==◌,
  String,
}
use text.Mathlib.Text.{◌==◌ as str_eq}
use text.Mathlib.TextEquality.{eq_iff}
use socialhub.Schema.{RowId, Millis}
use socialhub.Database.{first, first-Listed, find-update_self, find-create_new}
use socialhub.Auth.{AuthPorts, AuthUser, World, user_of_email, active}
use socialhub.Auth.IdToken.{Identity, GoogleError, linked_elsewhere, truthy, is_text}
use socialhub.Auth.Google.{
  of_google, link_google, resolve_user, resolve_google, resolve_email, link_email,
  create_google_owner, created_google, google_owner,
}

is_text-some : (s : String) (o : Option String) → is_text s o ≡ true → o ≡ some s
is_text-some s none h = cc
is_text-some s (some t) h = let e = (eq_iff t s).0 h in cc

empty_is_none : (s : String) → ¬ (◌≡◌ {A = Option String} none (some s))
empty_is_none s h = cc

truthy-some : (s : String) (o : Option String) → truthy o ≡ some s → o ≡ some s
truthy-some s none h = cc
truthy-some s (some t) h = elim (Bool-cases (str_eq t "")) [
  | inl e ↦ absurd (empty_is_none s (rw e at h))
  | inr e ↦ rw e at h
]

different : (s t : String) → str_eq s t ≡ false → ¬ (s ≡ t)
different s t h e = let z = (eq_iff s t).1 e in cc

module _ (ports : AuthPorts) where
  -- The identity owns the row: it is there, and linked to it.
  abbrev pub Owns : Identity → RowId → World ports → Type 0
  Owns i id v = (u : AuthUser) × (ports.users.find v.users id ≡ some u) × (u.google_id ≡ some i.sub)

  -- The row is new, or it is kept, or it had the email of the identity and no Google account, and
  -- is linked now.
  abbrev pub NewOrLinked : Identity → Millis → RowId → World ports → World ports → Type 0
  NewOrLinked i now id w v =
      (ports.users.find w.users id ≡ none)
      ⊎ ((ports.users.find v.users id ≡ ports.users.find w.users id)
          ⊎ ((r : AuthUser) × (ports.users.find w.users id ≡ some r)
              × (r.email ≡ i.email)
              × (truthy r.google_id ≡ none)
              × (ports.users.find v.users id ≡ some (link_google ports i.sub now r))))

  abbrev pub OthersKept : RowId → World ports → World ports → Type 0
  OthersKept id w v =
      (j : RowId) → ((id == j) ≡ true) ⊎ (ports.users.find v.users j ≡ ports.users.find w.users j)

  -- The email of the identity belongs to a user with another Google account.
  abbrev pub LinkedElsewhere : Identity → World ports → Type 0
  LinkedElsewhere i w =
      (k : RowId) × (u : AuthUser) × (other : String) × (ports.users.find w.users k ≡ some u)
      × (u.email ≡ i.email)
      × (u.google_id ≡ some other)
      × ¬ (other ≡ i.sub)

  abbrev pub Resolves :
      Identity → Millis → World ports → Result GoogleError RowId × World ports → Type 0
  Resolves i now w (ok id, v) = Owns i id v × NewOrLinked i now id w v × OthersKept id w v
  Resolves i now w (err e, v) = (e ≡ linked_elsewhere) × (v ≡ w) × LinkedElsewhere i w

  resolve_google-Resolves :
      (i : Identity) (now : Millis) (w : World ports) (id : RowId) (u : AuthUser)
      → ports.users.find w.users id ≡ some u
      → u.google_id ≡ some i.sub
      → Resolves i now w (ok id, w)
  resolve_google-Resolves i now w id u h g = ((u, h, g), inr (inl refl), (λ j. inr refl))

  link_none :
      (i : Identity) (now : Millis) (w : World ports) (id : RowId) (u : AuthUser)
      → ports.users.find w.users id ≡ some u
      → u.email ≡ i.email
      → truthy u.google_id ≡ none
      → Resolves i now w (link_email ports i now w id none)
  unfolding link_email
  link_none i now w id u h e t =
      let new = find-update_self ports.users w.users id (link_google ports i.sub now) in
      (
        (link_google ports i.sub now u, new u h, refl),
        inr (inr (u, h, e, t, new u h)),
        (λ j. elim (Bool-cases (id == j)) [
          | inl q ↦ inl q
          | inr q ↦ inr (rw (ports.users.find-update_many, q) refl)
        ]),
      )

  link_email-Resolves :
      (i : Identity) (now : Millis) (w : World ports) (id : RowId) (u : AuthUser)
      (g : Option String)
      → ports.users.find w.users id ≡ some u
      → u.email ≡ i.email
      → truthy u.google_id ≡ g
      → Resolves i now w (link_email ports i now w id g)
  unfolding link_email
  link_email-Resolves i now w id u none h e t = link_none i now w id u h e t
  link_email-Resolves i now w id u (some other) h e t = elim (Bool-cases (str_eq other i.sub)) [
    | inl q ↦
        let same : other ≡ i.sub = (eq_iff other i.sub).0 q in
        let has = truthy-some other u.google_id t in
        rw q (resolve_google-Resolves i now w id u h (cc))
    | inr q ↦
        rw q (
          refl,
          refl,
          (id, u, other, h, e, truthy-some other u.google_id t, different other i.sub q),
        )
  ]

  create_google_owner-Resolves :
      (i : Identity) (now : Millis) (w : World ports)
      → Resolves i now w (created_google ports (create_google_owner ports i now w))
  unfolding create_google_owner created_google
  create_google_owner-Resolves i now w = (
    (_, find-create_new ports.users w.users _, refl),
    inl (ports.users.create_fresh w.users _),
    (λ j.
        elim (Bool-cases (
          (ports.users.create w.users (
            google_owner ports i
              (ports.organizations.create w.organizations (record {
                name = ports.default_org_name i.email;
                status = active;
                suspended_at = none;
              })).0
              now)).0
          == j)) [ inl q ↦ inl q | inr q ↦ inr (rw (ports.users.find-create, q) refl) ]),
  )

  resolve_email-Resolves :
      (i : Identity) (now : Millis) (w : World ports) (o : Option (RowId × AuthUser))
      → first (ports.users.find_many w.users (user_of_email i.email)) ≡ o
      → Resolves i now w (resolve_email ports i now w o)
  unfolding resolve_email
  resolve_email-Resolves i now w none h = create_google_owner-Resolves i now w
  resolve_email-Resolves i now w (some (id, u)) h =
      let l = first-Listed ports.users w.users (user_of_email i.email) id u h in
      link_email-Resolves i now w id u (truthy u.google_id) l.0 ((eq_iff u.email i.email).0 l.1)
        refl

  resolve_found-Resolves :
      (i : Identity) (now : Millis) (w : World ports) (o : Option (RowId × AuthUser))
      → first (ports.users.find_many w.users (of_google ports i.sub)) ≡ o
      → Resolves i now w (resolve_google ports i now w o)
  unfolding resolve_google
  resolve_found-Resolves i now w none h = resolve_email-Resolves i now w _ refl
  resolve_found-Resolves i now w (some (id, u)) h =
      let l = first-Listed ports.users w.users (of_google ports i.sub) id u h in
      resolve_google-Resolves i now w id u l.0 (is_text-some i.sub u.google_id l.1)

  -- A Google identity is resolved to a user that is linked to it. That user's row is the one from
  -- before, or it had the email of the identity and was linked to no Google account, or it is new;
  -- every other user's row is kept. It is refused, and nothing changes, only where the email
  -- belongs to a user that is linked to another Google account.
  pub resolve_user-Resolves :
      (i : Identity) (now : Millis) (w : World ports)
      → Resolves i now w (resolve_user ports i now w)
  unfolding resolve_user
  resolve_user-Resolves i now w = resolve_found-Resolves i now w _ refl
