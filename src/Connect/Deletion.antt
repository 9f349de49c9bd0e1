-- ===== src/Connect/Deletion.antt =====
-- backend/src/social-accounts/social-accounts.service.ts: the deletion of a person's accounts that
-- Meta asks for.
use socialhub.Prelude.{
  ltb→lt, lt→ltb, ap, ◌≡◌, refl, ℕ, ◌<◌, String, Bool, true, false, Option, none, some, Result, ok,
  err, List, [], ◌∷◌, ◌==◌, ◌&&◌, ◌||◌, ltb, if◌then◌else◌, Bool-cases, inl, inr, All,
}
use text.Mathlib.Text.{◌==◌ as str_eq}
use socialhub.Schema.{RowId, Platform, platform_eq}
use socialhub.Database.{Listed, Lists}
use socialhub.Database.Every.{Swept, delete_all-Swept}
use socialhub.SocialToken.{SocialAccount}
use socialhub.Publishing.{PublishJob}
use socialhub.Connect.{ConnectPorts, World, ConnectError, still_referenced}

-- `externalUserId` equals the text.
abbrev pub is_user : String → Option String → Bool
is_user user o = elim o [ none ↦ false | some u ↦ str_eq u user ]

-- The condition of purgePlatformUser.
abbrev pub of_platform_user : Platform → String → SocialAccount → Bool
of_platform_user platform user a =
    platform_eq a.platform platform
    && (is_user user a.external_user_id || str_eq a.external_account_id user)

-- publish_job references its account with onDelete: Restrict.
abbrev pub of_account : RowId → PublishJob → Bool
of_account id j = j.social_account_id == id

or_true : (b : Bool) → (b || true) ≡ true
or_true true = refl
or_true false = refl

module _ (ports : ConnectPorts) where
  -- A listed account that a job of publication references.
  unfoldable pub is_referenced : ports.jobs.State → List (RowId × SocialAccount) → Bool
  is_referenced jobs [] = false
  is_referenced jobs ((id, a) ∷ rest) =
      let more = is_referenced jobs rest in ltb 0 (ports.jobs.count jobs (of_account id)) || more

  -- deleteMany, which the database refuses as a whole where a job references one of the accounts.
  unfoldable pub purge_platform_user :
      Platform → (external_user_id : String) → World ports → Result ConnectError ℕ × World ports
  purge_platform_user platform user w =
      let p = of_platform_user platform user in
      if is_referenced w.jobs (ports.accounts.find_many w.accounts p)
      then (err still_referenced, w)
      else (
        ok (ports.accounts.count w.accounts p),
        record w { accounts = ports.accounts.delete_all w.accounts p },
      )

  unfoldable pub recorded_deletion :
      Platform
      → (external_user_id confirmation_code : String) → Result ConnectError ℕ × World ports
      → Result ConnectError String × World ports
  recorded_deletion platform user code (err e, w) = (err e, w)
  recorded_deletion platform user code (ok _, w) = (
    ok code,
    record w {
      requests =
          (ports.requests.create w.requests (record {
            platform = platform;
            external_user_id = user;
            confirmation_code = code;
            status = "completed";
          })).1;
    },
  )

  -- `confirmation_code` is random.
  unfoldable pub record_data_deletion :
      Platform
      → (external_user_id confirmation_code : String) → World ports
      → Result ConnectError String × World ports
  record_data_deletion platform user code w =
      recorded_deletion platform user code (purge_platform_user platform user w)

  -- An account that the deletion is about, and that has a job.
  abbrev pub HasJob : (SocialAccount → Bool) → World ports → Type 0
  HasJob p w =
      (id : RowId) × (a : SocialAccount) × (ports.accounts.find w.accounts id ≡ some a)
      × (p a ≡ true)
      × (0 < ports.jobs.count w.jobs (of_account id))

  abbrev pub Purged : Platform → String → World ports → Result ConnectError ℕ × World ports → Type 0
  Purged platform user w (err e, v) = (v ≡ w) × HasJob (of_platform_user platform user) w
  Purged platform user w (ok n, v) =
      Swept ports.accounts w.accounts v.accounts (of_platform_user platform user)

  is_referenced-HasJob :
      (p : SocialAccount → Bool) (w : World ports) (l : List (RowId × SocialAccount))
      → All (Listed (ports.accounts.find w.accounts) p) l
      → is_referenced w.jobs l ≡ true
      → HasJob p w
  unfolding is_referenced
  is_referenced-HasJob p w [] h e = cc
  is_referenced-HasJob p w ((id, a) ∷ l) ((f, q), h) e =
      elim (Bool-cases (ltb 0 (ports.jobs.count w.jobs (of_account id)))) [
        | inl b ↦ (id, a, f, q, ltb→lt _ _ b)
        | inr b ↦ is_referenced-HasJob p w l h (rw b at e)
      ]

  Lists-referenced :
      (jobs : ports.jobs.State) (l : List (RowId × SocialAccount)) (id : RowId) (a : SocialAccount)
      → Lists l (id, a)
      → 0 < ports.jobs.count jobs (of_account id)
      → is_referenced jobs l ≡ true
  unfolding is_referenced
  Lists-referenced jobs [] id a h n = absurd h
  Lists-referenced jobs ((k, b) ∷ l) id a (inl e) n =
      let same : k ≡ id = ap (λ (x : RowId × SocialAccount). x.0) e in
      rw (same, lt→ltb 0 (ports.jobs.count jobs (of_account id)) n) refl
  Lists-referenced jobs ((k, b) ∷ l) id a (inr h) n =
      rw (Lists-referenced jobs l id a h n) (or_true (ltb 0 (ports.jobs.count jobs (of_account k))))

  -- The deletion of a person's accounts is refused as soon as one of them has a job, of whatever
  -- status, and everything stays as it was.
  pub purge_platform_user-refused :
      (platform : Platform) (user : String) (id : RowId) (a : SocialAccount) (w : World ports)
      → ports.accounts.find w.accounts id ≡ some a
      → of_platform_user platform user a ≡ true
      → 0 < ports.jobs.count w.jobs (of_account id)
      → purge_platform_user platform user w ≡ (err still_referenced, w)
  unfolding purge_platform_user
  purge_platform_user-refused platform user id a w f q n =
      rw
        (Lists-referenced w.jobs
          (ports.accounts.find_many w.accounts (of_platform_user platform user)) id a
          (ports.accounts.find_many-Lists w.accounts (of_platform_user platform user) id a f q) n)
        refl

  -- Where the deletion of a person's accounts goes through, no account of the person is left on the
  -- platform, and every other account is kept. It is refused, and then leaves everything as it
  -- was, only where one of the accounts has a job.
  pub purge_platform_user-Purged :
      (platform : Platform) (user : String) (w : World ports)
      → Purged platform user w (purge_platform_user platform user w)
  unfolding purge_platform_user
  purge_platform_user-Purged platform user w =
      let p = of_platform_user platform user in
      elim (Bool-cases (is_referenced w.jobs (ports.accounts.find_many w.accounts p))) [
        | inl e ↦
            rw e (refl, is_referenced-HasJob p w _ (ports.accounts.find_many-Listed w.accounts p) e)
        | inr e ↦ rw e (delete_all-Swept ports.accounts w.accounts p)
      ]
