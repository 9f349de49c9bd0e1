-- ===== src/RateLimit/Lockout.antt =====
-- The lock of logins as a client of the counters sees it: what it counts of the attempts so far.
use socialhub.Prelude.{
  ℕ, suc, ◌<◌, ◌≡◌, refl, Bool, true, false, Option, none, some, List, [], ◌∷◌, leb, if◌then◌else◌,
  arith, ◌==◌, ◌&&◌, String, Result, ok, err,
}
use text.Mathlib.Text.{◌==◌ as str_eq}
use socialhub.Schema.{Millis}
use socialhub.RateLimit.{
  Key, email_failures, ip_failures, key_eq, Redis, all_up, bucket, hit, key_eq-eq,
}
use socialhub.RateLimit.Counting.{Counted, hit-own, hit-other, Counted-same, peek-Counted}
use socialhub.RateLimit.Throttle.{
  ThrottleConfig, TooMany, too_many, email_key, ip_key, bumped, bump, assert_login_allowed,
  record_login_failure, record_login_success,
}

-- An attempt that the login has recorded.
pub data Attempt : Type 0 where
  failed : (email ip : String) → Millis → Attempt
  succeeded : (email : String) → Millis → Attempt

module _ (config : ThrottleConfig) where
  -- The failures of an address in a window since its last success, and those from an IP.
  abbrev pub next_email_tally : (email : String) (window : ℕ) → ℕ → Attempt → ℕ
  next_email_tally e b n (failed e' i at) =
      if str_eq (config.normalize e') e && (bucket at config.window_seconds == b) then suc n else n
  next_email_tally e b n (succeeded e' at) =
      if str_eq (config.normalize e') e && (bucket at config.window_seconds == b) then 0 else n

  abbrev pub next_ip_tally : (ip : String) (window : ℕ) → ℕ → Attempt → ℕ
  next_ip_tally i b n (failed e i' at) =
      if str_eq i' i && (bucket at config.window_seconds == b) then suc n else n
  next_ip_tally i b n (succeeded e at) = n

  unfoldable pub email_tally : (email : String) (window : ℕ) → ℕ → List Attempt → ℕ
  email_tally e b n [] = n
  email_tally e b n (a ∷ as_) = email_tally e b (next_email_tally e b n a) as_

  unfoldable pub ip_tally : (ip : String) (window : ℕ) → ℕ → List Attempt → ℕ
  ip_tally i b n [] = n
  ip_tally i b n (a ∷ as_) = ip_tally i b (next_ip_tally i b n a) as_

  -- What the lock promises, of these two numbers.
  abbrev pub lock : (email_count ip_count : ℕ) → Result TooMany (Unit {0})
  lock m n =
      if leb config.max_per_email m
      then err too_many
      else if leb config.max_per_ip n
      then err too_many
      else ok tt

same_bucket : (x : Bool) (c d : ℕ) → (x && (c == d)) ≡ true → c ≡ d
same_bucket x c d h = ground arith

module _ (redis : Redis) (config : ThrottleConfig) where
  unfoldable pub recorded : redis.State → Attempt → redis.State
  recorded s (failed email ip at) = record_login_failure redis config all_up email ip at s
  recorded s (succeeded email at) = record_login_success redis config all_up email at s

  unfoldable pub recorded_all : redis.State → List Attempt → redis.State
  recorded_all s [] = s
  recorded_all s (a ∷ as_) = recorded_all (recorded s a) as_

  bumped-state : (r : Option ℕ × redis.State) → (bumped redis config r).1 ≡ r.1
  bumped-state (none, s) = refl
  bumped-state (some n, s) = refl

  -- One bump, seen at a counter: it counts where the key is the counter's own.
  bump-Counted :
      (k : Key) (b n : ℕ) (s : redis.State) (j : Key) (at : Millis) (same : Bool)
      → key_eq j k ≡ same
      → 0 < config.window_seconds
      → (key_eq j k ≡ true → bucket at config.window_seconds ≡ b)
      → Counted redis config.window_seconds k b s n
      → Counted redis config.window_seconds k b
          (bump redis config all_up s at j).1
          (if same then suc n else n)
  unfolding bump
  bump-Counted k b n s j at true e p q c =
      rw (bumped-state (hit redis all_up config.window_seconds s at j), key_eq-eq j k e)
        (hit-own redis config.window_seconds k b s n at p (q e) c).1
  bump-Counted k b n s j at false e p q c =
      rw (bumped-state (hit redis all_up config.window_seconds s at j)) (
        Counted-same redis config.window_seconds k b s _ n
          (hit-other redis config.window_seconds k b s j at e) c)

  del-Counted :
      (k : Key) (b n : ℕ) (s : redis.State) (j : Key) (same : Bool)
      → key_eq j k ≡ same
      → Counted redis config.window_seconds k b s n
      → Counted redis config.window_seconds k b (redis.del s j) (if same then 0 else n)
  del-Counted k b n s j true e c = rw (redis.entry-del s j k, e) refl
  del-Counted k b n s j false e c =
      Counted-same redis config.window_seconds k b s (redis.del s j) n
        (rw (redis.entry-del s j k, e) refl) c

  recorded-email :
      (e : String) (b n : ℕ) (s : redis.State) (a : Attempt)
      → 0 < config.window_seconds
      → Counted redis config.window_seconds (email_failures e b) b s n
      → Counted redis config.window_seconds
          (email_failures e b)
          b
          (recorded s a)
          (next_email_tally config e b n a)
  unfolding recorded record_login_failure record_login_success
  recorded-email e b n s (failed e' i at) p c =
      let k : Key = email_failures e b in
      let j : Key = email_key redis config e' at in
      bump-Counted k b _ (bump redis config all_up s at j).1 (ip_key redis config i at) at false
        refl p (λ h. cc)
        (bump-Counted k b n s j at (key_eq j k) refl p (λ h. same_bucket _ _ _ h) c)
  recorded-email e b n s (succeeded e' at) p c =
      let j : Key = email_key redis config e' at in
      del-Counted (email_failures e b) b n s j (key_eq j (email_failures e b)) refl c

  recorded-ip :
      (i : String) (b n : ℕ) (s : redis.State) (a : Attempt)
      → 0 < config.window_seconds
      → Counted redis config.window_seconds (ip_failures i b) b s n
      → Counted redis config.window_seconds
          (ip_failures i b)
          b
          (recorded s a)
          (next_ip_tally config i b n a)
  unfolding recorded record_login_failure record_login_success
  recorded-ip i b n s (failed e' i' at) p c =
      let k : Key = ip_failures i b in
      let j : Key = email_key redis config e' at in
      let s' = (bump redis config all_up s at j).1 in
      bump-Counted k b n s' (ip_key redis config i' at) at (key_eq (ip_key redis config i' at) k)
        refl p (λ h. same_bucket _ _ _ h) (bump-Counted k b n s j at false refl p (λ h. cc) c)
  recorded-ip i b n s (succeeded e' at) p c =
      del-Counted (ip_failures i b) b n s (email_key redis config e' at) false refl c

  recorded_all-email :
      (e : String) (b : ℕ) (as_ : List Attempt) (n : ℕ) (s : redis.State)
      → 0 < config.window_seconds
      → Counted redis config.window_seconds (email_failures e b) b s n
      → Counted redis config.window_seconds
          (email_failures e b)
          b
          (recorded_all s as_)
          (email_tally config e b n as_)
  unfolding recorded_all email_tally
  recorded_all-email e b [] n s p c = c
  recorded_all-email e b (a ∷ as_) n s p c =
      recorded_all-email e b as_ _ (recorded s a) p (recorded-email e b n s a p c)

  recorded_all-ip :
      (i : String) (b : ℕ) (as_ : List Attempt) (n : ℕ) (s : redis.State)
      → 0 < config.window_seconds
      → Counted redis config.window_seconds (ip_failures i b) b s n
      → Counted redis config.window_seconds
          (ip_failures i b)
          b
          (recorded_all s as_)
          (ip_tally config i b n as_)
  unfolding recorded_all ip_tally
  recorded_all-ip i b [] n s p c = c
  recorded_all-ip i b (a ∷ as_) n s p c =
      recorded_all-ip i b as_ _ (recorded s a) p (recorded-ip i b n s a p c)

  -- Whatever attempts of whatever addresses have been recorded, the counters implement the lock:
  -- an attempt is refused exactly where the failures of its address in the present window since
  -- the last success in it have reached the limit for an address, or the failures from its IP in
  -- the window have reached the limit for an IP. The two counters of the window were not there
  -- before, Redis answers every command, and the window is not empty.
  pub assert_login_allowed-lock :
      (email ip : String) (now : Millis) (s : redis.State) (as_ : List Attempt)
      → 0 < config.window_seconds
      → redis.entry s (email_key redis config email now) ≡ none
      → redis.entry s (ip_key redis config ip now) ≡ none
      → assert_login_allowed redis config all_up email ip now (recorded_all s as_)
        ≡ lock config
            (email_tally config (config.normalize email) (bucket now config.window_seconds) 0 as_)
            (ip_tally config ip (bucket now config.window_seconds) 0 as_)
  unfolding assert_login_allowed
  assert_login_allowed-lock email ip now s as_ p h g =
      let b : ℕ = bucket now config.window_seconds in
      let k : Key = email_key redis config email now in
      let j : Key = ip_key redis config ip now in
      let s' = recorded_all s as_ in
      rw
        (
          peek-Counted redis config.window_seconds k b s' _ now p refl
              (recorded_all-email (config.normalize email) b as_ 0 s p h),
          peek-Counted redis config.window_seconds j b s' _ now p refl
              (recorded_all-ip ip b as_ 0 s p g),
        )
        refl
