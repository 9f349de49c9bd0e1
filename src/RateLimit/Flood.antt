-- ===== src/RateLimit/Flood.antt =====
-- The flood limit when Redis fails between its two commands.
use socialhub.Prelude.{
  ℕ, suc, ◌+◌, ◌≤◌, ◌≡◌, refl, none, some, List, [], ◌∷◌, length, ltb, lt→ltb, if◌then◌else◌, arith,
  ◌==◌, true, false, String, ok, err, ◌∙◌,
}
use native.Mathlib.Numerals.{add-one}
use socialhub.Schema.{Millis}
use socialhub.RateLimit.{Key, flood, Redis, Net, all_up, hit, first_expiry, key_eq_refl}
use socialhub.RateLimit.Throttle.{ThrottleConfig, too_many, bump, not_flooding, assert_not_flooding}

-- Redis goes away between INCR and EXPIRE.
abbrev pub lost_expiry : Net
lost_expiry = record { incr_ok = true; expire_ok = false; get_ok = true; del_ok = true }

module _ (redis : Redis) (config : ThrottleConfig) (ip scope : String) where
  -- Calls from one IP, at any times.
  unfoldable pub calls : redis.State → List Millis → redis.State
  calls s [] = s
  calls s (at ∷ ats) = calls (assert_not_flooding redis config all_up ip scope at s).1 ats

  -- The counter holds `n` and has no expiry.
  abbrev Stuck : redis.State → ℕ → Type 0
  Stuck s n = redis.entry s (flood scope ip) ≡ some (record { count = n; expires_at = none })

  assert_not_flooding-Stuck :
      (s : redis.State) (n : ℕ) (at : Millis)
      → Stuck s (suc n)
      → ((assert_not_flooding redis config all_up ip scope at s).0
          ≡ (if ltb config.max_flood_per_ip (suc (suc n)) then err too_many else ok tt))
        × Stuck (assert_not_flooding redis config all_up ip scope at s).1 (suc (suc n))
  unfolding assert_not_flooding not_flooding bump hit first_expiry
  assert_not_flooding-Stuck s n at h =
      let k : Key = flood scope ip in
      let i : (redis.incr s at k).0 ≡ suc (suc n) = redis.incr_count s at k ∙ rw h (omega arith) in
      let d : (suc (suc n) == 1) ≡ false = ground arith in
      rw (i, d, redis.entry-incr s at k k, key_eq_refl k, h, add-one (suc n)) (refl, refl)

  calls-Stuck :
      (ats : List Millis) (s : redis.State) (n : ℕ)
      → Stuck s (suc n)
      → (m : ℕ) × (m ≡ n + length ats) × Stuck (calls s ats) (suc m)
  unfolding calls
  calls-Stuck [] s n h = (n, omega arith, h)
  calls-Stuck (at ∷ ats) s n h =
      let (m, e, r) = calls-Stuck ats _ (suc n) (assert_not_flooding-Stuck s n at h).1 in
      (m, omega (arith, e), r)

  lost_expiry-Stuck :
      (s : redis.State) (at : Millis)
      → redis.entry s (flood scope ip) ≡ none
      → Stuck (assert_not_flooding redis config lost_expiry ip scope at s).1 1
  unfolding assert_not_flooding not_flooding bump hit first_expiry
  lost_expiry-Stuck s at h =
      let k : Key = flood scope ip in
      let i : (redis.incr s at k).0 ≡ 1 = redis.incr_count s at k ∙ rw h refl in
      rw (i, redis.entry-incr s at k k, key_eq_refl k, h) refl

  -- Where Redis fails between the INCR and the EXPIRE of the first call from an IP, the counter is
  -- never given an expiry: once as many more calls have come as the limit is, every later call is
  -- refused, however much later it comes, though Redis answers again.
  pub assert_not_flooding_forever :
      (s : redis.State) (at : Millis) (ats : List Millis) (later : Millis)
      → redis.entry s (flood scope ip) ≡ none
      → config.max_flood_per_ip ≤ length ats
      → (assert_not_flooding redis config all_up ip scope later
          (calls (assert_not_flooding redis config lost_expiry ip scope at s).1 ats)).0
        ≡ err too_many
  assert_not_flooding_forever s at ats later h l =
      let (m, e, r) = calls-Stuck ats _ 0 (lost_expiry-Stuck s at h) in
      let (d, _) =
        assert_not_flooding-Stuck
          (calls (assert_not_flooding redis config lost_expiry ip scope at s).1 ats) m later r in
      d ∙ rw (lt→ltb config.max_flood_per_ip (suc (suc m)) (omega (arith, e, l))) refl
