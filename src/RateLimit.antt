-- ===== src/RateLimit.antt =====
-- Fixed-window counters in Redis, which the throttle of logins and the limit of an organization
-- share. Redis is a parameter: a store of counters that may expire, with the documented behaviour
-- of INCR, GET, EXPIRE and DEL as laws.
pub mod Memory
pub mod Throttle
pub mod Guard
pub mod Counting
pub mod Admission
pub mod Lockout
pub mod Flood
use socialhub.Prelude.{
  ℕ, suc, ◌+◌, ◌*◌, ◌/◌, String, ◌≡◌, Bool, true, false, Option, none, some, ◌==◌, ◌&&◌, ltb,
  if◌then◌else◌, ==_iff, arith, ==-refl,
}
use text.Mathlib.Text.{◌==◌ as str_eq}
use text.Mathlib.TextEquality.{eq_iff}
use text.Mathlib.TextPositions.{eq_refl}
use socialhub.Schema.{RowId, Millis}

-- The keys, one constructor for each template. The templates begin differently; a bucket is what
-- follows the last colon, and a scope is a word of the source without a colon.
pub data Key : Type 0 where
  -- authfail:email:<email>:<bucket>, authfail:ip:<ip>:<bucket>
  email_failures ip_failures : String → ℕ → Key
  -- authflood:<scope>:<ip>
  flood : String → String → Key
  -- ratelimit:org:<id>:<bucket>
  org_requests : RowId → ℕ → Key

abbrev pub key_eq : Key → Key → Bool
key_eq (email_failures e b) (email_failures e' b') = str_eq e e' && (b == b')
key_eq (ip_failures i b) (ip_failures i' b') = str_eq i i' && (b == b')
key_eq (flood s i) (flood s' i') = str_eq s s' && str_eq i i'
key_eq (org_requests o b) (org_requests o' b') = (o == o') && (b == b')
key_eq _ _ = false

-- A counter, and when it goes, if it has been told to.
pub record Counter : Type 0 where
  pub count : ℕ
  pub expires_at : Option Millis

abbrev pub is_live : Millis → Counter → Bool
is_live now c = elim c.expires_at [ none ↦ true | some at ↦ ltb now at ]

-- What GET reads of a counter, as a number: a missing one is 0.
abbrev pub live_count : Millis → Option Counter → ℕ
live_count now none = 0
live_count now (some c) = if is_live now c then c.count else 0

-- INCR keeps the expiry of a counter that is there, and starts a new one without.
abbrev pub incremented : Millis → Option Counter → Counter
incremented now none = record { count = 1; expires_at = none }
incremented now (some c) =
    if is_live now c
    then record c { count = c.count + 1 }
    else record { count = 1; expires_at = none }

abbrev pub set_expiry : Millis → Option Counter → Option Counter
set_expiry at none = none
set_expiry at (some c) = some (record c { expires_at = some at })

pub record Redis : Type 1 where
  pub State : Type 0
  pub entry : State → Key → Option Counter
  pub incr : State → Millis → Key → ℕ × State
  pub expire : State → (at : Millis) → Key → State
  pub del : State → Key → State
  pub incr_count :
      (s : State) (now : Millis) (k : Key) → (incr s now k).0 ≡ (incremented now (entry s k)).count
  pub entry-incr :
      (s : State) (now : Millis) (k j : Key)
      → entry (incr s now k).1 j
        ≡ (if key_eq k j then some (incremented now (entry s k)) else entry s j)
  pub entry-expire :
      (s : State) (at : Millis) (k j : Key)
      → entry (expire s at k) j ≡ (if key_eq k j then set_expiry at (entry s j) else entry s j)
  pub entry-del :
      (s : State) (k j : Key) → entry (del s k) j ≡ (if key_eq k j then none else entry s j)

-- Which commands of one call reach Redis: the others throw.
pub record Net : Type 0 where
  pub incr_ok : Bool
  pub expire_ok : Bool
  pub get_ok : Bool
  pub del_ok : Bool

abbrev pub all_up : Net
all_up = record { incr_ok = true; expire_ok = true; get_ok = true; del_ok = true }

-- Math.floor(Date.now() / 1000 / windowSeconds)
abbrev pub bucket : (now : Millis) (window_seconds : ℕ) → ℕ
bucket now window_seconds = now / 1000 / window_seconds

module _ (redis : Redis) where
  -- `peek`: 0 on any error.
  unfoldable pub peek : Net → redis.State → Millis → Key → ℕ
  peek net s now k = if net.get_ok then live_count now (redis.entry s k) else 0

  -- The TTL of a first hit. An EXPIRE that fails throws.
  unfoldable pub first_expiry : Net → (at : Millis) → Key → ℕ × redis.State → Option ℕ × redis.State
  first_expiry net at k (count, s) =
      if count == 1
      then if net.expire_ok then (some count, redis.expire s at k) else (none, s)
      else (some count, s)

  -- INCR and the first EXPIRE: the new count, or `none` where one of them throws.
  unfoldable pub hit :
      Net → (window_seconds : ℕ) → redis.State → Millis → Key → Option ℕ × redis.State
  unfolding first_expiry
  hit net window_seconds s now k =
      if net.incr_ok
      then first_expiry net (now + window_seconds * 1000) k (redis.incr s now k)
      else (none, s)

pub key_eq_refl : (k : Key) → key_eq k k ≡ true
key_eq_refl (email_failures e b) = ground (arith, eq_refl e)
key_eq_refl (ip_failures i b) = ground (arith, eq_refl i)
key_eq_refl (flood s i) = ground (arith, eq_refl s, eq_refl i)
key_eq_refl (org_requests o b) = ground arith

pub key_eq-eq : (k j : Key) → key_eq k j ≡ true → k ≡ j
key_eq-eq (email_failures e b) (email_failures e' b') h = ground (arith, eq_iff e e')
key_eq-eq (ip_failures e b) (ip_failures e' b') h = ground (arith, eq_iff e e')
key_eq-eq (flood s i) (flood s' i') h = ground (arith, eq_iff s s', eq_iff i i')
key_eq-eq (org_requests o b) (org_requests o' b') h = ground arith
key_eq-eq _ _ h = cc
