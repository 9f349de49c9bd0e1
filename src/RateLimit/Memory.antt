-- ===== src/RateLimit/Memory.antt =====
-- Redis in memory, a function from keys to counters: what the laws of the interface allow.
use socialhub.Prelude.{Option, none, refl, if◌then◌else◌}
use socialhub.RateLimit.{Key, key_eq, Counter, incremented, set_expiry, Redis}

abbrev pub memory : Redis
memory = record {
  State = Key → Option Counter;
  entry = λ s k. s k;
  incr = λ s now k. (
    (incremented now (s k)).count,
    λ j. if key_eq k j then Option.some (incremented now (s k)) else s j,
  );
  expire = λ s at k j. if key_eq k j then set_expiry at (s j) else s j;
  del = λ s k j. if key_eq k j then none else s j;
  incr_count = λ s now k. refl;
  entry-incr = λ s now k j. refl;
  entry-expire = λ s at k j. refl;
  entry-del = λ s k j. refl;
}

abbrev pub nothing_stored : Key → Option Counter
nothing_stored _ = none
