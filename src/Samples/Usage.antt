-- ===== src/Samples/Usage.antt =====
-- An organization with three generations in the window and an allowance of two.
use socialhub.Prelude.{refl, ◌≡◌, some, [], ◌∷◌, List, arith}
use socialhub.Schema.{Millis}
use socialhub.Plans.Quota.{metered, used_up, allowed, resolve_reset_at}
use socialhub.Plans.Reset.{IsAscending, reset_at_exact}

abbrev usage : List Millis
usage = 100 ∷ 200 ∷ 300 ∷ []

sorted : IsAscending usage
sorted = ((omega arith, (omega arith, tt)), ((omega arith, tt), (tt, tt)))

reset_at_exact_example :
    ((again : Millis) × (metered usage 2592000200 (some 2) ≡ used_up 2 again))
    × (metered usage 2592000201 (some 2) ≡ allowed)
unfolding metered resolve_reset_at
reset_at_exact_example = reset_at_exact usage 400 2 2592000200 sorted (omega arith) refl
