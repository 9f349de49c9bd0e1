-- ===== src/Crypto/Totp/Codes.antt =====
-- The shape of a code: as many decimal digits as are asked for.
use socialhub.Prelude.{
  ℕ, zero, suc, ◌+◌, ◌-◌, ◌*◌, ◌/◌, ◌^◌, ◌<◌, ◌≤◌, ◌≡◌, refl, true, [], ◌∷◌, ◌++◌, ltb, Text,
  length, All, arith, length-append, Bool-cases, inl, inr, ltb→lt, lt→ltb, ap,
}
use native.Mathlib.Nat.{pow-suc}
use socialhub.Crypto.Totp.{decimal_loop, decimal, zeros, pad_start, all_digits}

abbrev pub IsDigit : ℕ → Type 0
IsDigit c = (b'0' ≤ c) × (c ≤ b'9')

pub All-IsDigit-append : (xs ys : Text) → All IsDigit xs → All IsDigit ys → All IsDigit (xs ++ ys)
All-IsDigit-append [] ys h k = k
All-IsDigit-append (x ∷ xs) ys (is, h) k = (is, All-IsDigit-append xs ys h k)

decimal_loop-IsDigit : (fuel n : ℕ) → All IsDigit (decimal_loop fuel n)
unfolding decimal_loop
decimal_loop-IsDigit zero n = ((omega arith, omega arith), tt)
decimal_loop-IsDigit (suc fuel) n = elim (Bool-cases (ltb n 10)) [
  | inl e ↦ rw e ((omega arith, omega (arith, ltb→lt n 10 e)), tt)
  | inr e ↦
      rw e (
        All-IsDigit-append _ _ (decimal_loop-IsDigit fuel (n / 10))
          ((omega arith, omega arith), tt))
]

-- The number that a text of digits stands for.
abbrev value_from : ℕ → Text → ℕ
value_from acc [] = acc
value_from acc (c ∷ cs) = value_from (acc * 10 + (c - b'0')) cs

value_from-append :
    (acc : ℕ) (xs ys : Text) → value_from acc (xs ++ ys) ≡ value_from (value_from acc xs) ys
value_from-append acc [] ys = refl
value_from-append acc (x ∷ xs) ys = value_from-append (acc * 10 + (x - b'0')) xs ys

-- The fuel is enough: the text reads as the number.
decimal_loop-value : (fuel n : ℕ) → n ≤ fuel → value_from 0 (decimal_loop fuel n) ≡ n
unfolding decimal_loop
decimal_loop-value zero n h = omega arith
decimal_loop-value (suc fuel) n h = elim (Bool-cases (ltb n 10)) [
  | inl e ↦ rw e (omega arith)
  | inr e ↦ rw (e, value_from-append, decimal_loop-value fuel (n / 10) (omega arith)) (omega arith)
]

tenth : (n d : ℕ) → n < 10 ^ suc (suc d) → n / 10 < 10 ^ suc d
tenth n d h = omega (arith, pow-suc 10 (suc d))

length-decimal_loop :
    (fuel n digits : ℕ) → n < 10 ^ suc digits → length (decimal_loop fuel n) ≤ suc digits
unfolding decimal_loop
length-decimal_loop zero n digits h = omega arith
length-decimal_loop (suc fuel) n zero h = rw (lt→ltb n 10 h) (omega arith)
length-decimal_loop (suc fuel) n (suc d) h = elim (Bool-cases (ltb n 10)) [
  | inl e ↦ rw e (omega arith)
  | inr e ↦ rw (e, length-append) (omega (arith, length-decimal_loop fuel (n / 10) d (tenth n d h)))
]

zeros-IsDigit : (n : ℕ) → All IsDigit (zeros n)
zeros-IsDigit zero = tt
zeros-IsDigit (suc n) = ((omega arith, omega arith), zeros-IsDigit n)

length-zeros : (n : ℕ) → length (zeros n) ≡ n
length-zeros zero = refl
length-zeros (suc n) = ap suc (length-zeros n)

-- A padded number below `10 ^ digits` has just that many digits.
abbrev pub IsNumericCode : ℕ → Text → Type 0
IsNumericCode digits code = All IsDigit code × (length code ≡ digits)

pub pad_start-IsNumericCode :
    (digits n : ℕ)
    → n < 10 ^ suc digits
    → IsNumericCode (suc digits) (pad_start (suc digits) (decimal n))
unfolding pad_start decimal
pad_start-IsNumericCode digits n h = (
  All-IsDigit-append _ _ (zeros-IsDigit _) (decimal_loop-IsDigit n n),
  rw (length-append, length-zeros) (omega (arith, length-decimal_loop n n digits h)),
)

pub all_digits-IsDigit : (code : Text) → All IsDigit code → all_digits code ≡ true
all_digits-IsDigit [] h = refl
all_digits-IsDigit (c ∷ cs) (is, h) = ground (arith, all_digits-IsDigit cs h)
