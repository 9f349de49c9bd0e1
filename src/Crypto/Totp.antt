-- ===== src/Crypto/Totp.antt =====
-- backend/src/common/crypto/totp.util.ts: time-based one-time passwords. `none` is an exception.
pub mod Codes
pub mod Accepts
use socialhub.Prelude.{
  ℕ, zero, suc, ◌+◌, ◌-◌, ◌*◌, ◌/◌, ◌%◌, ◌^◌, Bool, true, false, Option, none, some, List, [], ◌∷◌,
  ◌++◌, ◌==◌, ◌&&◌, ltb, leb, if◌then◌else◌, Text, length, not, codes,
}
use mathlib.Core.Option
use socialhub.Crypto.Base32.{base32_decode, strip_spaces, is_empty}

-- What the platform gives: HMAC-SHA1 of a message under a key, and toUpperCase.
pub record TotpPorts : Type 0 where
  pub hmac_sha1 : (key message : List ℕ) → List ℕ
  pub to_upper : Text → Text

-- The options, with the defaults of the code.
pub record TotpOptions : Type 0 where
  pub step : ℕ
  pub digits : ℕ
  pub window : ℕ

abbrev pub default_options : TotpOptions
default_options = record { step = 30; digits = 6; window = 1 }

-- A byte out of range reads as 0, as `undefined & 0xff` does.
abbrev pub byte_at : List ℕ → ℕ → ℕ
byte_at [] i = 0
byte_at (b ∷ bytes) zero = b
byte_at (b ∷ bytes) (suc i) = byte_at bytes i

-- writeBigUInt64BE of eight bytes.
unfoldable pub counter_buffer : ℕ → List ℕ
counter_buffer c =
    c / 2 ^ 56 % 256
    ∷ c / 2 ^ 48 % 256
    ∷ c / 2 ^ 40 % 256
    ∷ c / 2 ^ 32 % 256
    ∷ c / 2 ^ 24 % 256
    ∷ c / 2 ^ 16 % 256
    ∷ c / 2 ^ 8 % 256
    ∷ c % 256
    ∷ []

-- The four bytes at the offset, without the sign bit.
unfoldable pub truncate : List ℕ → ℕ
truncate hmac =
    let offset = byte_at hmac (length hmac - 1) % 16 in
    byte_at hmac offset % 128 * 2 ^ 24
    + byte_at hmac (offset + 1) % 256 * 2 ^ 16
    + byte_at hmac (offset + 2) % 256 * 2 ^ 8
    + byte_at hmac (offset + 3) % 256

-- toString() of a number, with `n` rounds of fuel, which are enough: each takes a digit off.
unfoldable pub decimal_loop : (fuel n : ℕ) → Text
decimal_loop zero n = (b'0' + n % 10) ∷ []
decimal_loop (suc fuel) n =
    let rest = decimal_loop fuel (n / 10) in
    if ltb n 10 then (b'0' + n) ∷ [] else rest ++ ((b'0' + n % 10) ∷ [])

unfoldable pub decimal : ℕ → Text
unfolding decimal_loop
decimal n = decimal_loop n n

abbrev pub zeros : ℕ → Text
zeros zero = []
zeros (suc n) = b'0' ∷ zeros n

-- padStart(width, '0')
unfoldable pub pad_start : (width : ℕ) → Text → Text
pad_start width text = zeros (width - length text) ++ text

abbrev pub is_digit : ℕ → Bool
is_digit c = leb b'0' c && leb c b'9'

abbrev pub all_digits : Text → Bool
all_digits [] = true
all_digits (c ∷ cs) = is_digit c && all_digits cs

-- constantTimeEquals
abbrev pub text_eq : Text → Text → Bool
text_eq [] [] = true
text_eq (c ∷ cs) (d ∷ ds) = (c == d) && text_eq cs ds
text_eq _ _ = false

module _ (ports : TotpPorts) where
  unfoldable pub code_at : (key : List ℕ) (counter digits : ℕ) → Text
  unfolding counter_buffer truncate pad_start decimal
  code_at key counter digits =
      pad_start digits
        (decimal (truncate (ports.hmac_sha1 key (counter_buffer counter)) % 10 ^ digits))

  -- The counter must fit 64 bits.
  unfoldable pub hotp : (key : List ℕ) (counter digits : ℕ) → Option Text
  unfolding code_at
  hotp key counter digits = if ltb counter (2 ^ 64) then some (code_at key counter digits) else none

  unfoldable pub generate_totp : TotpOptions → (secret : Text) (time : ℕ) → Option Text
  generate_totp o secret time = elim (base32_decode ports.to_upper secret) [
    | none ↦ none
    | some key ↦ hotp key (time / o.step) o.digits
  ]

  -- The code `i` steps after the start of the window; a negative counter is out of range.
  unfoldable pub candidate : TotpOptions → (key : List ℕ) (counter i : ℕ) → Option Text
  candidate o key counter i =
      if leb o.window (counter + i) then hotp key (counter + i - o.window) o.digits else none

  abbrev pub accepts : Option Text → Text → Option Bool → Option Bool
  accepts none token rest = none
  accepts (some code) token rest = if text_eq code token then some true else rest

  -- The loop over the offsets, with the rounds that are left.
  unfoldable pub try_window :
      TotpOptions → (key : List ℕ) (counter : ℕ) (token : Text) (rounds i : ℕ) → Option Bool
  try_window o key counter token zero i = some false
  try_window o key counter token (suc rounds) i =
      let rest = try_window o key counter token rounds (i + 1) in
      accepts (candidate o key counter i) token rest

  abbrev pub try_key : TotpOptions → (time : ℕ) (token : Text) → Option (List ℕ) → Option Bool
  unfolding try_window
  try_key o time token none = some false
  try_key o time token (some key) = try_window o key (time / o.step) token (2 * o.window + 1) 0

  unfoldable pub verify_totp : TotpOptions → (secret token : Text) (time : ℕ) → Option Bool
  unfolding try_key
  verify_totp o secret token time =
      let normalized = strip_spaces token in
      if all_digits normalized && (not (is_empty normalized) && (length normalized == o.digits))
      then try_key o time normalized (base32_decode ports.to_upper secret)
      else some false
