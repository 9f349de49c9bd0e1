-- ===== src/Crypto/Base32/Typing.antt =====
-- Decoding what a person types back in.
use socialhub.Prelude.{
  ℕ, zero, suc, ◌+◌, ◌-◌, ◌/◌, ◌%◌, ◌^◌, ◌<◌, ◌≡◌, refl, Bool, true, false, Option, none, some,
  List, [], ◌∷◌, ◌++◌, ◌==◌, ◌&&◌, ltb, leb, if◌then◌else◌, Text, arith, All, Bool-cases, inl, inr,
  ap, not, Option-cases,
}
use mathlib.Core.List.{append-nil}
use socialhub.Crypto.Base32.{
  alphabet, char_at, index_of, shift_left, drain, encode_loop, base32_encode, is_space,
  strip_padding, strip_spaces, decode_loop, base32_decode,
}
use socialhub.Crypto.Base32.RoundTrip.{every_code, passes_test, decode-encode, p0}

abbrev pub IsCode : ℕ → Type 0
IsCode c = (i : ℕ) × (i < 32) × (c ≡ char_at alphabet i)

-- A text with white space put in anywhere.
pub data Spaced : Text → Text → Type 0 where
  done : Spaced [] []
  keep : (c : ℕ) {typed code : Text} → Spaced typed code → Spaced (c ∷ typed) (c ∷ code)
  skip :
      (c : ℕ) {typed code : Text} → is_space c ≡ true → Spaced typed code → Spaced (c ∷ typed) code

abbrev pub padding : ℕ → Text
padding zero = []
padding (suc n) = b'=' ∷ padding n

plain_table :
    every_code (λ i. not (char_at alphabet i == b'=') && not (is_space (char_at alphabet i))) 32
    ≡ true
unfolding every_code is_space
plain_table = refl

code-plain : (c : ℕ) → IsCode c → ((c == b'=') ≡ false) × (is_space c ≡ false)
code-plain c (i, lt, e) = rw e (
    both (char_at alphabet i == b'=') (is_space (char_at alphabet i))
      (passes_test _ i 32 lt plain_table))
  where
    both : (p q : Bool) → not p && not q ≡ true → (p ≡ false) × (q ≡ false)
    both true q h = cc
    both false true h = cc
    both false false h = (refl, refl)

space_unpadded : (c : ℕ) → is_space c ≡ true → (c == b'=') ≡ false
unfolding is_space
space_unpadded c h = ground arith

strip_padding-padding : (n : ℕ) → strip_padding (padding n) ≡ []
unfolding strip_padding
strip_padding-padding zero = refl
strip_padding-padding (suc n) = rw (strip_padding-padding n) refl

strip_padding-Spaced :
    {typed code : Text} (n : ℕ)
    → Spaced typed code
    → All IsCode code
    → strip_padding (typed ++ padding n) ≡ typed
unfolding strip_padding
strip_padding-Spaced n done h = strip_padding-padding n
strip_padding-Spaced n (keep c s) (is, h) =
    rw ((code-plain c is).0, strip_padding-Spaced n s h) refl
strip_padding-Spaced n (skip c space s) h =
    rw (space_unpadded c space, strip_padding-Spaced n s h) refl

pub strip_spaces-Spaced :
    {typed code : Text}
    → Spaced typed code
    → All (λ c. is_space c ≡ false) code
    → strip_spaces typed ≡ code
unfolding strip_spaces
strip_spaces-Spaced done h = refl
strip_spaces-Spaced (keep c s) (is, h) = rw (is, strip_spaces-Spaced s h) refl
strip_spaces-Spaced (skip c space s) h = rw (space, strip_spaces-Spaced s h) refl

All-unspaced : (code : Text) → All IsCode code → All (λ c. is_space c ≡ false) code
All-unspaced [] h = tt
All-unspaced (c ∷ cs) (is, h) = ((code-plain c is).1, All-unspaced cs h)

All-append : (xs ys : Text) → All IsCode xs → All IsCode ys → All IsCode (xs ++ ys)
All-append [] ys h k = k
All-append (x ∷ xs) ys (is, h) k = (is, All-append xs ys h k)

drain-IsCode : (fuel value bits : ℕ) → All IsCode (drain fuel value bits).0
unfolding drain
drain-IsCode zero value bits = tt
drain-IsCode (suc fuel) value bits = elim (Bool-cases (leb 5 bits)) [
  | inl e ↦
      rw e ((value / 2 ^ (bits - 5) % 32, omega arith, refl), drain-IsCode fuel value (bits - 5))
  | inr e ↦ rw e tt
]

encode_loop-IsCode : (bytes : List ℕ) (value bits : ℕ) → All IsCode (encode_loop bytes value bits)
unfolding encode_loop
encode_loop-IsCode [] value bits = elim (Bool-cases (ltb 0 bits)) [
  | inl e ↦ rw e ((shift_left value (5 - bits) % 32, omega arith, refl), tt)
  | inr e ↦ rw e tt
]
encode_loop-IsCode (x ∷ bytes) value bits =
    All-append _ _ (drain-IsCode 3 (shift_left value 8 + x) (bits + 8))
      (encode_loop-IsCode bytes _ _)

-- Whoever types an encoding back in gets the bytes: in capitals it must read as the encoding, with
-- white space anywhere, and then any number of `=` signs.
pub base32_decode-encode :
    (to_upper : Text → Text) (bytes : List ℕ) (input typed : Text) (n : ℕ)
    → All (λ b. b < 256) bytes
    → Spaced typed (base32_encode bytes)
    → to_upper input ≡ typed ++ padding n
    → base32_decode to_upper input ≡ some bytes
unfolding base32_decode base32_encode
base32_decode-encode to_upper bytes input typed n small s upper =
    let codes = encode_loop-IsCode bytes 0 0 in
    rw (upper, strip_padding-Spaced n s codes, strip_spaces-Spaced s (All-unspaced _ codes))
      (decode-encode p0 bytes 0 0 small)

never : (x y : Text) (b : Bool) → (if b && false then x else y) ≡ y
never x y true = refl
never x y false = refl

abbrev nothing : Option (List ℕ)
nothing = none

either_none : (b : Bool) → (if b then nothing else nothing) ≡ nothing
either_none true = refl
either_none false = refl

strip_padding-last :
    (t : Text) (c : ℕ) → (c == b'=') ≡ false → strip_padding (t ++ (c ∷ [])) ≡ t ++ (c ∷ [])
unfolding strip_padding
strip_padding-last [] c ne = rw ne refl
strip_padding-last (d ∷ []) c ne = rw ne (never _ _ (d == b'='))
strip_padding-last (d ∷ e ∷ t) c ne = rw (strip_padding-last (e ∷ t) c ne) (never _ _ (d == b'='))

strip_spaces-append : (t u : Text) → strip_spaces (t ++ u) ≡ strip_spaces t ++ strip_spaces u
unfolding strip_spaces
strip_spaces-append [] u = refl
strip_spaces-append (c ∷ t) u = elim (Bool-cases (is_space c)) [
  | inl e ↦ rw e (strip_spaces-append t u)
  | inr e ↦ rw e (ap (◌∷◌ c) (strip_spaces-append t u))
]

decode_loop-padded : (t : Text) (value bits : ℕ) → decode_loop (t ++ (b'=' ∷ [])) value bits ≡ none
unfolding decode_loop
decode_loop-padded [] value bits = refl
decode_loop-padded (c ∷ t) value bits = elim (Option-cases (index_of alphabet c)) [
  | inl e ↦ rw (decode_loop, e) refl
  | inr (idx, e) ↦ rw (decode_loop, e, decode_loop-padded t _ _) (either_none _)
]

-- White space behind the padding is another matter: the padding stays, and is refused.
pub padding_then_space :
    (to_upper : Text → Text) (input typed : Text) (c : ℕ)
    → is_space c ≡ true
    → to_upper input ≡ (typed ++ (b'=' ∷ [])) ++ (c ∷ [])
    → base32_decode to_upper input ≡ none
unfolding base32_decode
padding_then_space to_upper input typed c space upper =
    rw
      (
        upper,
        strip_padding-last (typed ++ (b'=' ∷ [])) c (space_unpadded c space),
        strip_spaces-append (typed ++ (b'=' ∷ [])),
        strip_spaces-append typed,
        space,
        append-nil,
      )
      (decode_loop-padded (strip_spaces typed) 0 0)
