-- ===== src/Crypto/Base32.antt =====
-- backend/src/common/crypto/base32.util.ts: bytes as text of 32 characters. A text is the list of
-- its character codes, and `none` is the exception of a character outside the alphabet.
pub mod RoundTrip
pub mod Typing
use socialhub.Prelude.{
  ℕ, zero, suc, ◌+◌, ◌-◌, ◌*◌, ◌/◌, ◌%◌, ◌^◌, Bool, true, false, Option, none, some, List, [], ◌∷◌,
  ◌++◌, ◌==◌, ◌&&◌, ◌||◌, ltb, leb, if◌then◌else◌, Text, codes,
}
use mathlib.Core.Option

-- ALPHABET
abbrev pub alphabet : Text
alphabet = codes "ABCDEFGHIJKLMNOPQRSTUVWXYZ234567"

abbrev pub char_at : Text → ℕ → ℕ
char_at [] i = 0
char_at (c ∷ cs) zero = c
char_at (c ∷ cs) (suc i) = char_at cs i

-- indexOf, with -1 as `none`.
abbrev pub index_of : Text → ℕ → Option ℕ
index_of [] c = none
index_of (d ∷ cs) c = if d == c then some 0 else Option.map suc (index_of cs c)

-- `v << k` on 32 bits.
abbrev pub shift_left : ℕ → ℕ → ℕ
shift_left v k = v * 2 ^ k % 2 ^ 32

-- The inner loop: `fuel` rounds at most, with the bits that are left.
unfoldable pub drain : (fuel value bits : ℕ) → Text × ℕ
drain zero value bits = ([], bits)
drain (suc fuel) value bits =
    let rest = drain fuel value (bits - 5) in
    if leb 5 bits
    then (char_at alphabet (value / 2 ^ (bits - 5) % 32) ∷ rest.0, rest.1)
    else ([], bits)

-- The outer loop. A byte is below 256, so that `|` adds it; three rounds drain 12 bits at most.
unfoldable pub encode_loop : List ℕ → (value bits : ℕ) → Text
unfolding drain
encode_loop [] value bits =
    if ltb 0 bits then char_at alphabet (shift_left value (5 - bits) % 32) ∷ [] else []
encode_loop (byte ∷ buffer) value bits =
    let value' = shift_left value 8 + byte in
    let (out, bits') = drain 3 value' (bits + 8) in out ++ encode_loop buffer value' bits'

unfoldable pub base32_encode : List ℕ → Text
unfolding encode_loop
base32_encode buffer = encode_loop buffer 0 0

-- `\s`
unfoldable pub is_space : ℕ → Bool
is_space c =
    (leb 9 c && leb c 13)
    || (c == 32
        || (c == 160
            || (c == 5760
                || ((leb 8192 c && leb c 8202)
                    || (c == 8232
                        || (c == 8233
                            || (c == 8239 || (c == 8287 || (c == 12288 || c == 65279)))))))))

abbrev pub is_empty : Text → Bool
is_empty [] = true
is_empty (c ∷ cs) = false

-- replace(/=+$/g, '')
unfoldable pub strip_padding : Text → Text
strip_padding [] = []
strip_padding (c ∷ cs) =
    let rest = strip_padding cs in if (c == b'=') && is_empty rest then [] else c ∷ rest

-- replace(/\s+/g, '')
unfoldable pub strip_spaces : Text → Text
unfolding is_space
strip_spaces [] = []
strip_spaces (c ∷ cs) = let rest = strip_spaces cs in if is_space c then rest else c ∷ rest

unfoldable pub decode_loop : Text → (value bits : ℕ) → Option (List ℕ)
decode_loop [] value bits = some []
decode_loop (c ∷ cs) value bits = elim (index_of alphabet c) [
  | none ↦ none
  | some idx ↦
      let value' = shift_left value 5 + idx in
      let bits' = bits + 5 in
      let full = leb 8 bits' in
      let rest = decode_loop cs value' (if full then bits' - 8 else bits') in
      if full then Option.map (◌∷◌ (value' / 2 ^ (bits' - 8) % 256)) rest else rest
]

-- `to_upper` is the language's toUpperCase.
unfoldable pub base32_decode : (to_upper : Text → Text) → Text → Option (List ℕ)
unfolding strip_padding strip_spaces decode_loop
base32_decode to_upper input = decode_loop (strip_spaces (strip_padding (to_upper input))) 0 0
