-- ===== src/Crypto/Base32/RoundTrip.antt =====
-- Decoding the output of the encoder, by the bits that wait on either side.
use socialhub.Prelude.{
  ℕ, zero, suc, ◌+◌, ◌-◌, ◌*◌, ◌/◌, ◌%◌, ◌^◌, ◌<◌, ◌≤◌, ◌≡◌, refl, Bool, true, false, Option, none,
  some, List, [], ◌∷◌, ◌==◌, ◌&&◌, leb, Text, arith, All, le→leb, ap, ◌∙◌,
}
use socialhub.Crypto.Base32.{
  alphabet, char_at, index_of, shift_left, drain, encode_loop, decode_loop,
}

-- A test that every code below a count passes, which is decided by running it.
unfoldable pub every_code : (test : ℕ → Bool) (count : ℕ) → Bool
every_code test zero = true
every_code test (suc i) = every_code test i && test i

pub passes_test :
    (test : ℕ → Bool) (i count : ℕ) → i < count → every_code test count ≡ true → test i ≡ true
unfolding every_code
passes_test test i zero small h = absurd (omega (arith, small))
passes_test test i (suc count) small h = ground (arith, passes_test test i count)

holds : Option ℕ → ℕ → Bool
holds none i = false
holds (some j) i = j == i

holds-eq : (o : Option ℕ) (i : ℕ) → holds o i ≡ true → o ≡ some i
unfolding holds
holds-eq none i h = cc
holds-eq (some j) i h = ground arith

index_table : every_code (λ i. holds (index_of alphabet (char_at alphabet i)) i) 32 ≡ true
unfolding every_code holds
index_table = refl

index_of-char_at : (i : ℕ) → i < 32 → index_of alphabet (char_at alphabet i) ≡ some i
index_of-char_at i h = holds-eq _ i (passes_test _ i 32 h index_table)

-- The bits that wait in the encoder, and the pending byte of a decoder that has read its output.
pub data Phase : Type 0 where
  p0 p1 p2 p3 p4 : Phase

abbrev pub encoder_bits : Phase → ℕ
encoder_bits p0 = 0
encoder_bits p1 = 1
encoder_bits p2 = 2
encoder_bits p3 = 3
encoder_bits p4 = 4

abbrev pub decoder_bits : Phase → ℕ
decoder_bits p0 = 0
decoder_bits p1 = 7
decoder_bits p2 = 6
decoder_bits p3 = 5
decoder_bits p4 = 4

abbrev pub pending : Phase → (v w : ℕ) → List ℕ → List ℕ
pending p0 v w bytes = bytes
pending p1 v w bytes = (w % 128 * 2 + v % 2) ∷ bytes
pending p2 v w bytes = (w % 64 * 4 + v % 4) ∷ bytes
pending p3 v w bytes = (w % 32 * 8 + v % 8) ∷ bytes
pending p4 v w bytes = (w % 16 * 16 + v % 16) ∷ bytes

below_eight : (bits : ℕ) → bits < 3 → leb 8 (bits + 5) ≡ false
below_eight bits h = ground arith

-- One character into the decoder: it waits, or it completes a byte.
waits :
    (i w bits : ℕ) (cs : Text) (out : List ℕ)
    → i < 32
    → bits < 3
    → decode_loop cs (shift_left w 5 + i) (bits + 5) ≡ some out
    → decode_loop (char_at alphabet i ∷ cs) w bits ≡ some out
unfolding decode_loop
waits i w bits cs out lt small h = rw (decode_loop, index_of-char_at i lt, below_eight bits small) h

completes :
    (i w bits b : ℕ) (cs : Text) (out : List ℕ)
    → i < 32
    → 3 ≤ bits
    → (shift_left w 5 + i) / 2 ^ (bits + 5 - 8) % 256 ≡ b
    → decode_loop cs (shift_left w 5 + i) (bits + 5 - 8) ≡ some out
    → decode_loop (char_at alphabet i ∷ cs) w bits ≡ some (b ∷ out)
unfolding decode_loop
completes i w bits b cs out lt large e h =
    rw (decode_loop, index_of-char_at i lt, le→leb 8 (bits + 5) (omega arith), h, e) refl

pub decode-encode :
    (p : Phase) (bytes : List ℕ) (v w : ℕ)
    → All (λ b. b < 256) bytes
    → decode_loop (encode_loop bytes v (encoder_bits p)) w (decoder_bits p)
      ≡ some (pending p v w bytes)
unfolding encode_loop drain
decode-encode p0 [] v w h = unfold decode_loop in refl
decode-encode p1 [] v w h =
    completes (shift_left v 4 % 32) w 7 _ [] [] (omega arith) (omega arith) (omega arith)
      (unfold decode_loop in refl)
decode-encode p2 [] v w h =
    completes (shift_left v 3 % 32) w 6 _ [] [] (omega arith) (omega arith) (omega arith)
      (unfold decode_loop in refl)
decode-encode p3 [] v w h =
    completes (shift_left v 2 % 32) w 5 _ [] [] (omega arith) (omega arith) (omega arith)
      (unfold decode_loop in refl)
decode-encode p4 [] v w h =
    completes (shift_left v 1 % 32) w 4 _ [] [] (omega arith) (omega arith) (omega arith)
      (unfold decode_loop in refl)
decode-encode p0 (x ∷ bytes) v w (lt, h) =
    let v' = shift_left v 8 + x in
    let i = v' / 2 ^ 3 % 32 in
    waits i w 0 _ _ (omega arith) (omega arith)
      (decode-encode p3 bytes v' (shift_left w 5 + i) h ∙ ap (λ b. some (b ∷ bytes)) (omega arith))
decode-encode p1 (x ∷ bytes) v w (lt, h) =
    let v' = shift_left v 8 + x in
    let i = v' / 2 ^ 4 % 32 in
    completes i w 7 _ _ _ (omega arith) (omega arith) (omega arith)
      (decode-encode p4 bytes v' (shift_left w 5 + i) h ∙ ap (λ b. some (b ∷ bytes)) (omega arith))
decode-encode p2 (x ∷ bytes) v w (lt, h) =
    let v' = shift_left v 8 + x in
    let i = v' / 2 ^ 5 % 32 in
    let j = v' / 2 ^ 0 % 32 in
    let w' = shift_left w 5 + i in
    completes i w 6 _ _ _ (omega arith) (omega arith) (omega arith) (
      completes j w' 3 _ _ _ (omega arith) (omega arith) (omega arith)
        (decode-encode p0 bytes v' (shift_left w' 5 + j) h))
decode-encode p3 (x ∷ bytes) v w (lt, h) =
    let v' = shift_left v 8 + x in
    let i = v' / 2 ^ 6 % 32 in
    let j = v' / 2 ^ 1 % 32 in
    let w' = shift_left w 5 + i in
    completes i w 5 _ _ _ (omega arith) (omega arith) (omega arith) (
      waits j w' 2 _ _ (omega arith) (omega arith) (
        decode-encode p1 bytes v' (shift_left w' 5 + j) h
        ∙ ap (λ b. some (b ∷ bytes)) (omega arith)))
decode-encode p4 (x ∷ bytes) v w (lt, h) =
    let v' = shift_left v 8 + x in
    let i = v' / 2 ^ 7 % 32 in
    let j = v' / 2 ^ 2 % 32 in
    let w' = shift_left w 5 + i in
    completes i w 4 _ _ _ (omega arith) (omega arith) (omega arith) (
      waits j w' 1 _ _ (omega arith) (omega arith) (
        decode-encode p2 bytes v' (shift_left w' 5 + j) h
        ∙ ap (λ b. some (b ∷ bytes)) (omega arith)))
