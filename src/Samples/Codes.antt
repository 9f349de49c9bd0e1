-- ===== src/Samples/Codes.antt =====
-- Base32 and one-time passwords on short texts.
use socialhub.Crypto.Base32.{
  base32_encode, base32_decode, encode_loop, drain, is_space, strip_padding, strip_spaces,
  decode_loop,
}
use socialhub.Crypto.Base32.Typing.{keep, skip, done, base32_decode-encode}
use socialhub.Crypto.Totp.{
  TotpPorts, default_options, generate_totp, verify_totp, hotp, code_at, counter_buffer, truncate,
  pad_start, decimal, decimal_loop,
}
use socialhub.Crypto.Totp.Accepts.{verify_totp-generate_totp}
use socialhub.Prelude.{
  ℕ, refl, ◌≡◌, ◌-◌, some, [], ◌∷◌, List, map, arith, Text, codes, leb, ◌&&◌, if◌then◌else◌, true,
}

abbrev upper : ℕ → ℕ
upper c = if leb b'a' c && leb c b'z' then c - 32 else c

abbrev to_upper : Text → Text
to_upper t = map upper t

-- "foo", which base32 writes as MZXW6.
abbrev foo : List ℕ
foo = 102 ∷ 111 ∷ 111 ∷ []

base32_decode-encode_example : base32_decode to_upper (codes "mzxw 6===") ≡ some foo
unfolding base32_encode encode_loop drain is_space
base32_decode-encode_example =
    base32_decode-encode to_upper foo (codes "mzxw 6===") (codes "MZXW 6") 3 (omega arith)
      (keep _ (keep _ (keep _ (keep _ (skip b' ' refl (keep _ done)))))) refl

-- A hash that is always the same twenty bytes.
abbrev pub totp_ports : TotpPorts
totp_ports = record {
  hmac_sha1 = λ key message.
      0 ∷ 0 ∷ 0 ∷ 7 ∷ 5 ∷ 6 ∷ 7 ∷ 8 ∷ 9 ∷ 10 ∷ 11 ∷ 12 ∷ 13 ∷ 14 ∷ 15 ∷ 16 ∷ 17 ∷ 18 ∷ 19 ∷ 0 ∷ [];
  to_upper = to_upper;
}

-- Made in one step of thirty seconds, and typed in the next.
verify_totp-generate_totp_example :
    verify_totp totp_ports default_options (codes "mzxw6") (codes "000 007") 125 ≡ some true
unfolding generate_totp base32_decode strip_padding strip_spaces decode_loop hotp code_at
    counter_buffer truncate pad_start decimal decimal_loop is_space
verify_totp-generate_totp_example =
    verify_totp-generate_totp totp_ports default_options (codes "mzxw6") (codes "000 007")
      (codes "000007") 100 125 (omega arith) refl
      (keep _ (keep _ (keep _ (skip b' ' refl (keep _ (keep _ (keep _ done))))))) (omega arith)
      (omega arith) (omega arith) (omega arith)
