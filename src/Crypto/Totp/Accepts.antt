-- ===== src/Crypto/Totp/Accepts.antt =====
-- A code that was generated at one time, verified at another.
use socialhub.Prelude.{
  ℕ, zero, suc, ◌+◌, ◌-◌, ◌*◌, ◌/◌, ◌^◌, ◌<◌, ◌≤◌, ◌≡◌, refl, Bool, true, false, Option, none, some,
  List, [], ◌∷◌, Text, length, All, arith, Bool-cases, inl, inr, lt→ltb, le→leb, ◌==◌, ==_iff, sym,
  ◌∙◌, ap, subst,
}
use native.Mathlib.Nat.{mod-lt, one-le-pow}
use mathlib.Core.Path.{ap₂, subst}
use socialhub.Crypto.Base32.{base32_decode, is_space}
use socialhub.Crypto.Base32.Typing.{Spaced, strip_spaces-Spaced}
use socialhub.Crypto.Totp.{
  TotpPorts, TotpOptions, code_at, hotp, candidate, accepts, try_window, try_key, generate_totp,
  verify_totp, text_eq, is_empty,
}
use socialhub.Crypto.Totp.Codes.{
  IsDigit, IsNumericCode, pad_start-IsNumericCode, all_digits-IsDigit,
}

text_eq_refl : (t : Text) → text_eq t t ≡ true
text_eq_refl [] = refl
text_eq_refl (c ∷ cs) = ground (arith, text_eq_refl cs)

digit_unspaced : (c : ℕ) → IsDigit c → is_space c ≡ false
unfolding is_space
digit_unspaced c h = ground arith

All-digits-unspaced : (code : Text) → All IsDigit code → All (λ c. is_space c ≡ false) code
All-digits-unspaced [] h = tt
All-digits-unspaced (c ∷ cs) (is, h) = (digit_unspaced c is, All-digits-unspaced cs h)

nonempty : (code : Text) (d : ℕ) → length code ≡ suc d → is_empty code ≡ false
nonempty [] d h = absurd (omega arith)
nonempty (c ∷ cs) d h = refl

missing : {P : Type 0} {code : Text} → none ≡ some code → P
missing h = absurd (ground arith)

module _ (ports : TotpPorts) (o : TotpOptions) (key : List ℕ) where
  code_at-IsNumericCode :
      (counter d : ℕ) → IsNumericCode (suc d) (code_at ports key counter (suc d))
  unfolding code_at
  code_at-IsNumericCode counter d =
      pad_start-IsNumericCode d _ (mod-lt _ (one-le-pow (suc d) 10 (omega arith)))

  hotp-IsNumericCode :
      (counter d : ℕ) (code : Text)
      → hotp ports key counter (suc d) ≡ some code
      → (counter < 2 ^ 64) × (code ≡ code_at ports key counter (suc d))
  unfolding hotp
  hotp-IsNumericCode counter d code h = (ground arith, ground arith)

  candidate-some :
      (counter i : ℕ)
      → o.window ≤ counter + i
      → counter + i < 2 ^ 64
      → candidate ports o key counter i ≡ some (code_at ports key (counter + i - o.window) o.digits)
  unfolding candidate hotp
  candidate-some counter i low high =
      rw (le→leb _ _ low, lt→ltb (counter + i - o.window) (2 ^ 64) (omega arith)) refl

  accepts_first :
      (token : Text) (candidate : Option Text) (rest : Option Bool)
      → candidate ≡ some token
      → accepts ports candidate token rest ≡ some true
  accepts_first token candidate rest e = rw (e, text_eq_refl) refl

  accepts_later :
      (token : Text) (candidate : Option Text) (rest : Option Bool) (code : Text)
      → candidate ≡ some code
      → rest ≡ some true
      → accepts ports candidate token rest ≡ some true
  accepts_later token candidate rest code e later = ground (arith, e, later)

  try_window-finds :
      (counter : ℕ) (token : Text) (rounds i j : ℕ)
      → o.window ≤ counter
      → counter + i + rounds ≤ 2 ^ 64
      → i ≤ j
      → j < i + rounds
      → candidate ports o key counter j ≡ some token
      → try_window ports o key counter token rounds i ≡ some true
  unfolding try_window
  try_window-finds counter token zero i j low high from to hit = absurd (omega arith)
  try_window-finds counter token (suc rounds) i j low high from to hit =
      elim (Bool-cases (i == j)) [
        | inl e ↦ accepts_first token _ _ (rw ((==_iff i j).0 e) hit)
        | inr e ↦ accepts_later token _ _ _ (candidate-some counter i (omega arith) (omega arith)) (
            try_window-finds counter token rounds (i + 1) j low (omega arith) (ground arith)
              (omega arith) hit)
      ]

  -- The windows of the two moments, from the start of the later one's.
  verify_key :
      (code : Text) (c counter d : ℕ)
      → o.digits ≡ suc d
      → hotp ports key c o.digits ≡ some code
      → c ≤ counter + o.window
      → counter ≤ c + o.window
      → o.window ≤ counter
      → counter + 2 * o.window < 2 ^ 64
      → (IsNumericCode (suc d) code)
        × (try_window ports o key counter code (2 * o.window + 1) 0 ≡ some true)
  verify_key code c counter d e h early late low high =
      let (below, is) =
        hotp-IsNumericCode c d code (subst (λ n. hotp ports key c n ≡ some code) e h) in
      (
        subst (IsNumericCode (suc d)) (sym is) (code_at-IsNumericCode c d),
        try_window-finds counter code (2 * o.window + 1) 0 (c + o.window - counter) low
            (omega arith) (omega arith) (omega arith)
            (candidate-some counter (c + o.window - counter) (omega arith) (omega arith)
              ∙ ap some (ap₂ (code_at ports key) (omega arith) e ∙ sym is)),
      )

module _ (ports : TotpPorts) (o : TotpOptions) where
  -- A code that is generated for a secret is accepted for that secret, with white space put in
  -- anywhere, at every moment whose time step is at most a window away from the code's (and not
  -- within a window of the epoch, or of the end of the 64-bit counter).
  pub verify_totp-generate_totp :
      (secret typed code : Text) (time now : ℕ)
      → 0 < o.digits
      → generate_totp ports o secret time ≡ some code
      → Spaced typed code
      → time / o.step ≤ now / o.step + o.window
      → now / o.step ≤ time / o.step + o.window
      → o.window ≤ now / o.step
      → now / o.step + 2 * o.window < 2 ^ 64
      → verify_totp ports o secret typed now ≡ some true
  unfolding verify_totp generate_totp try_key
  verify_totp-generate_totp secret typed code time now some_digit generated s early late low high =
      decoded (base32_decode ports.to_upper secret) refl
    where
      decoded :
          (key : Option (List ℕ))
          → base32_decode ports.to_upper secret ≡ key
          → verify_totp ports o secret typed now ≡ some true
      decoded none e = missing (rw (e, generate_totp) at generated)
      decoded (some key) e =
          let (is, hit) =
            verify_key ports o key code (time / o.step) (now / o.step) (o.digits - 1) (omega arith)
              (rw (e, generate_totp) at generated) early late low high in
          let fits : (length code == o.digits) ≡ true = ground (arith, is.1) in
          rw
            (
              strip_spaces-Spaced s (All-digits-unspaced code is.0),
              all_digits-IsDigit code is.0,
              nonempty code (o.digits - 1) is.1,
              fits,
              verify_totp,
              e,
            )
            hit
