-- ===== src/Auth/IdToken.antt =====
-- backend/src/auth/google-auth.service.ts: the exchange of Google's code, and the claims of the id
-- token.
use socialhub.Prelude.{
  ℕ, String, Bool, true, false, not, Option, none, some, Result, ok, err, List, [], ◌∷◌, ◌==◌, ◌&&◌,
  ◌||◌, ◌*◌, ltb, if◌then◌else◌,
}
use text.Mathlib.Text.{◌==◌ as str_eq}
use socialhub.Schema.{Millis}

-- What is thrown: the 503, and the 401s by their message.
pub data GoogleError : Type 0 where
  not_configured state_refused not_completed not_verified linked_elsewhere ticket_refused :
      GoogleError

-- `boolean | string`, or absent.
pub data Flag : Type 0 where
  absent : Flag
  boolean : Bool → Flag
  word : String → Flag

-- GoogleIdTokenClaims.
pub record IdClaims : Type 0 where
  pub iss : Option String
  pub aud : Option String
  pub sub : Option String
  pub email : Option String
  pub email_verified : Flag
  pub exp : Option ℕ

-- The claims that are used: { sub, email }.
pub record Identity : Type 0 where
  pub sub : String
  pub email : String

-- The reply of Google's token endpoint: no reply, its status not ok, or a body.
pub data Reply : Type 0 where
  failed refused : Reply
  body : (id_token : Option String) → Reply

-- The configuration, and what the language, the signer of tokens and Google give.
pub record GooglePorts : Type 0 where
  pub client_id : Option String
  pub client_secret : Option String
  pub frontend_url : String
  pub fetch : (code : String) → Reply
  -- idToken.split('.'), and JSON.parse of the second part
  pub split : String → List String
  pub parse : String → Option IdClaims
  -- jwt.verifyAsync: the purpose in a valid token
  pub open_state : (now : Millis) → String → Option (Option String)
  -- .trim().toLowerCase()
  pub normalize : String → String
  pub encode_uri : String → String

-- A string that is there and not empty: what the language takes for true.
abbrev pub truthy : Option String → Option String
truthy none = none
truthy (some s) = if str_eq s "" then none else some s

abbrev pub is_truthy : Option String → Bool
is_truthy o = elim (truthy o) [ none ↦ false | some _ ↦ true ]

abbrev pub is_text : String → Option String → Bool
is_text s o = elim o [ none ↦ false | some t ↦ str_eq t s ]

-- VALID_ISSUERS.
abbrev pub issuer_ok : Option String → Bool
issuer_ok iss =
    is_truthy iss
    && (is_text "https://accounts.google.com" iss || is_text "accounts.google.com" iss)

-- A configuration without an id is refused before, so `aud` equals an id that is there.
abbrev pub audience_ok : (client_id aud : Option String) → Bool
audience_ok client_id aud = elim client_id [ none ↦ false | some id ↦ is_text id aud ]

abbrev pub not_expired : Option ℕ → Millis → Bool
not_expired none now = false
not_expired (some e) now = not (e == 0) && ltb now (e * 1000)

abbrev pub email_is_verified : Flag → Bool
email_is_verified absent = false
email_is_verified (boolean b) = b
email_is_verified (word t) = str_eq t "true"

module _ (google : GooglePorts) where
  abbrev pub enabled : Bool
  enabled = is_truthy google.client_id && is_truthy google.client_secret

  -- The claims that are enforced on an id token.
  unfoldable pub acceptable : IdClaims → (now : Millis) → Bool
  acceptable c now =
      (issuer_ok c.iss && audience_ok google.client_id c.aud)
      && (not_expired c.exp now && email_is_verified c.email_verified)

  unfoldable pub identified : IdClaims → Option String → Option String → Result GoogleError Identity
  identified c (some sub) (some email) = ok (record { sub = sub; email = google.normalize email })
  identified c _ _ = err not_verified

  unfoldable pub verified_claims : (now : Millis) → Option IdClaims → Result GoogleError Identity
  verified_claims now none = err not_verified
  verified_claims now (some c) =
      if acceptable c now then identified c (truthy c.sub) (truthy c.email) else err not_verified

  -- The payload of an id token has three parts.
  unfoldable pub decode_id_token : List String → Option IdClaims
  decode_id_token (header ∷ payload ∷ signature ∷ []) = google.parse payload
  decode_id_token _ = none

  unfoldable pub exchanged_code : (now : Millis) → Reply → Result GoogleError Identity
  exchanged_code now failed = err not_completed
  exchanged_code now refused = err not_completed
  exchanged_code now (body id_token) = elim (truthy id_token) [
    | none ↦ err not_completed
    | some t ↦ verified_claims now (decode_id_token (google.split t))
  ]

  unfoldable pub exchange_code_for_claims :
      (code : String) (now : Millis) → Result GoogleError Identity
  exchange_code_for_claims code now = exchanged_code now (google.fetch code)

  unfoldable pub verify_state : (state : String) (now : Millis) → Result GoogleError (Unit {0})
  verify_state state now = elim (google.open_state now state) [
    | none ↦ err state_refused
    | some purpose ↦ if is_text "google_oauth_state" purpose then ok tt else err state_refused
  ]
