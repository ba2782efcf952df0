-- ===== src/Auth/Context/Tokens.antt =====
-- internal/auth/jwt.go and the middleware of internal/server/http.go: a token that a validator made is
-- admitted until it expires.
use safe_my_sqlmcp_server.Base.{
  ℕ, ◌*◌, ◌/◌, ◌≤◌, ◌<◌, ℤ, Text, codes, true, some, ◌⊎◌, inl, inr, [], ◌∷◌, ◌++◌, ◌≡◌, ◌≢◌, refl,
  to_upper,
}
use safe_my_sqlmcp_server.Config.{second}
use safe_my_sqlmcp_server.Auth.{
  Validator, hmac, Jwt, JwtResult, Admission, token, expired, token_expired, key_for, claims_of,
  validate, extract_token, authenticate, refused, admitted,
}
use safe_my_sqlmcp_server.Auth.Header.{IsWord, extract_token_iff}
use safe_my_sqlmcp_server.Auth.Context.{
  Context, context_with_user, get_user_id, get_user_email, add_duration, IssuedClaims,
  generate_token,
}

-- The second of the expiry that stands in a token, and the library's clock before it
abbrev pub expiry : IssuedClaims → ℕ
expiry c = c.expires_at / second * second

-- What the jwt library documents of the tokens that it signs by HMAC, at a time: a token is three
-- parts of base64url with dots between them, so it is not empty and has no space; given the key that
-- it was signed with, the library gives its claims before the second in which it expires, and reports
-- it as expired from then on.
pub record IsJwtLibrary (sign : IssuedClaims → Text → Text ⊎ Text) (jwt_at : ℕ → Jwt) : Type 0 where
  pub compact : (c : IssuedClaims) (secret t : Text) → sign c secret ≡ inr t → (t ≢ []) × IsWord t
  pub valid :
      (c : IssuedClaims) (secret t : Text) (now : ℕ) (v : Validator)
      → sign c secret ≡ inr t
      → key_for v hmac ≡ some secret
      → now < expiry c
      → jwt_at now t (key_for v) ≡ token c.user true
  pub stale :
      (c : IssuedClaims) (secret t : Text) (now : ℕ) (v : Validator)
      → sign c secret ≡ inr t
      → key_for v hmac ≡ some secret
      → expiry c ≤ now
      → jwt_at now t (key_for v) ≡ expired

-- The admission that an answer of the library leads to
abbrev admission_of : JwtResult → Admission
admission_of answer = elim (claims_of answer) [
  | inl e ↦ refused e
  | inr claims ↦ admitted claims.user_id claims.user_email
]

authenticate-answer :
    (jwt : Jwt) (v : Validator) (header t : Text) (answer : JwtResult)
    → extract_token header ≡ t
    → t ≢ []
    → jwt t (key_for v) ≡ answer
    → authenticate jwt v header ≡ admission_of answer
unfolding authenticate validate
authenticate-answer jwt v header [] answer extracted some_token told = absurd (some_token refl)
authenticate-answer jwt v header (c ∷ t) answer extracted some_token told =
    rw (authenticate, extracted, validate, told) refl

-- A token that a validator generates, sent as a bearer token, is admitted by the middleware as the user
-- and with the email address that it was generated for, up to the second in which it expires, and the
-- context that the tools get names these two; from then on it is refused as expired. The jwt library
-- treats the tokens that it signed as it documents.
pub generate_token_admitted :
    (sign : IssuedClaims → Text → Text ⊎ Text) (jwt_at : ℕ → Jwt) (v : Validator) (now later : ℕ)
    (id email t : Text) (expiration : ℤ) (ctx : Context)
    → IsJwtLibrary sign jwt_at
    → generate_token sign v now id email expiration ≡ inr t
    → let e = add_duration now expiration / second * second in
      let header = codes "Bearer " ++ t in
      (later < e
        → (authenticate (jwt_at later) v header ≡ admitted id email)
          × (get_user_id (context_with_user ctx id email) ≡ id)
          × (get_user_email (context_with_user ctx id email) ≡ email))
      × (e ≤ later → authenticate (jwt_at later) v header ≡ refused token_expired)
unfolding generate_token get_user_id get_user_email context_with_user claims_of key_for to_upper
generate_token_admitted sign jwt_at v now later id email t expiration ctx library made =
    let issued : IssuedClaims = record {
      user = record { user_id = id; user_email = email };
      issued_at = now;
      expires_at = add_duration now expiration;
    } in
    let header : Text = codes "Bearer " ++ t in
    let (some_token, word) = library.compact issued v.secret t made in
    let extracted = (extract_token_iff header t some_token).1 (codes "Bearer", refl, word, refl) in
    (
      (λ early. (
        authenticate-answer (jwt_at later) v header t (token issued.user true) extracted some_token
            (library.valid issued v.secret t later v made refl early),
        refl,
        refl,
      )),
      (λ late.
          authenticate-answer (jwt_at later) v header t expired extracted some_token
            (library.stale issued v.secret t later v made refl late)),
    )
