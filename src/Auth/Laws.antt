-- ===== src/Auth/Laws.antt =====
-- internal/auth/jwt.go and the middleware of internal/server/http.go: which secrets a validator may
-- have, and whom the middleware admits.
use safe_my_sqlmcp_server.Base.{
  ◌≤◌, Text, length, is_empty, Bool, true, [], ◌∷◌, ◌++◌, Option, some, ◌≡◌, ◌≢◌, ◌↔◌, ◌⊎◌, subst,
  inl, inr, refl, arith, Bool-cases, Sum-cases,
}
use safe_my_sqlmcp_server.Auth.{
  Claims, Validator, Method, hmac, other, Jwt, token, key_for, claims_of, validate,
  new_validator_from_env, extract_token, authenticate, admitted, get_jwt_secret,
  validate_jwt_secret,
}
use safe_my_sqlmcp_server.Auth.Header.{IsBearer, extract_token_iff}

-- A validator is made exactly from a secret of at least 32 bytes: the one of the environment if that
-- is set, else the one of the configuration.
pub new_validator_iff :
    (env_secret config_secret secret : Text)
    → (new_validator_from_env env_secret config_secret ≡ inr (record { secret = secret })) ↔ (
        (((env_secret ≢ []) × (secret ≡ env_secret))
          ⊎ ((env_secret ≡ []) × (secret ≡ config_secret)))
        × (32 ≤ length secret))
unfolding new_validator_from_env get_jwt_secret validate_jwt_secret
new_validator_iff env_secret config_secret secret = ground arith

-- What the jwt library documents: it gives a token only after it has verified the signature with a key
-- that the function gave for the method of the token.
abbrev pub IsSound : (Method → Text → Text → Type 0) → Jwt → Type 0
IsSound Verifies jwt =
    (s : Text) (key_of : Method → Option Text) (claims : Claims) (valid : Bool)
    → jwt s key_of ≡ token claims valid
    → (m : Method) × (key : Text) × (key_of m ≡ some key) × Verifies m s key

validate-answer :
    (jwt : Jwt) (v : Validator) (s : Text) (claims : Claims)
    → validate jwt v s ≡ inr claims
    → (s ≢ []) × (jwt s (key_for v) ≡ token claims true)
unfolding validate claims_of
validate-answer jwt v s claims e = ground arith

key_for-hmac :
    (v : Validator) (m : Method) (key : Text)
    → key_for v m ≡ some key
    → (m ≡ hmac) × (key ≡ v.secret)
unfolding key_for
key_for-hmac v hmac key e = (refl, cc e)
key_for-hmac v (other m) key e = absurd (cc e)

-- A request passes the middleware only with a bearer token whose signature the library has verified,
-- by an HMAC method and with the secret of the validator, and it passes as the user and with the email
-- address that the claims of this token name. The library verifies a signature with a key that it was
-- given before it gives the claims.
pub authenticate-IsSigned :
    (Verifies : Method → Text → Text → Type 0) (jwt : Jwt) (v : Validator) (header id email : Text)
    → IsSound Verifies jwt
    → authenticate jwt v header ≡ admitted id email
    → (scheme : Text) × (t : Text) × (claims : Claims) × IsBearer scheme
      × (header ≡ scheme ++ 32 ∷ t)
      × Verifies hmac t v.secret
      × (jwt t (key_for v) ≡ token claims true)
      × (claims.user_id ≡ id)
      × (claims.user_email ≡ email)
unfolding authenticate
authenticate-IsSigned Verifies jwt v header id email sound e =
    let t = extract_token header in
    elim (Bool-cases (is_empty t)) [
      | inl nothing ↦ absurd (cc (rw (authenticate, nothing) at e))
      | inr something ↦ elim (Sum-cases (validate jwt v t)) [
        | inl (bad, invalid) ↦ absurd (cc (rw (authenticate, something, invalid) at e))
        | inr (claims, valid) ↦
            let passed : admitted claims.user_id claims.user_email ≡ admitted id email =
              rw (authenticate, something, valid) at e in
            let (some_token, answer) = validate-answer jwt v t claims valid in
            let (scheme, bearer, word, same) = (extract_token_iff header t some_token).0 refl in
            let (m, key, given, verified) = sound t (key_for v) claims true answer in
            let (by_hmac, secret) = key_for-hmac v m key given in
            (
              scheme,
              t,
              claims,
              bearer,
              same,
              subst (λ k. Verifies hmac t k) secret
                  (subst (λ method. Verifies method t key) by_hmac verified),
              answer,
              cc passed,
              cc passed,
            )
      ]
    ]
