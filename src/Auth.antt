-- ===== src/Auth.antt =====
-- internal/auth/jwt.go and the authentication middleware of internal/server/http.go. The jwt library
-- and the environment are parameters.
pub mod Header
pub mod Laws
pub mod Context
pub mod Generator
use safe_my_sqlmcp_server.Base.{
  ℕ, ltb, leb, ◌==◌, Text, codes, length, is_empty, equal_fold, Bool, true, false, not, ◌&&◌, List,
  [], ◌∷◌, ◌++◌, Option, none, some, ◌⊎◌, inl, inr, if◌then◌else◌,
}

-- Claims; the registered claims are read by the library only.
pub record Claims : Type 0 where
  pub user_id : Text
  pub user_email : Text

pub data AuthError : Type 0 where
  missing_token invalid_token token_expired : AuthError
  secret_not_configured : AuthError
  secret_too_short : ℕ → AuthError

-- Validator
pub record Validator : Type 0 where
  pub secret : Text

-- Where a secret comes from.
pub data Source : Type 0 where
  env config : Source

-- GetJWTSecret, with the value of the environment variable, empty if it is not set
unfoldable pub get_jwt_secret : Text → Text → AuthError ⊎ Text × Source
get_jwt_secret env_secret config_secret =
    if not (is_empty env_secret)
    then inr (env_secret, env)
    else if not (is_empty config_secret)
    then inr (config_secret, config)
    else inl secret_not_configured

abbrev pub min_jwt_secret_length : ℕ
min_jwt_secret_length = 32

-- ValidateJWTSecret
unfoldable pub validate_jwt_secret : Text → Option AuthError
validate_jwt_secret secret =
    if ltb (length secret) min_jwt_secret_length
    then some (secret_too_short (length secret))
    else none

-- NewValidatorFromEnv
unfoldable pub new_validator_from_env : Text → Text → AuthError ⊎ Validator
unfolding get_jwt_secret validate_jwt_secret
new_validator_from_env env_secret config_secret = elim (get_jwt_secret env_secret config_secret) [
  | inl e ↦ inl e
  | inr (secret, source) ↦ elim (validate_jwt_secret secret) [
    | some e ↦ inl e
    | none ↦ inr (record { secret = secret })
  ]
]

-- The signing method that a token names.
pub data Method : Type 0 where
  hmac : Method
  other : Text → Method

-- What the library gives for a token: an error, which may be that the token has expired, or the claims
-- and whether it is valid. It asks a function for the key, by the method; `none` is an error.
pub data JwtResult : Type 0 where
  expired failed : JwtResult
  token : Claims → Bool → JwtResult

abbrev pub Jwt : Type 0
Jwt = Text → (Method → Option Text) → JwtResult

-- The function that Validate gives to the library.
unfoldable pub key_for : Validator → Method → Option Text
key_for v hmac = some v.secret
key_for v (other m) = none

-- What Validate makes of the library's answer.
unfoldable pub claims_of : JwtResult → AuthError ⊎ Claims
claims_of expired = inl token_expired
claims_of failed = inl invalid_token
claims_of (token claims valid) = if valid then inr claims else inl invalid_token

-- (*Validator).Validate
unfoldable pub validate : Jwt → Validator → Text → AuthError ⊎ Claims
unfolding key_for claims_of
validate jwt v s = if is_empty s then inl missing_token else claims_of (jwt s (key_for v))

-- `strings.Split(s, " ")`, with the part read so far
unfoldable pub split_from : Text → Text → List Text
split_from cur [] = cur ∷ []
split_from cur (c ∷ s) = elim (c == 32) [
  | true ↦ cur ∷ split_from [] s
  | false ↦ split_from (cur ++ c ∷ []) s
]

-- The parts of a header of a scheme and a token
unfoldable pub bearer_token : List Text → Text
bearer_token (scheme ∷ credentials ∷ []) =
    if equal_fold scheme (codes "bearer") then credentials else []
bearer_token _ = []

-- ExtractToken
unfoldable pub extract_token : Text → Text
unfolding split_from bearer_token
extract_token header = if is_empty header then [] else bearer_token (split_from [] header)

-- How the middleware answers: it refuses with 401, or passes the user on.
pub data Admission : Type 0 where
  refused : AuthError → Admission
  admitted : Text → Text → Admission

-- (*Server).authMiddleware, up to the call of the next handler
unfoldable pub authenticate : Jwt → Validator → Text → Admission
authenticate jwt v header =
    if is_empty (extract_token header)
    then refused missing_token
    else elim (validate jwt v (extract_token header)) [
      | inl e ↦ refused e
      | inr claims ↦ admitted claims.user_id claims.user_email
    ]
