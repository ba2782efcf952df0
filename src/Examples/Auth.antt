-- ===== src/Examples/Auth.antt =====
-- Headers, secrets and a library that accepts one token.
use safe_my_sqlmcp_server.Base.{
  Text, codes, text_eq, true, [], ◌∷◌, ◌++◌, some, none, inl, inr, ◌≡◌, ◌↔◌, refl, if◌then◌else◌,
  Option, Bool, Bool-cases,
}
use safe_my_sqlmcp_server.Auth.{
  Claims, Method, Jwt, JwtResult, token, failed, hmac, Validator, extract_token,
}
use safe_my_sqlmcp_server.Auth.Header.{IsBearer, IsWord, extract_token_iff}
use safe_my_sqlmcp_server.Auth.Laws.{IsSound}

abbrev pub secret : Text
secret = codes "0123456789abcdef0123456789abcdef"

abbrev unset : Text
unset = []

abbrev pub validator : Validator
validator = record { secret = secret }

abbrev pub user : Claims
user = record { user_id = codes "u1"; user_email = codes "u1@example.com" }

-- A library that accepts a token if it is the key.
abbrev pub Verifies : Method → Text → Text → Type 0
Verifies m s key = text_eq s key ≡ true

abbrev answer_for : Text → Option Text → JwtResult
answer_for s none = failed
answer_for s (some key) = if text_eq s key then token user true else failed

abbrev pub jwt : Jwt
jwt s key_of = answer_for s (key_of hmac)

answer_for_sound :
    (s : Text) (given : Option Text) (claims : Claims) (valid : Bool)
    → answer_for s given ≡ token claims valid
    → (key : Text) × (given ≡ some key) × (text_eq s key ≡ true)
answer_for_sound s none claims valid e = absurd (cc e)
answer_for_sound s (some key) claims valid e = elim (Bool-cases (text_eq s key)) [
  | inl same ↦ (key, refl, same)
  | inr other ↦ absurd (cc (rw other at e))
]

pub jwt-IsSound : IsSound Verifies jwt
jwt-IsSound s key_of claims valid e =
    let (key, given, same) = answer_for_sound s (key_of hmac) claims valid e in
    (hmac, key, given, same)

abbrev pub header : Text
header = codes "bearer 0123456789abcdef0123456789abcdef"

extract_token_iff_example :
    (extract_token header ≡ secret)
    ↔ ((scheme : Text) × IsBearer scheme × IsWord secret × (header ≡ scheme ++ 32 ∷ secret))
extract_token_iff_example = extract_token_iff header secret (λ e. cc e)
