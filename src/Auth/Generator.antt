-- ===== src/Auth/Generator.antt =====
-- pkg/token/main.go: the command line tool that makes a token. Its flags are arguments; the parsing of
-- durations by the library, the days read as a float, and the signing are parameters.
pub mod Admitted
use safe_my_sqlmcp_server.Base.{
  ℕ, ◌==◌, ℤ, Text, is_empty, Bool, true, false, [], ◌∷◌, Option, none, some, ◌⊎◌, inl, inr,
  if◌then◌else◌,
}
use safe_my_sqlmcp_server.Auth.Context.{IssuedClaims, generate_token}

-- The flags
pub record Flags : Type 0 where
  pub user : Text
  pub email : Text
  pub expire : Text
  pub secret : Text

pub data GeneratorError : Type 0 where
  no_user no_email bad_expire no_secret : GeneratorError
  not_signed : Text → GeneratorError

-- The text in front of a last `d`, if it ends in one
unfoldable pub before_d : Text → Option Text
before_d [] = none
before_d (c ∷ []) = if c == b'd' then some [] else none
before_d (c ∷ d ∷ s) = elim (before_d (d ∷ s)) [ none ↦ none | some t ↦ some (c ∷ t) ]

-- parseDuration; `parse_days` reads a number of days as nanoseconds
unfoldable pub parse_duration : (Text → Option ℤ) → (Text → Option ℤ) → Text → Option ℤ
unfolding before_d
parse_duration parse_days parse_std s = elim (before_d s) [
  | none ↦ parse_std s
  | some days ↦ parse_days days
]

-- `if jwtSecret == "" { jwtSecret = os.Getenv("JWT_SECRET") }`
unfoldable pub secret_of : Text → Flags → Text
secret_of env_secret flags = if is_empty flags.secret then env_secret else flags.secret

-- The end of main, with the duration that was read
unfoldable pub make_token :
    (IssuedClaims → Text → Text ⊎ Text) → ℕ → Text → Flags → ℤ → GeneratorError ⊎ Text
unfolding secret_of
make_token sign now env_secret flags expire =
    if is_empty (secret_of env_secret flags)
    then inl no_secret
    else elim (generate_token sign (record { secret = secret_of env_secret flags }) now flags.user
        flags.email expire) [ inl e ↦ inl (not_signed e) | inr t ↦ inr t ]

-- main: the token, or why there is none
unfoldable pub main :
    (Text → Option ℤ)
    → (Text → Option ℤ)
    → (IssuedClaims → Text → Text ⊎ Text)
    → ℕ
    → Text
    → Flags
    → GeneratorError ⊎ Text
unfolding parse_duration make_token
main parse_days parse_std sign now env_secret flags =
    if is_empty flags.user
    then inl no_user
    else if is_empty flags.email
    then inl no_email
    else elim (parse_duration parse_days parse_std flags.expire) [
      | none ↦ inl bad_expire
      | some expire ↦ make_token sign now env_secret flags expire
    ]
