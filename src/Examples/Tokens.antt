-- ===== src/Examples/Tokens.antt =====
-- Tokens of a jwt library that signs one set of claims with one key.
use safe_my_sqlmcp_server.Base.{
  Option, some, ℤ, ℕ, ◌+◌, ◌*◌, ◌/◌, ◌≤◌, ◌<◌, ltb, pos, Text, codes, text_eq, ◌&&◌, ◌==◌,
  text_eq_iff, Bool, true, [], ◌++◌, Option, none, some, inl, inr, ◌≡◌, ◌⊎◌, refl, arith,
  if◌then◌else◌,
}
use safe_my_sqlmcp_server.Config.{second}
use safe_my_sqlmcp_server.Auth.{
  hmac, Jwt, JwtResult, token, expired, failed, key_for, authenticate, admitted, refused,
  token_expired,
}
use safe_my_sqlmcp_server.Auth.Context.{
  IssuedClaims, generate_token, add_duration, context_with_user, get_user_id, get_user_email,
}
use safe_my_sqlmcp_server.Auth.Context.Tokens.{IsJwtLibrary, expiry, generate_token_admitted}
use safe_my_sqlmcp_server.Auth.Generator.{
  Flags, before_d, parse_duration, secret_of, make_token, main,
}
use safe_my_sqlmcp_server.Auth.Generator.Admitted.{main_admitted}
use safe_my_sqlmcp_server.Auth.{new_validator_from_env}
use safe_my_sqlmcp_server.Examples.Auth.{user, secret}

-- A library that signs one set of claims with one key.
abbrev issued : IssuedClaims
issued = record { user = user; issued_at = 5; expires_at = 5 + 2 * second }

abbrev pub signed : Text
signed = codes "h.c.s"

abbrev is_issued : IssuedClaims → Text → Bool
is_issued c key =
    text_eq c.user.user_id user.user_id
    && text_eq c.user.user_email user.user_email
    && c.expires_at == issued.expires_at
    && text_eq key secret

abbrev pub sign : IssuedClaims → Text → Text ⊎ Text
sign c key = if is_issued c key then inr signed else inl []

abbrev read_at : ℕ → Text → Option Text → JwtResult
read_at now t none = failed
read_at now t (some key) =
    if text_eq key secret && text_eq t signed
    then (if ltb now (expiry issued) then token user true else expired)
    else failed

abbrev pub jwt_at : ℕ → Jwt
jwt_at now t key_of = read_at now t (key_of hmac)

sign-is_issued :
    (c : IssuedClaims) (key t : Text)
    → sign c key ≡ inr t
    → (t ≡ signed) × (c.user ≡ user) × (expiry c ≡ expiry issued) × (key ≡ secret)
sign-is_issued c key t e =
    let (same, id, email, until, k) = parts in (same, same_user id email, rw until refl, k)
  where
    parts :
        (t ≡ signed)
        × (c.user.user_id ≡ user.user_id)
        × (c.user.user_email ≡ user.user_email)
        × (c.expires_at ≡ issued.expires_at)
        × (key ≡ secret)
    parts = ground (
      arith,
      text_eq_iff c.user.user_id user.user_id,
      text_eq_iff c.user.user_email user.user_email,
      text_eq_iff key secret,
    )

    same_user : c.user.user_id ≡ user.user_id → c.user.user_email ≡ user.user_email → c.user ≡ user
    same_user id email = cc (id, email)

pub jwt_at-IsJwtLibrary : IsJwtLibrary sign jwt_at
unfolding key_for
jwt_at-IsJwtLibrary = record {
  compact = λ c key t e.
      let (same, _, _, _) = sign-is_issued c key t e in rw same ((λ e. cc e), ground arith);
  valid = λ c key t now v e given early.
      let (same, claims, until, k) = sign-is_issued c key t e in
      ground (arith, text_eq_iff v.secret secret, text_eq_iff t signed);
  stale = λ c key t now v e given late.
      let (same, claims, until, k) = sign-is_issued c key t e in
      ground (arith, text_eq_iff v.secret secret, text_eq_iff t signed);
}

generate_token_admitted_example :
    let e : ℕ = add_duration 5 (pos (2 * second)) / second * second in
    let sent : Text = codes "Bearer " ++ signed in
    (6 < e
      → (authenticate (jwt_at 6) (record { secret = secret }) sent
          ≡ admitted user.user_id user.user_email)
        × (get_user_id (context_with_user [] user.user_id user.user_email) ≡ user.user_id)
        × (get_user_email (context_with_user [] user.user_id user.user_email) ≡ user.user_email))
    × (e ≤ 6 → authenticate (jwt_at 6) (record { secret = secret }) sent ≡ refused token_expired)
unfolding generate_token add_duration
generate_token_admitted_example =
    generate_token_admitted sign jwt_at (record { secret = secret }) 5 6 user.user_id
      user.user_email signed (pos (2 * second)) [] jwt_at-IsJwtLibrary refl

-- The flags of the command line tool, and durations that are always two seconds
abbrev flags : Flags
flags = record { user = user.user_id; email = user.user_email; expire = codes "2s"; secret = [] }

abbrev two_seconds : Text → Option ℤ
two_seconds s = some (pos (2 * second))

before_d_test : before_d (codes "365d") ≡ some (codes "365")
unfolding before_d
before_d_test = refl

main_admitted_example :
    (expire : ℤ) × (parse_duration two_seconds two_seconds flags.expire ≡ some expire)
    × (let e = add_duration 5 expire / second * second in
        let sent = codes "Bearer " ++ signed in
        (6 < e
          → authenticate (jwt_at 6) (record { secret = secret }) sent
            ≡ admitted flags.user flags.email)
        × (e ≤ 6
            → authenticate (jwt_at 6) (record { secret = secret }) sent ≡ refused token_expired))
unfolding main parse_duration before_d make_token secret_of generate_token add_duration
    new_validator_from_env
main_admitted_example =
    main_admitted two_seconds two_seconds sign jwt_at 5 6 secret (codes "other") flags
      (record { secret = secret }) signed jwt_at-IsJwtLibrary refl (λ e. cc e) refl refl
