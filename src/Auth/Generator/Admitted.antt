-- ===== src/Auth/Generator/Admitted.antt =====
-- pkg/token/main.go and internal/auth/jwt.go: a token of the command line tool lets its user in.
use safe_my_sqlmcp_server.Base.{
  ℕ, ◌*◌, ◌/◌, ◌≤◌, ◌<◌, ℤ, Text, codes, is_empty, [], ◌++◌, Option, some, ◌⊎◌, inl, inr, ◌≡◌, ◌≢◌,
  sym, refl, Bool-cases, Sum-cases, Option-cases, subst,
}
use safe_my_sqlmcp_server.Config.{second}
use safe_my_sqlmcp_server.Auth.{
  Validator, Jwt, new_validator_from_env, authenticate, refused, admitted, token_expired,
}
use safe_my_sqlmcp_server.Auth.Laws.{new_validator_iff}
use safe_my_sqlmcp_server.Auth.Context.{IssuedClaims, add_duration, generate_token}
use safe_my_sqlmcp_server.Auth.Context.Tokens.{IsJwtLibrary, generate_token_admitted}
use safe_my_sqlmcp_server.Auth.Generator.{
  Flags, GeneratorError, parse_duration, secret_of, make_token, main,
}

make_token-generate_token :
    (sign : IssuedClaims → Text → Text ⊎ Text) (now : ℕ) (env_secret : Text) (flags : Flags)
    (expire : ℤ) (t : Text)
    → make_token sign now env_secret flags expire ≡ inr t
    → generate_token sign
        (record { secret = secret_of env_secret flags })
        now
        flags.user
        flags.email
        expire
      ≡ inr t
unfolding make_token
make_token-generate_token sign now env_secret flags expire t e =
    let key = secret_of env_secret flags in
    elim (Bool-cases (is_empty key)) [
      | inl missing ↦ absurd (cc (rw (make_token, missing) at e))
      | inr there ↦
          elim (Sum-cases
            (generate_token sign (record { secret = key }) now flags.user flags.email expire)) [
              | inl (bad, failed) ↦ absurd (cc (rw (make_token, there, failed) at e))
              | inr (u, signed) ↦
                  let same : ◌≡◌ {A = GeneratorError ⊎ Text} (inr u) (inr t) =
                    rw (make_token, there, signed) at e in
                  let text : u ≡ t = cc same in rw (signed, text) refl
            ]
    ]

of_env :
    (env_secret config_secret : Text) (v : Validator)
    → env_secret ≢ []
    → new_validator_from_env env_secret config_secret ≡ inr v
    → v.secret ≡ env_secret
of_env env_secret config_secret v set e =
    elim ((new_validator_iff env_secret config_secret v.secret).0 e).0 [
      | inl (_, same) ↦ same
      | inr (missing, _) ↦ absurd (set missing)
    ]

module _ (parse_days parse_std : Text → Option ℤ) (sign : IssuedClaims → Text → Text ⊎ Text) where
  main-make_token :
      (now : ℕ) (env_secret : Text) (flags : Flags) (t : Text)
      → main parse_days parse_std sign now env_secret flags ≡ inr t
      → (expire : ℤ) × (parse_duration parse_days parse_std flags.expire ≡ some expire)
        × (make_token sign now env_secret flags expire ≡ inr t)
  unfolding main
  main-make_token now env_secret flags t e = elim (Bool-cases (is_empty flags.user)) [
    | inl nobody ↦ absurd (cc (rw (main, nobody) at e))
    | inr user ↦ elim (Bool-cases (is_empty flags.email)) [
      | inl nowhere ↦ absurd (cc (rw (main, user, nowhere) at e))
      | inr email ↦ elim (Option-cases (parse_duration parse_days parse_std flags.expire)) [
        | inl bad ↦ absurd (cc (rw (main, user, email, bad) at e))
        | inr (expire, read) ↦ (expire, read, rw (main, user, email, read) at e)
      ]
    ]
  ]

  -- A token that the tool made without the flag of the secret, where the environment has the secret, is
  -- admitted by a server that is set up in the same environment, whatever secret its configuration has,
  -- as the user and with the email address of the flags, until the second in which it expires; from
  -- then on it is refused as expired. The jwt library treats the tokens that it signed as it documents.
  pub main_admitted :
      (jwt_at : ℕ → Jwt) (now later : ℕ) (env_secret config_secret : Text) (flags : Flags)
      (v : Validator) (t : Text)
      → IsJwtLibrary sign jwt_at
      → flags.secret ≡ []
      → env_secret ≢ []
      → new_validator_from_env env_secret config_secret ≡ inr v
      → main parse_days parse_std sign now env_secret flags ≡ inr t
      → (expire : ℤ) × (parse_duration parse_days parse_std flags.expire ≡ some expire)
        × (let e = add_duration now expire / second * second in
            let header = codes "Bearer " ++ t in
            (later < e → authenticate (jwt_at later) v header ≡ admitted flags.user flags.email)
            × (e ≤ later → authenticate (jwt_at later) v header ≡ refused token_expired))
  unfolding secret_of
  main_admitted jwt_at now later env_secret config_secret flags v t library unset set server made =
      let (expire, read, rest) = main-make_token now env_secret flags t made in
      let key : secret_of env_secret flags ≡ v.secret =
        rw unset (sym (of_env env_secret config_secret v set server)) in
      let signed : generate_token sign v now flags.user flags.email expire ≡ inr t =
        subst
          (λ s.
            generate_token sign (record { secret = s }) now flags.user flags.email expire ≡ inr t)
          key (make_token-generate_token sign now env_secret flags expire t rest) in
      let (early, late) =
        generate_token_admitted sign jwt_at v now later flags.user flags.email t expire [] library
          signed in
      (expire, read, ((λ h. (early h).0), late))
