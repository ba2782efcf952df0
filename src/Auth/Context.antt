-- ===== src/Auth/Context.antt =====
-- internal/auth/jwt.go: the user in the context of a request, and the tokens that a validator makes.
-- The signing of the jwt library is a parameter.
pub mod Tokens
use safe_my_sqlmcp_server.Base.{
  ℕ, suc, ◌+◌, ◌-◌, ℤ, pos, negsuc, Text, Bool, true, false, List, [], ◌∷◌, ◌⊎◌, if◌then◌else◌,
}
use safe_my_sqlmcp_server.Auth.{Claims, Validator}

-- The keys of the context
pub data ContextKey : Type 0 where
  user_id_key user_email_key : ContextKey

-- The values that were put into a context, the latest first
abbrev pub Context : Type 0
Context = List (ContextKey × Text)

-- ContextWithUser
unfoldable pub context_with_user : Context → Text → Text → Context
context_with_user ctx user_id user_email =
    (user_email_key, user_email) ∷ (user_id_key, user_id) ∷ ctx

-- GetUserID
unfoldable pub get_user_id : Context → Text
get_user_id [] = []
get_user_id ((user_id_key, id) ∷ ctx) = id
get_user_id ((user_email_key, email) ∷ ctx) = get_user_id ctx

-- GetUserEmail
unfoldable pub get_user_email : Context → Text
get_user_email [] = []
get_user_email ((user_id_key, id) ∷ ctx) = get_user_email ctx
get_user_email ((user_email_key, email) ∷ ctx) = email

-- `time.Now().Add(d)`, in nanoseconds
unfoldable pub add_duration : ℕ → ℤ → ℕ
add_duration now (pos d) = now + d
add_duration now (negsuc d) = now - suc d

-- The claims of a new token
pub record IssuedClaims : Type 0 where
  pub user : Claims
  pub issued_at : ℕ
  pub expires_at : ℕ

-- (*Validator).GenerateToken, with `SignedString` for HS256: a token or an error
unfoldable pub generate_token :
    (IssuedClaims → Text → Text ⊎ Text) → Validator → ℕ → Text → Text → ℤ → Text ⊎ Text
unfolding add_duration
generate_token sign v now user_id email expiration =
    sign
      (record {
        user = record { user_id = user_id; user_email = email };
        issued_at = now;
        expires_at = add_duration now expiration;
      })
      v.secret
