-- ===== src/Config/Loading/Expansion.antt =====
-- internal/config/config.go, expandEnv: what is replaced and what is not.
use safe_my_sqlmcp_server.Base.{
  ℕ, suc, ◌+◌, Text, length, length-append, All, true, [], ◌∷◌, ◌++◌, append_assoc, none, some, ◌≡◌,
  ◌≢◌, ◌∙◌, ◌⊎◌, inr, ap, refl, arith,
}
use safe_my_sqlmcp_server.Config.Loading.{before_brace, match_variable, expand_from, expand_env}

-- No byte of the text is `k`.
abbrev pub Lacks : ℕ → Text → Type 0
Lacks k s = All (λ c. c ≢ k) s

-- No `${` stands in the text.
abbrev pub HasNoOpening : Text → Type 0
HasNoOpening [] = Unit
HasNoOpening (c ∷ []) = Unit
HasNoOpening (c ∷ d ∷ s) = ((c ≢ b'$') ⊎ (d ≢ b'{')) × HasNoOpening (d ∷ s)

no_opening : (c d : ℕ) (s : Text) → (c ≢ b'$') ⊎ (d ≢ b'{') → match_variable (c ∷ d ∷ s) ≡ none
unfolding match_variable
no_opening c d s h = ground (arith, h)

no_brace : (c : ℕ) (s : Text) → Lacks b'{' s → match_variable (c ∷ s) ≡ none
unfolding match_variable
no_brace c [] h = refl
no_brace c (d ∷ s) (other, h) = ground arith

expand_from-plain : (getenv : Text → Text) (s : Text) → Lacks b'{' s → expand_from getenv 0 s ≡ s
unfolding expand_from
expand_from-plain getenv [] h = refl
expand_from-plain getenv (c ∷ s) (other, h) =
    rw (expand_from, no_brace c s h) (ap (λ t. c ∷ t) (expand_from-plain getenv s h))

expand_from-before :
    (getenv : Text → Text) (s t : Text)
    → HasNoOpening s
    → expand_from getenv 0 (s ++ b'$' ∷ t) ≡ s ++ expand_from getenv 0 (b'$' ∷ t)
unfolding expand_from
expand_from-before getenv [] t h = refl
expand_from-before getenv (c ∷ []) t h =
    rw (expand_from, no_opening c b'$' t (inr (λ e. ground arith))) refl
expand_from-before getenv (c ∷ d ∷ s) t (other, h) =
    rw (expand_from, no_opening c d (s ++ b'$' ∷ t) other)
      (ap (λ t. c ∷ t) (expand_from-before getenv (d ∷ s) t h))

expand_from-skip :
    (getenv : Text → Text) (s t : Text)
    → expand_from getenv (length s) (s ++ t) ≡ expand_from getenv 0 t
unfolding expand_from
expand_from-skip getenv [] t = refl
expand_from-skip getenv (c ∷ s) t = expand_from-skip getenv s t

before_brace-name :
    (name t : Text) → Lacks b'}' name → before_brace (name ++ b'}' ∷ t) ≡ (name, true)
unfolding before_brace
before_brace-name [] t h = refl
before_brace-name (c ∷ name) t (other, h) = ground (arith, before_brace-name name t h)

match_variable-name :
    (name t : Text)
    → name ≢ []
    → Lacks b'}' name
    → match_variable (b'$' ∷ b'{' ∷ (name ++ b'}' ∷ t)) ≡ some name
unfolding match_variable
match_variable-name [] t named h = absurd (named refl)
match_variable-name (c ∷ name) t named h = ground (arith, before_brace-name (c ∷ name) t h)

-- Behind a replaced `${name}`: the rest of the name, and the brace.
expand_from-behind :
    (getenv : Text → Text) (name t : Text)
    → expand_from getenv (length name + 2) (b'{' ∷ (name ++ b'}' ∷ t)) ≡ expand_from getenv 0 t
unfolding expand_from
expand_from-behind getenv name t =
    let e : length name + 2 ≡ suc (length (name ++ b'}' ∷ [])) =
      omega (arith, length-append name (b'}' ∷ [])) in
    rw (e, expand_from, ← append_assoc name (b'}' ∷ []) t)
      (expand_from-skip getenv (name ++ b'}' ∷ []) t)

-- A `${name}` with no `${` before it, and a name that is not empty and has no closing brace, is replaced
-- by the value of the environment variable; what stands before it is left as it is, and the expansion
-- goes on behind it: the value itself is not expanded again.
-- A text with no opening brace is left as it is, so that `$name` is not replaced.
pub expand_env_lem :
    (getenv : Text → Text) (before name after : Text)
    → (HasNoOpening before
        → name ≢ []
        → Lacks b'}' name
        → expand_env getenv (before ++ b'$' ∷ b'{' ∷ (name ++ b'}' ∷ after))
          ≡ before ++ (getenv name ++ expand_env getenv after))
      × (Lacks b'{' before → expand_env getenv before ≡ before)
unfolding expand_env
expand_env_lem getenv before name after = (
  (λ plain named closed.
      expand_from-before getenv before (b'{' ∷ (name ++ b'}' ∷ after)) plain
      ∙ ap (λ t. before ++ t)
          (rw (expand_from, match_variable-name name after named closed)
            (ap (λ t. getenv name ++ t) (expand_from-behind getenv name after)))),
  (λ plain. expand_from-plain getenv before plain),
)
