-- ===== src/Auth/Header.antt =====
-- internal/auth/jwt.go, ExtractToken: which headers carry a token.
use safe_my_sqlmcp_server.Base.{
  ◌==◌, ==_iff, Text, codes, upper, equal_fold, equal_fold_iff, true, List, [], ◌∷◌, ◌++◌,
  append-nil, append_assoc, All, ◌≡◌, ◌≢◌, ◌↔◌, ◌∙◌, sym, ap, subst, to_upper, inl, inr, refl,
  arith, Bool-cases,
}
use safe_my_sqlmcp_server.Auth.{split_from, bearer_token, extract_token}

-- A text with no space.
abbrev pub IsWord : Text → Type 0
IsWord s = All (λ c. c ≢ 32) s

split_from-word : (cur s : Text) → IsWord s → split_from cur s ≡ (cur ++ s) ∷ []
unfolding split_from
split_from-word cur [] h = rw (append-nil cur)
split_from-word cur (c ∷ s) (solid, h) = elim (Bool-cases (c == 32)) [
  | inl space ↦ absurd (solid ((==_iff c 32).0 space))
  | inr solid_byte ↦
      rw (split_from, solid_byte)
        (split_from-word (cur ++ c ∷ []) s h ∙ ap (λ t. t ∷ []) (append_assoc cur (c ∷ []) s))
]

split_from-two :
    (cur s t : Text) → IsWord s → IsWord t → split_from cur (s ++ 32 ∷ t) ≡ (cur ++ s) ∷ t ∷ []
unfolding split_from
split_from-two cur [] t h k = rw (append-nil cur, split_from-word [] t k)
split_from-two cur (c ∷ s) t (solid, h) k = elim (Bool-cases (c == 32)) [
  | inl space ↦ absurd (solid ((==_iff c 32).0 space))
  | inr solid_byte ↦
      rw (split_from, solid_byte)
        (split_from-two (cur ++ c ∷ []) s t h k
          ∙ ap (λ u. u ∷ t ∷ []) (append_assoc cur (c ∷ []) s))
]

split_from-parts : (cur s : Text) → split_from cur s ≢ []
unfolding split_from
split_from-parts cur [] e = cc e
split_from-parts cur (c ∷ s) e = elim (Bool-cases (c == 32)) [
  | inl space ↦ cc (rw (split_from, space) at e)
  | inr solid_byte ↦ split_from-parts (cur ++ c ∷ []) s (rw (split_from, solid_byte) at e)
]

one_part : (cur s b : Text) → split_from cur s ≡ b ∷ [] → (cur ++ s ≡ b) × IsWord s
unfolding split_from
one_part cur [] b e = (append-nil cur ∙ cc e, tt)
one_part cur (c ∷ s) b e = elim (Bool-cases (c == 32)) [
  | inl space ↦ absurd (split_from-parts [] s (cc (rw (split_from, space) at e)))
  | inr solid_byte ↦
      let (same, word) = one_part (cur ++ c ∷ []) s b (rw (split_from, solid_byte) at e) in
      (
        sym (append_assoc cur (c ∷ []) s) ∙ same,
        ((λ is_space. cc ((==_iff c 32).1 is_space, solid_byte)), word),
      )
]

two_parts : (cur s a b : Text) → split_from cur s ≡ a ∷ b ∷ [] → (cur ++ s ≡ a ++ 32 ∷ b) × IsWord b
unfolding split_from
two_parts cur [] a b e = absurd (cc e)
two_parts cur (c ∷ s) a b e = elim (Bool-cases (c == 32)) [
  | inl space ↦
      let parts : cur ∷ split_from [] s ≡ a ∷ b ∷ [] = rw (split_from, space) at e in
      let (same, word) = one_part [] s b (cc parts) in
      (cc (parts, same, (==_iff c 32).0 space), subst IsWord same word)
  | inr solid_byte ↦
      let (same, word) = two_parts (cur ++ c ∷ []) s a b (rw (split_from, solid_byte) at e) in
      (sym (append_assoc cur (c ∷ []) s) ∙ same, word)
]

IsWord-upper : (s : Text) → IsWord (upper s) → IsWord s
unfolding to_upper
IsWord-upper [] h = tt
IsWord-upper (c ∷ s) (solid, h) = ((λ space. solid (ground arith)), IsWord-upper s h)

-- A scheme in any mixture of cases.
abbrev pub IsBearer : Text → Type 0
IsBearer scheme = upper scheme ≡ codes "BEARER"

IsBearer-IsWord : (scheme : Text) → IsBearer scheme → IsWord scheme
IsBearer-IsWord scheme h = IsWord-upper scheme (subst IsWord (sym h) (ground arith))

equal_fold-IsBearer :
    (scheme : Text) → (equal_fold scheme (codes "bearer") ≡ true) ↔ IsBearer scheme
unfolding to_upper
equal_fold-IsBearer scheme = equal_fold_iff scheme (codes "bearer")

bearer_token-parts :
    (parts : List Text) (t : Text)
    → t ≢ []
    → bearer_token parts ≡ t
    → (scheme : Text) × IsBearer scheme × (parts ≡ scheme ∷ t ∷ [])
unfolding bearer_token
bearer_token-parts [] t some_token e = absurd (some_token (sym e))
bearer_token-parts (a ∷ []) t some_token e = absurd (some_token (sym e))
bearer_token-parts (a ∷ b ∷ c ∷ more) t some_token e = absurd (some_token (sym e))
bearer_token-parts (a ∷ b ∷ []) t some_token e = elim (Bool-cases (equal_fold a (codes "bearer"))) [
  | inl bearer ↦ (a, (equal_fold-IsBearer a).0 bearer, cc (rw (bearer_token, bearer) at e))
  | inr unlike ↦ absurd (some_token (sym (rw (bearer_token, unlike) at e)))
]

extract_token-split_from :
    (header : Text) → extract_token header ≡ bearer_token (split_from [] header)
unfolding extract_token bearer_token split_from
extract_token-split_from [] = refl
extract_token-split_from (c ∷ s) = refl

-- A header carries a token exactly if it is the scheme `Bearer`, in any mixture of cases, one space and
-- the token, with no other space.
pub extract_token_iff :
    (header t : Text)
    → t ≢ []
    → (extract_token header ≡ t)
      ↔ ((scheme : Text) × IsBearer scheme × IsWord t × (header ≡ scheme ++ 32 ∷ t))
unfolding bearer_token
extract_token_iff header t some_token = (
  (λ e.
      let (scheme, bearer, parts) =
        bearer_token-parts (split_from [] header) t some_token
          (sym (extract_token-split_from header) ∙ e) in
      let (same, word) = two_parts [] header scheme t parts in (scheme, bearer, word, same)),
  (λ (scheme, bearer, word, same). rw (
    extract_token-split_from header,
    same,
    split_from-two [] scheme t (IsBearer-IsWord scheme bearer) word,
    bearer_token,
    (equal_fold-IsBearer scheme).1 bearer,
  )),
)
