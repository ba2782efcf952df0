-- ===== src/Security/Rewriter/Added.antt =====
-- internal/security/rewriter.go: what addLimit makes of a text.
use mathlib.Core.List.{reverse, reverse-append, reverse-reverse, reverse-cons}
use safe_my_sqlmcp_server.Base.{
  ℕ, ℤ, pos, ◌<◌, leb_ℤ, ◌<ℤ◌, negsuc, Text, codes, Bool, true, false, [], ◌∷◌, ◌++◌, All,
  All-append, ◌≡◌, ◌≢◌, ◌∙◌, sym, ap, subst, refl, inl, inr, arith, Bool-cases, ◌==◌, is_space,
  is_digit, trim_left, trim_right, trim_space, format_ℤ, format_ℕ, format_ℕ-digits, format_ℕ-ne-nil,
  value_from, value_from-format_ℕ,
}
use safe_my_sqlmcp_server.Security.Rewriter.{add_limit}

-- `t` is the text `sql` without the white space around it and the semicolons before its end, with
-- ` LIMIT ` and the numeral of `n` behind it.
pub record HasAppended (sql : Text) (n : ℤ) (t : Text) : Type 0 where
  pub before : Text
  pub body : Text
  pub semicolons : Text
  pub after : Text
  pub numeral : Text
  pub parts : sql ≡ before ++ ((body ++ semicolons) ++ after)
  pub blank : All (λ c. is_space c ≡ true) before × All (λ c. is_space c ≡ true) after
  pub left : (c : ℕ) (rest : Text) → (body ++ semicolons) ++ after ≡ c ∷ rest → is_space c ≡ false
  pub right : (start : Text) (c : ℕ) → body ++ semicolons ≡ start ++ c ∷ [] → is_space c ≡ false
  pub stops : All (λ c. c ≡ b';') semicolons
  pub bare : (start : Text) (c : ℕ) → body ≡ start ++ c ∷ [] → c ≢ b';'
  pub text : t ≡ body ++ (codes " LIMIT " ++ numeral)
  pub digits : (numeral ≢ []) × All (λ c. is_digit c ≡ true) numeral
  pub value : pos (value_from 0 numeral) ≡ n

All-reverse {ℓ} : (P : ℕ → Type ℓ) (s : Text) → All P s → All P (reverse s)
All-reverse P [] h = tt
All-reverse P (c ∷ s) (at, h) =
    subst (All P) (sym (reverse-cons c s))
      (All-append P (reverse s) (c ∷ []) (All-reverse P s h) (at, tt))

-- What is cut off at the left, and what is left begins with.
trim_left-splits :
    (p : ℕ → Bool) (s : Text)
    → (cut : Text) × (s ≡ cut ++ trim_left p s)
      × All (λ c. p c ≡ true) cut
      × ((c : ℕ) (rest : Text) → trim_left p s ≡ c ∷ rest → p c ≡ false)
unfolding trim_left
trim_left-splits p [] = ([], refl, tt, λ c rest e. absurd (cc e))
trim_left-splits p (d ∷ s) = elim (Bool-cases (p d)) [
  | inl passes ↦
      let (cut, whole, all, first) = trim_left-splits p s in
      rw (trim_left, passes) (d ∷ cut, ap (λ t. d ∷ t) whole, (passes, all), first)
  | inr fails ↦
      rw (trim_left, fails)
        ([], refl, tt, λ c rest e. let same : d ≡ c = cc e in subst (λ c. p c ≡ false) same fails)
]

trim_right-splits :
    (p : ℕ → Bool) (s : Text)
    → (cut : Text) × (s ≡ trim_right p s ++ cut)
      × All (λ c. p c ≡ true) cut
      × ((start : Text) (c : ℕ) → trim_right p s ≡ start ++ c ∷ [] → p c ≡ false)
unfolding trim_right
trim_right-splits p s =
    let (cut, whole, all, first) = trim_left-splits p (reverse s) in
    (
      reverse cut,
      sym (reverse-reverse s) ∙ ap reverse whole ∙ reverse-append cut (trim_left p (reverse s)),
      All-reverse (λ c. p c ≡ true) cut all,
      λ start c e. first c (reverse start) (
          sym (reverse-reverse (trim_left p (reverse s)))
          ∙ ap reverse e
          ∙ reverse-append start (c ∷ [])),
    )

All-semicolons : (s : Text) → All (λ c. (c == b';') ≡ true) s → All (λ c. c ≡ b';') s
All-semicolons [] h = tt
All-semicolons (c ∷ s) (at, h) = (ground arith, All-semicolons s h)

add_limit-positive :
    (sql : Text) (n : ℕ)
    → 0 < n
    → add_limit sql (pos n)
      ≡ trim_right (λ c. c == b';') (trim_space sql) ++ (codes " LIMIT " ++ format_ℕ n)
unfolding add_limit format_ℤ
add_limit-positive sql n positive =
    let more : leb_ℤ (pos n) (pos 0) ≡ false = ground arith in rw (add_limit, more) refl

-- A positive limit is appended.
pub add_limit-HasAppended : (sql : Text) (n : ℤ) → pos 0 <ℤ n → HasAppended sql n (add_limit sql n)
unfolding trim_space
add_limit-HasAppended sql (negsuc n) positive = absurd (omega arith)
add_limit-HasAppended sql (pos n) positive =
    let (before, whole, blank, first) = trim_left-splits is_space sql in
    let (after, rest, blank', last) = trim_right-splits is_space (trim_left is_space sql) in
    let (semicolons, body, stops, bare) = trim_right-splits (λ c. c == b';') (trim_space sql) in
    record {
      before = before;
      body = trim_right (λ c. c == b';') (trim_space sql);
      semicolons = semicolons;
      after = after;
      numeral = format_ℕ n;
      parts = whole ∙ ap (λ t. before ++ t) (rest ∙ ap (λ t. t ++ after) body);
      left = λ c more e. first c more (rest ∙ ap (λ t. t ++ after) body ∙ e);
      right = λ start c e. last start c (body ∙ e);
      blank = (blank, blank');
      stops = All-semicolons semicolons stops;
      bare = λ start c e. let no = bare start c e in λ is. ground arith;
      text = add_limit-positive sql n (omega arith);
      digits = (format_ℕ-ne-nil n, format_ℕ-digits n);
      value = ap pos (value_from-format_ℕ n);
    }
