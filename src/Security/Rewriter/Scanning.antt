-- ===== src/Security/Rewriter/Scanning.antt =====
-- internal/security/rewriter.go: the positions of a text at which the regular expression of a LIMIT can
-- match, and the number that it finds there.
use safe_my_sqlmcp_server.Base.{
  ℕ, ◌≤◌, Text, codes, Bool, true, false, not, [], ◌∷◌, ◌++◌, append_assoc, some, none, ◌≡◌, ◌≢◌,
  ◌∙◌, inl, inr, refl, sym, ap, subst, arith, All, All-append, is_digit, to_upper, upper,
  Option-cases, value_from,
}
use safe_my_sqlmcp_server.Security.Rewriter.{
  is_word, is_re_space, drop_while, match_limit, limit_at,
}
use safe_my_sqlmcp_server.Security.Rewriter.Matches.{
  Passes, StopsAt, Parts, while-append, match_limit-Parts,
}
use safe_my_sqlmcp_server.Security.Rewriter.Replaced.{Fine}

-- The number of a match: the value of its digits.
abbrev pub limit_number : Text → ℕ
limit_number whole = value_from 0 (drop_while (λ c. not (is_digit c)) whole)

-- Wherever the regular expression matches in a text, the number is at most the bound, or no int holds
-- it. `after_word` is whether the byte before the text is a word character.
abbrev pub IsCapped : ℕ → Bool → Text → Type 0
IsCapped m after_word [] = Unit
IsCapped m after_word (c ∷ s) =
    ((whole : Text) → limit_at after_word (c ∷ s) ≡ some whole → Fine m (limit_number whole))
    × IsCapped m (is_word c) s

-- A byte that is not the first of a LIMIT
abbrev pub NoL : ℕ → Type 0
NoL c = to_upper c ≢ b'L'

abbrev pub after : Bool → Text → Bool
after w [] = w
after w (c ∷ s) = after (is_word c) s

pub no_match : (c : ℕ) (s : Text) → NoL c → match_limit (c ∷ s) ≡ none
no_match c s h = elim (Option-cases (match_limit (c ∷ s))) [
  | inl nothing ↦ nothing
  | inr (whole, found) ↦
      let p = match_limit-Parts (c ∷ s) whole found in
      absurd (h (first p.keyword (p.spaces ++ (p.digits ++ p.rest)) p.folds p.text))
]
  where
    first : (kw rest : Text) → upper kw ≡ codes "LIMIT" → c ∷ s ≡ kw ++ rest → to_upper c ≡ b'L'
    first [] rest folds e = absurd (cc folds)
    first (d ∷ kw) rest folds e =
        let same : c ≡ d = cc e in let head : to_upper d ≡ b'L' = cc folds in rw same head

pub limit_at-some :
    (w : Bool) (s whole : Text) → limit_at w s ≡ some whole → match_limit s ≡ some whole
limit_at-some true s whole e = absurd (cc e)
limit_at-some false s whole e = e

-- Bytes that cannot begin a LIMIT, in front of a text that is capped
pub walk :
    (m : ℕ) (w : Bool) (u t : Text) → All NoL u → IsCapped m (after w u) t → IsCapped m w (u ++ t)
walk m w [] t h k = k
walk m w (c ∷ u) t (no_l, h) k = (
  (λ whole e. absurd (cc (limit_at-some w (c ∷ (u ++ t)) whole e, no_match c (u ++ t) no_l))),
  walk m (is_word c) u t h k,
)

pub IsCapped-after :
    (m : ℕ) (w : Bool) (u t : Text) → IsCapped m w (u ++ t) → IsCapped m (after w u) t
IsCapped-after m w [] t h = h
IsCapped-after m w (c ∷ u) t (_, h) = IsCapped-after m (is_word c) u t h

pub after-append : (w : Bool) (u v : Text) → after w (u ++ v) ≡ after (after w u) v
after-append w [] v = refl
after-append w (c ∷ u) v = after-append (is_word c) u v

pub after-digits : (w : Bool) (dg : Text) → dg ≢ [] → Passes is_digit dg → after w dg ≡ true
after-digits w [] h k = absurd (h refl)
after-digits w (c ∷ []) h (digit, k) = ground (arith, digit)
after-digits w (c ∷ d ∷ dg) h (_, k) = after-digits (is_word c) (d ∷ dg) (λ e. cc e) k

pub digits-NoL : (dg : Text) → Passes is_digit dg → All NoL dg
unfolding to_upper
digits-NoL [] h = tt
digits-NoL (c ∷ dg) (digit, h) = (ground (arith, digit), digits-NoL dg h)

pub spaces-NoL : (sp : Text) → Passes is_re_space sp → All NoL sp
unfolding to_upper
spaces-NoL [] h = tt
spaces-NoL (c ∷ sp) (space, h) = (ground (arith, space), spaces-NoL sp h)

-- The word of a match behind its first byte
pub tail-NoL : (ks kw : Text) → All (λ k. k ≢ b'L') ks → upper kw ≡ ks → All NoL kw
tail-NoL ks [] h e = tt
tail-NoL [] (c ∷ kw) h e = absurd (cc e)
tail-NoL (k ∷ ks) (c ∷ kw) (other, h) e =
    let same : to_upper c ≡ k = cc e in ((λ l. other (sym same ∙ l)), tail-NoL ks kw h (cc e))

-- A match, taken apart behind its first byte
pub record Headed (s whole rest : Text) : Type 0 where
  pub letter : ℕ
  pub others : Text
  pub whole_is : whole ≡ letter ∷ others
  pub text_is : s ≡ letter ∷ (others ++ rest)
  pub is_l : to_upper letter ≡ b'L'
  pub no_l : All NoL others
  pub ends_word : (w : Bool) → after w others ≡ true

headed :
    (kw sp dg rest : Text)
    → upper kw ≡ codes "LIMIT"
    → Passes is_re_space sp
    → dg ≢ []
    → Passes is_digit dg
    → Headed (kw ++ (sp ++ (dg ++ rest))) (kw ++ (sp ++ dg)) rest
headed [] sp dg rest folds h k l = absurd (cc folds)
headed (c ∷ kw) sp dg rest folds h k l = record {
  letter = c;
  others = kw ++ (sp ++ dg);
  whole_is = refl;
  text_is =
      ap (λ t. c ∷ t)
        (sym (append_assoc kw (sp ++ dg) rest ∙ ap (λ t. kw ++ t) (append_assoc sp dg rest)));
  is_l = cc folds;
  no_l =
      All-append NoL kw (sp ++ dg)
        (tail-NoL (codes "IMIT") kw
          ((λ e. omega arith), ((λ e. omega arith), ((λ e. omega arith), ((λ e. omega arith), tt))))
          (cc folds))
        (All-append NoL sp dg (spaces-NoL sp h) (digits-NoL dg l));
  ends_word = λ w.
      after-append w kw (sp ++ dg)
      ∙ after-append (after w kw) sp dg
      ∙ after-digits (after (after w kw) sp) dg k l;
}

pub Parts-Headed : {s whole : Text} (p : Parts s whole) → Headed s whole p.rest
Parts-Headed {s} {whole} p =
    subst (λ t. Headed t whole p.rest) (sym p.text)
      (subst (λ t. Headed (p.keyword ++ (p.spaces ++ (p.digits ++ p.rest))) t p.rest) (sym p.match)
        (headed p.keyword p.spaces p.digits p.rest p.folds p.are_spaces p.some_digits p.are_digits))

upper-no_digit :
    (ks kw : Text) → All (λ k. 65 ≤ k) ks → upper kw ≡ ks → Passes (λ c. not (is_digit c)) kw
unfolding to_upper
upper-no_digit ks [] h e = tt
upper-no_digit [] (c ∷ kw) h e = absurd (cc e)
upper-no_digit (k ∷ ks) (c ∷ kw) (big, h) e =
    let same : to_upper c ≡ k = cc e in (ground (arith, same, big), upper-no_digit ks kw h (cc e))

spaces-no_digit : (sp : Text) → Passes is_re_space sp → Passes (λ c. not (is_digit c)) sp
spaces-no_digit [] h = tt
spaces-no_digit (c ∷ sp) (space, h) = (ground (arith, space), spaces-no_digit sp h)

digits_stop : (dg : Text) → Passes is_digit dg → StopsAt (λ c. not (is_digit c)) dg
digits_stop [] h = tt
digits_stop (c ∷ dg) (digit, h) = ground (arith, digit)

pub limit_number-digits :
    {s whole : Text} (p : Parts s whole) → limit_number whole ≡ value_from 0 p.digits
limit_number-digits p =
    let front = p.keyword ++ p.spaces in
    let letters =
      upper-no_digit (codes "LIMIT") p.keyword
        (omega arith, (omega arith, (omega arith, (omega arith, (omega arith, tt))))) p.folds in
    let (_, dropped) =
      while-append (λ c. not (is_digit c)) front p.digits
        (All-append (λ c. not (is_digit c) ≡ true) p.keyword p.spaces letters
          (spaces-no_digit p.spaces p.are_spaces))
        (digits_stop p.digits p.are_digits) in
    ap limit_number (p.match ∙ sym (append_assoc p.keyword p.spaces p.digits))
    ∙ ap (value_from 0) dropped
