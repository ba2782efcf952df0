-- ===== src/Security/Rewriter/Blocks.antt =====
-- internal/security/rewriter.go: a replaced LIMIT in front of what follows it.
use safe_my_sqlmcp_server.Base.{
  ℕ, ◌-◌, ◌<◌, ℤ, Text, Bool, true, [], ◌∷◌, ◌++◌, append_assoc, length, length-append, some, ◌≡◌,
  ◌∙◌, refl, sym, ap, subst, arith, is_digit,
}
use safe_my_sqlmcp_server.Security.Rewriter.{is_word, match_limit, limit_at, cap_match, cap_from}
use safe_my_sqlmcp_server.Security.Rewriter.Matches.{
  StopsAt, Parts, match_limit-Parts, Parts-match_limit,
}
use safe_my_sqlmcp_server.Security.Rewriter.Replaced.{Fine, Safe}
use safe_my_sqlmcp_server.Security.Rewriter.Scanning.{
  limit_number, IsCapped, after, limit_at-some, walk, Parts-Headed, limit_number-digits,
}

-- The same match with another text behind it
behind : {s whole : Text} (t : Text) → Parts s whole → StopsAt is_digit t → Parts (whole ++ t) whole
behind t p stops = record {
  keyword = p.keyword;
  spaces = p.spaces;
  digits = p.digits;
  rest = t;
  text =
      ap (λ u. u ++ t) p.match
      ∙ append_assoc p.keyword (p.spaces ++ p.digits) t
      ∙ ap (λ u. p.keyword ++ u) (append_assoc p.spaces p.digits t);
  match = p.match;
  folds = p.folds;
  some_spaces = p.some_spaces;
  are_spaces = p.are_spaces;
  some_digits = p.some_digits;
  are_digits = p.are_digits;
  ends = stops;
}

-- A LIMIT with a fine number, in front of a text that is capped and does not go on with a digit
pub block :
    (m : ℕ) (w : Bool) (out t : Text)
    → Safe m out
    → StopsAt is_digit t
    → IsCapped m true t
    → IsCapped m w (out ++ t)
unfolding behind
block m w out t safe stops h =
    let p = behind t safe.parts stops in
    let q = Parts-Headed p in
    let fine : Fine m (limit_number out) =
      subst (Fine m) (sym (limit_number-digits safe.parts)) safe.fine in
    let matched : match_limit (out ++ t) ≡ some out = Parts-match_limit (out ++ t) out p in
    subst (λ s. IsCapped m w s) (sym q.text_is)
      (
        (λ whole e.
            let found : match_limit (out ++ t) ≡ some whole =
              subst (λ s. match_limit s ≡ some whole) (sym q.text_is)
                (limit_at-some w (q.letter ∷ (q.others ++ t)) whole e) in
            let same : out ≡ whole = cc (matched, found) in
            subst (λ s. Fine m (limit_number s)) same fine),
        walk m (is_word q.letter) q.others t q.no_l
            (subst (λ b. IsCapped m b t) (sym (q.ends_word (is_word q.letter))) h),
      )

cap_from-skip :
    (max : ℤ) (w : Bool) (u r : Text)
    → cap_from max w (length u) (u ++ r) ≡ cap_from max (after w u) 0 r
unfolding cap_from
cap_from-skip max w [] r = refl
cap_from-skip max w (c ∷ u) r = cap_from-skip max (is_word c) u r

pub cap_from-stops :
    (max : ℤ) (p : ℕ → Bool) (r : Text) → StopsAt p r → StopsAt p (cap_from max true 0 r)
unfolding cap_from
cap_from-stops max p [] h = tt
cap_from-stops max p (c ∷ r) h = h

-- What happens where the regular expression matches
pub record Replaces (max : ℤ) (w : Bool) (s whole : Text) : Type 0 where
  pub parts : Parts s whole
  pub text : s ≡ whole ++ parts.rest
  pub result : cap_from max w 0 s ≡ cap_match max whole ++ cap_from max true 0 parts.rest
  pub shorter : length parts.rest < length s

pub cap_from-Replaces :
    (max : ℤ) (w : Bool) (c : ℕ) (s whole : Text)
    → limit_at w (c ∷ s) ≡ some whole
    → Replaces max w (c ∷ s) whole
unfolding cap_from
cap_from-Replaces max w c s whole found =
    let p = match_limit-Parts (c ∷ s) whole (limit_at-some w (c ∷ s) whole found) in
    let q = Parts-Headed p in
    let rest = p.rest in
    let tail : s ≡ q.others ++ rest = cc q.text_is in
    let count : length whole - 1 ≡ length q.others = omega (arith, ap length q.whole_is) in
    let skipped : cap_from max (is_word c) (length whole - 1) s ≡ cap_from max true 0 rest =
      ap (λ n. cap_from max (is_word c) n s) count
      ∙ ap (λ t. cap_from max (is_word c) (length q.others) t) tail
      ∙ cap_from-skip max (is_word c) q.others rest
      ∙ ap (λ b. cap_from max b 0 rest) (q.ends_word (is_word c)) in
    record {
      parts = p;
      text = q.text_is ∙ ap (λ t. t ++ rest) (sym q.whole_is);
      result = rw (cap_from, found) (ap (λ t. cap_match max whole ++ t) skipped);
      shorter = omega (arith, ap length q.text_is, length-append q.others rest);
    }
