-- ===== src/Security/Rewriter/Capped.antt =====
-- internal/security/rewriter.go: no LIMIT above the bound is left in what capLimit gives back.
use safe_my_sqlmcp_server.Base.{
  ℕ, zero, suc, ◌≤◌, ◌<◌, pos, Text, Bool, true, false, [], ◌∷◌, ◌++◌, append_assoc, length, none,
  ◌≡◌, ◌≢◌, ◌⊎◌, ◌∙◌, inl, inr, refl, sym, ap, subst, arith, All, All-append, is_digit, to_upper,
  Option-cases, leb_ℤ,
}
use safe_my_sqlmcp_server.Security.Rewriter.{
  is_word, take_while, drop_while, match_limit, limit_at, cap_match, cap_from, cap_limit,
}
use safe_my_sqlmcp_server.Security.Rewriter.Matches.{
  Parts, split_while, match_limit-Parts, Parts-match_limit,
}
use safe_my_sqlmcp_server.Security.Rewriter.Replaced.{Fine, cap_match-Safe}
use safe_my_sqlmcp_server.Security.Rewriter.Scanning.{
  IsCapped, NoL, IsCapped-after, Parts-Headed, limit_number-digits,
}
use safe_my_sqlmcp_server.Security.Rewriter.Blocks.{block, cap_from-stops, cap_from-Replaces}

-- Two texts with the same bytes, up to a place where both may begin a LIMIT
abbrev Agree : Text → Text → Type 0
Agree [] [] = Unit
Agree [] (d ∷ t) = ⊥
Agree (c ∷ s) [] = ⊥
Agree (c ∷ s) (d ∷ t) = ((c ≡ d) × Agree s t) ⊎ ((to_upper c ≡ b'L') × (to_upper d ≡ b'L'))

Agree-prefix : (u s t : Text) → All NoL u → Agree s (u ++ t) → (r : Text) × (s ≡ u ++ r)
Agree-prefix [] s t h a = (s, refl)
Agree-prefix (c ∷ u) [] t h a = absurd a
Agree-prefix (c ∷ u) (d ∷ s) t (no_l, h) (inl (same, a)) =
    let (r, e) = Agree-prefix u s t h a in (r, rw (same, e) refl)
Agree-prefix (c ∷ u) (d ∷ s) t (no_l, h) (inr (_, l)) = absurd (no_l l)

Agree-cap_from : (m : ℕ) (w : Bool) (s : Text) → Agree s (cap_from (pos m) w 0 s)
unfolding cap_from
Agree-cap_from m w [] = tt
Agree-cap_from m w (c ∷ s) = elim (Option-cases (limit_at w (c ∷ s))) [
  | inl nothing ↦ rw (cap_from, nothing) (inl (refl, Agree-cap_from m (is_word c) s))
  | inr (whole, found) ↦
      let r = cap_from-Replaces (pos m) w c s whole found in
      let before = Parts-Headed r.parts in
      let new = Parts-Headed (cap_match-Safe m r.parts).0.parts in
      let rest = cap_from (pos m) true 0 r.parts.rest in
      let same_l : c ≡ before.letter = cc before.text_is in
      subst (λ t. Agree (c ∷ s) t) (ap (λ t. t ++ rest) (sym new.whole_is) ∙ sym r.result)
        (inr (rw same_l before.is_l, new.is_l))
]

append_some : (s t : Text) → s ≢ [] → s ++ t ≢ []
append_some [] t h e = h refl
append_some (c ∷ s) t h e = cc e

-- A match whose bytes begin another text, where its digits may go on
longer :
    {s whole : Text} (r : Text)
    → Parts s whole
    → Parts (whole ++ r) (whole ++ take_while is_digit r)
longer {s} {whole} r p =
    let (split, digits, stops) = split_while is_digit r in
    let more = take_while is_digit r in
    let spread : (t : Text) → whole ++ t ≡ p.keyword ++ (p.spaces ++ (p.digits ++ t)) = λ t.
      ap (λ u. u ++ t) p.match
      ∙ append_assoc p.keyword (p.spaces ++ p.digits) t
      ∙ ap (λ u. p.keyword ++ u) (append_assoc p.spaces p.digits t) in
    record {
      keyword = p.keyword;
      spaces = p.spaces;
      digits = p.digits ++ more;
      rest = drop_while is_digit r;
      text =
          spread r
          ∙ ap (λ u. p.keyword ++ (p.spaces ++ u))
              (ap (λ u. p.digits ++ u) split
                ∙ sym (append_assoc p.digits more (drop_while is_digit r)));
      match = spread more;
      folds = p.folds;
      some_spaces = p.some_spaces;
      are_spaces = p.are_spaces;
      some_digits = append_some p.digits more p.some_digits;
      are_digits = All-append (λ c. is_digit c ≡ true) p.digits more p.are_digits digits;
      ends = stops;
    }

-- A byte at which nothing matches still begins no match once what follows it has been capped.
still_no_match :
    (m : ℕ) (w : Bool) (c : ℕ) (s : Text)
    → limit_at w (c ∷ s) ≡ none
    → limit_at w (c ∷ cap_from (pos m) (is_word c) 0 s) ≡ none
still_no_match m true c s nothing = refl
still_no_match m false c s nothing =
    elim (Option-cases (match_limit (c ∷ cap_from (pos m) (is_word c) 0 s))) [
      | inl none_there ↦ none_there
      | inr (whole, found) ↦
          let t = cap_from (pos m) (is_word c) 0 s in
          let p = match_limit-Parts (c ∷ t) whole found in
          let q = Parts-Headed p in
          let tail : t ≡ q.others ++ p.rest = cc q.text_is in
          let letter : c ≡ q.letter = cc q.text_is in
          let (r, begins) =
            Agree-prefix q.others s p.rest q.no_l
              (subst (λ u. Agree s u) tail (Agree-cap_from m (is_word c) s)) in
          let text : whole ++ r ≡ c ∷ s =
            ap (λ u. u ++ r) q.whole_is
            ∙ ap (λ l. l ∷ (q.others ++ r)) (sym letter)
            ∙ ap (λ u. c ∷ u) (sym begins) in
          let matches =
            Parts-match_limit (whole ++ r) (whole ++ take_while is_digit r) (longer r p) in
          absurd (cc (matches, text, nothing))
    ]

cap_from-IsCapped :
    (m n : ℕ) (w : Bool) (s : Text) → length s ≤ n → IsCapped m w (cap_from (pos m) w 0 s)
unfolding cap_from
cap_from-IsCapped m n w [] h = tt
cap_from-IsCapped m zero w (c ∷ s) h = absurd (omega (arith, h))
cap_from-IsCapped m (suc n) w (c ∷ s) h = elim (Option-cases (limit_at w (c ∷ s))) [
  | inl nothing ↦
      rw (cap_from, nothing)
        (
          (λ whole e. absurd (cc (still_no_match m w c s nothing, e))),
          cap_from-IsCapped m n (is_word c) s (omega (arith, h)),
        )
  | inr (whole, found) ↦
      let r = cap_from-Replaces (pos m) w c s whole found in
      let rest = r.parts.rest in
      subst (λ t. IsCapped m w t) (sym r.result)
        (block m w (cap_match (pos m) whole) (cap_from (pos m) true 0 rest)
          (cap_match-Safe m r.parts).0 (cap_from-stops (pos m) is_digit rest r.parts.ends)
          (cap_from-IsCapped m n true rest (omega (arith, h, r.shorter))))
]

cap_from-same :
    (m n : ℕ) (w : Bool) (s : Text) → length s ≤ n → IsCapped m w s → cap_from (pos m) w 0 s ≡ s
unfolding cap_from
cap_from-same m n w [] h k = refl
cap_from-same m zero w (c ∷ s) h k = absurd (omega (arith, h))
cap_from-same m (suc n) w (c ∷ s) h (here, k) = elim (Option-cases (limit_at w (c ∷ s))) [
  | inl nothing ↦
      rw (cap_from, nothing)
        (ap (λ t. c ∷ t) (cap_from-same m n (is_word c) s (omega (arith, h)) k))
  | inr (whole, found) ↦
      let r = cap_from-Replaces (pos m) w c s whole found in
      let rest = r.parts.rest in
      let q = Parts-Headed r.parts in
      let tail : s ≡ q.others ++ rest = cc q.text_is in
      let fine = subst (Fine m) (limit_number-digits r.parts) (here whole found) in
      let behind_it : IsCapped m true rest =
        subst (λ b. IsCapped m b rest) (q.ends_word (is_word c))
          (IsCapped-after m (is_word c) q.others rest (subst (IsCapped m (is_word c)) tail k)) in
      r.result
      ∙ ap (λ t. t ++ cap_from (pos m) true 0 rest) ((cap_match-Safe m r.parts).1 fine)
      ∙ ap (λ t. whole ++ t) (cap_from-same m n true rest (omega (arith, h, r.shorter)) behind_it)
      ∙ sym r.text
]

-- capLimit, with a positive bound: wherever the regular expression matches in what it gives back, also
-- across a place where it replaced something, the number is at most the bound, or is 2^63 or more,
-- which an int does not hold; and a text in which this is so already is given back as it was.
pub cap_limit-IsCapped :
    (sql : Text) (m : ℕ)
    → 0 < m
    → IsCapped m false (cap_limit sql (pos m))
      × (IsCapped m false sql → cap_limit sql (pos m) ≡ sql)
unfolding cap_limit
cap_limit-IsCapped sql m positive =
    let on : leb_ℤ (pos m) (pos 0) ≡ false = ground (arith, positive) in
    rw (cap_limit, on)
      (
        cap_from-IsCapped m (length sql) false sql (omega arith),
        λ h. cap_from-same m (length sql) false sql (omega arith) h,
      )
