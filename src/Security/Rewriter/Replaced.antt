-- ===== src/Security/Rewriter/Replaced.antt =====
-- internal/security/rewriter.go: what a match of the regular expression of a LIMIT is replaced by.
use safe_my_sqlmcp_server.Base.{
  ℕ, ◌^◌, ◌≤◌, ltb, ℤ, pos, ltb_ℤ, Text, codes, Bool, true, false, not, [], ◌∷◌, ◌++◌, append_assoc,
  append-nil, ◌≡◌, ◌≢◌, ◌⊎◌, ◌∙◌, inl, inr, refl, sym, ap, arith, All, is_space, is_digit, to_upper,
  upper, Bool-cases, parse_int64, value_from, format_ℕ, format_ℤ, format_ℕ-digits, format_ℕ-ne-nil,
  value_from-format_ℕ,
}
use safe_my_sqlmcp_server.Security.Rewriter.{
  is_re_space, take_while, fields, fields_from, flush, scan_int, cap_number, cap_fields, cap_match,
}
use safe_my_sqlmcp_server.Security.Rewriter.Matches.{Passes, Parts, while-append, is_empty-not}

abbrev pub not_space : ℕ → Bool
not_space c = not (is_space c)

fields_from-word :
    (cur w rest : Text)
    → Passes not_space w
    → fields_from cur (w ++ rest) ≡ fields_from (cur ++ w) rest
unfolding fields_from
fields_from-word cur [] rest h = rw (append-nil cur) refl
fields_from-word cur (c ∷ w) rest (solid, h) =
    let other : is_space c ≡ false = ground (arith, solid) in
    rw (fields_from, other)
      (fields_from-word (cur ++ c ∷ []) w rest h
        ∙ ap (λ t. fields_from t rest) (append_assoc cur (c ∷ []) w))

fields_from-spaces :
    (cur sp rest : Text)
    → sp ≢ []
    → Passes is_re_space sp
    → fields_from cur (sp ++ rest) ≡ flush cur ++ fields_from [] rest
unfolding fields_from
fields_from-spaces cur [] rest h k = absurd (h refl)
fields_from-spaces cur (c ∷ []) rest h (blank, k) =
    let space : is_space c ≡ true = ground (arith, blank) in rw (fields_from, space) refl
fields_from-spaces cur (c ∷ d ∷ sp) rest h (blank, k) =
    let space : is_space c ≡ true = ground (arith, blank) in
    rw (fields_from, space)
      (ap (λ t. flush cur ++ t) (fields_from-spaces [] (d ∷ sp) rest (λ e. cc e) k))

upper-not_space : (ks kw : Text) → All (λ k. 65 ≤ k) ks → upper kw ≡ ks → Passes not_space kw
unfolding to_upper
upper-not_space ks [] h e = tt
upper-not_space [] (c ∷ kw) h e = absurd (cc e)
upper-not_space (k ∷ ks) (c ∷ kw) (big, h) e =
    let same : to_upper c ≡ k = cc e in (ground (arith, same, big), upper-not_space ks kw h (cc e))

digits-not_space : (dg : Text) → Passes is_digit dg → Passes not_space dg
digits-not_space [] h = tt
digits-not_space (c ∷ dg) (digit, h) = (ground (arith, digit), digits-not_space dg h)

flush-some : (s : Text) → s ≢ [] → flush s ≡ s ∷ []
flush-some [] h = absurd (h refl)
flush-some (c ∷ s) h = refl

upper-some : (kw : Text) → upper kw ≡ codes "LIMIT" → kw ≢ []
upper-some [] e h = cc e
upper-some (c ∷ kw) e h = cc h

fields-parts :
    {s whole : Text} (p : Parts s whole)
    → fields (p.keyword ++ (p.spaces ++ p.digits)) ≡ p.keyword ∷ p.digits ∷ []
unfolding fields
fields-parts p =
    let solid =
      upper-not_space (codes "LIMIT") p.keyword
        ((omega arith), ((omega arith), ((omega arith), ((omega arith), ((omega arith), tt)))))
        p.folds in
    fields_from-word [] p.keyword (p.spaces ++ p.digits) solid
    ∙ fields_from-spaces p.keyword p.spaces p.digits p.some_spaces p.are_spaces
    ∙ ap (λ t. flush p.keyword ++ t)
        (ap (λ t. fields_from [] t) (sym (append-nil p.digits))
          ∙ fields_from-word [] p.digits [] (digits-not_space p.digits p.are_digits)
          ∙ flush-some p.digits p.some_digits)
    ∙ ap (λ t. t ++ p.digits ∷ []) (flush-some p.keyword (upper-some p.keyword p.folds))

-- A number that is at most the bound, or too large for an int
abbrev pub Fine : ℕ → ℕ → Type 0
Fine m n = (n ≤ m) ⊎ (2 ^ 63 ≤ n)

-- A LIMIT whose number is fine
pub record Safe (m : ℕ) (out : Text) : Type 0 where
  pub parts : Parts out out
  pub fine : Fine m (value_from 0 parts.digits)

-- A match by itself, with nothing behind it
alone : {s whole : Text} → Parts s whole → Parts whole whole
alone p = record {
  keyword = p.keyword;
  spaces = p.spaces;
  digits = p.digits;
  rest = [];
  text = p.match ∙ ap (λ t. p.keyword ++ (p.spaces ++ t)) (sym (append-nil p.digits));
  match = p.match;
  folds = p.folds;
  some_spaces = p.some_spaces;
  are_spaces = p.are_spaces;
  some_digits = p.some_digits;
  are_digits = p.are_digits;
  ends = tt;
}

-- The LIMIT that a match is replaced by
capped : (m : ℕ) → Parts (codes "LIMIT " ++ format_ℕ m) (codes "LIMIT " ++ format_ℕ m)
unfolding to_upper
capped m = record {
  keyword = codes "LIMIT";
  spaces = codes " ";
  digits = format_ℕ m;
  rest = [];
  text = ap (λ t. codes "LIMIT " ++ t) (sym (append-nil (format_ℕ m)));
  match = refl;
  folds = refl;
  some_spaces = λ e. cc e;
  are_spaces = (refl, tt);
  some_digits = format_ℕ-ne-nil m;
  are_digits = format_ℕ-digits m;
  ends = tt;
}

scan_int-digits : (dg : Text) → dg ≢ [] → Passes is_digit dg → scan_int dg ≡ parse_int64 dg
unfolding scan_int
scan_int-digits dg h k =
    let (same, _) = while-append is_digit dg [] k tt in
    let taken : take_while is_digit dg ≡ dg =
      ap (λ t. take_while is_digit t) (sym (append-nil dg)) ∙ same in
    rw (scan_int, taken, is_empty-not dg h) refl

cap_match-parts :
    (max : ℤ) {s whole : Text} (p : Parts s whole)
    → cap_match max whole ≡ cap_number max whole (parse_int64 p.digits)
unfolding cap_match cap_fields
cap_match-parts max {s} {whole} p =
    let two : fields whole ≡ p.keyword ∷ p.digits ∷ [] = ap fields p.match ∙ fields-parts p in
    rw (cap_match, two, cap_fields, scan_int-digits p.digits p.some_digits p.are_digits) refl

-- What replaces a match is a LIMIT whose number is at most the bound, or one that no int holds; and
-- a match with such a number is left as it is.
pub cap_match-Safe :
    (m : ℕ) {s whole : Text} (p : Parts s whole)
    → Safe m (cap_match (pos m) whole)
      × (Fine m (value_from 0 p.digits) → cap_match (pos m) whole ≡ whole)
unfolding cap_number format_ℤ parse_int64 alone capped
cap_match-Safe m {s} {whole} p =
    let n = value_from 0 p.digits in
    rw (cap_match-parts (pos m) p) (elim (Bool-cases (ltb n (2 ^ 63))) [
      | inr large ↦
          rw (parse_int64, large, cap_number)
            (record { parts = alone p; fine = inr (ground (arith, large)) }, λ h. refl)
      | inl small ↦ elim (Bool-cases (ltb_ℤ (pos m) (pos n))) [
        | inl over ↦
            rw (parse_int64, small, cap_number, over)
              (
                record { parts = capped m; fine = inl (omega (arith, value_from-format_ℕ m)) },
                λ h. absurd (ground (arith, h, small, over)),
              )
        | inr under ↦
            rw (parse_int64, small, cap_number, under)
              (record { parts = alone p; fine = inl (ground (arith, under)) }, λ h. refl)
      ]
    ])
