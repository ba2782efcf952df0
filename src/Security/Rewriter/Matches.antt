-- ===== src/Security/Rewriter/Matches.antt =====
-- internal/security/rewriter.go: what the regular expression of a LIMIT matches, and what replaces it.
use safe_my_sqlmcp_server.Base.{
  ℕ, Text, codes, Bool, true, false, ◌||◌, [], ◌∷◌, ◌++◌, take, some, ◌≡◌, ◌≢◌, ◌∙◌, inl, inr, refl,
  sym, ap, arith, All, is_empty, is_digit, to_upper, upper, Bool-cases, Option-cases, ◌==◌,
}
use safe_my_sqlmcp_server.Security.Rewriter.{
  is_re_space, take_while, drop_while, strip_fold, match_limit,
}

-- A test fails at the head of a text, if it has one.
abbrev pub StopsAt : (ℕ → Bool) → Text → Type 0
StopsAt p [] = Unit
StopsAt p (c ∷ s) = p c ≡ false

abbrev pub Passes : (ℕ → Bool) → Text → Type 0
Passes p s = All (λ c. p c ≡ true) s

-- Splitting a text at the first byte that fails a test
pub split_while :
    (p : ℕ → Bool) (s : Text)
    → (s ≡ take_while p s ++ drop_while p s)
      × Passes p (take_while p s)
      × StopsAt p (drop_while p s)
unfolding take_while drop_while
split_while p [] = (refl, tt, tt)
split_while p (c ∷ s) = elim (Bool-cases (p c)) [
  | inl passed ↦
      let (whole, passes, stops) = split_while p s in
      rw (take_while, drop_while, passed) (ap (λ t. c ∷ t) whole, (passed, passes), stops)
  | inr stopped ↦ rw (take_while, drop_while, stopped) (refl, tt, stopped)
]

pub while-append :
    (p : ℕ → Bool) (s t : Text)
    → Passes p s
    → StopsAt p t
    → (take_while p (s ++ t) ≡ s) × (drop_while p (s ++ t) ≡ t)
unfolding take_while drop_while
while-append p [] [] h k = (refl, refl)
while-append p [] (c ∷ t) h k = ground (arith, k)
while-append p (c ∷ s) t (passed, h) k =
    let (a, b) = while-append p s t h k in
    (rw (take_while, passed, a) refl, rw (drop_while, passed) b)

strip_fold-some :
    (ks s r : Text) → strip_fold ks s ≡ some r → (kw : Text) × (upper kw ≡ ks) × (s ≡ kw ++ r)
unfolding strip_fold
strip_fold-some [] s r e = ([], refl, cc e)
strip_fold-some (k ∷ ks) [] r e = absurd (cc e)
strip_fold-some (k ∷ ks) (c ∷ s) r e = elim (Bool-cases (to_upper c == k)) [
  | inl same ↦
      let (kw, folds, parts) = strip_fold-some ks s r (rw (strip_fold, same) at e) in
      (c ∷ kw, ground (arith, folds), ap (λ t. c ∷ t) parts)
  | inr other ↦ absurd (cc (rw (strip_fold, other) at e))
]

strip_fold-upper : (kw r : Text) → strip_fold (upper kw) (kw ++ r) ≡ some r
unfolding strip_fold
strip_fold-upper [] r = refl
strip_fold-upper (c ∷ kw) r =
    let same : (to_upper c == to_upper c) ≡ true = ground arith in
    rw (strip_fold, same) (strip_fold-upper kw r)

strip_fold-word : (ks kw r : Text) → upper kw ≡ ks → strip_fold ks (kw ++ r) ≡ some r
strip_fold-word ks kw r e = rw (← e) (strip_fold-upper kw r)

or_false : (a b : Bool) → (a || b) ≡ false → (a ≡ false) × (b ≡ false)
or_false true b e = absurd (cc e)
or_false false b e = (refl, e)

-- The parts of a match at the head of a text: the word, the white space, the digits, and what follows
-- them, which does not go on with a digit.
pub record Parts (s whole : Text) : Type 0 where
  pub keyword : Text
  pub spaces : Text
  pub digits : Text
  pub rest : Text
  pub text : s ≡ keyword ++ (spaces ++ (digits ++ rest))
  pub match : whole ≡ keyword ++ (spaces ++ digits)
  pub folds : upper keyword ≡ codes "LIMIT"
  pub some_spaces : spaces ≢ []
  pub are_spaces : Passes is_re_space spaces
  pub some_digits : digits ≢ []
  pub are_digits : Passes is_digit digits
  pub ends : StopsAt is_digit rest

take-keyword : (kw r : Text) → upper kw ≡ codes "LIMIT" → take 5 (kw ++ r) ≡ kw
take-keyword (a ∷ b ∷ c ∷ d ∷ e ∷ []) r h = refl
take-keyword [] r h = absurd (cc h)
take-keyword (a ∷ []) r h = absurd (cc h)
take-keyword (a ∷ b ∷ []) r h = absurd (cc h)
take-keyword (a ∷ b ∷ c ∷ []) r h = absurd (cc h)
take-keyword (a ∷ b ∷ c ∷ d ∷ []) r h = absurd (cc h)
take-keyword (a ∷ b ∷ c ∷ d ∷ e ∷ f ∷ kw) r h = absurd (cc h)

not_empty : (s : Text) → is_empty s ≡ false → s ≢ []
not_empty [] e h = cc e
not_empty (c ∷ s) e h = cc h

pub is_empty-not : (s : Text) → s ≢ [] → is_empty s ≡ false
is_empty-not [] h = absurd (h refl)
is_empty-not (c ∷ s) h = refl

pub match_limit-Parts : (s whole : Text) → match_limit s ≡ some whole → Parts s whole
unfolding match_limit
match_limit-Parts s whole e = elim (Option-cases (strip_fold (codes "LIMIT") s)) [
  | inl no_word ↦ absurd (cc (rw (match_limit, no_word) at e))
  | inr (r, word) ↦
      let sp = take_while is_re_space r in
      let behind = drop_while is_re_space r in
      let dg = take_while is_digit behind in
      let (kw, folds, parts) = strip_fold-some (codes "LIMIT") s r word in
      let (first, are_spaces, _) = split_while is_re_space r in
      let (second, are_digits, ends) = split_while is_digit behind in
      let head : take 5 s ≡ kw = rw parts (take-keyword kw r folds) in
      elim (Bool-cases (is_empty sp || is_empty dg)) [
        | inl lacking ↦ absurd (cc (rw (match_limit, word, lacking) at e))
        | inr full ↦
            let same : some (take 5 s ++ (sp ++ dg)) ≡ some whole =
              rw (match_limit, word, full) at e in
            record {
              keyword = kw;
              spaces = sp;
              digits = dg;
              rest = drop_while is_digit behind;
              text = parts ∙ ap (λ t. kw ++ t) (first ∙ ap (λ t. sp ++ t) second);
              match = sym (cc same) ∙ ap (λ t. t ++ (sp ++ dg)) head;
              folds = folds;
              some_spaces = not_empty sp (or_false (is_empty sp) (is_empty dg) full).0;
              are_spaces = are_spaces;
              some_digits = not_empty dg (or_false (is_empty sp) (is_empty dg) full).1;
              are_digits = are_digits;
              ends = ends;
            }
      ]
]

pub digit_no_space :
    (dg rest : Text) → dg ≢ [] → Passes is_digit dg → StopsAt is_re_space (dg ++ rest)
digit_no_space [] rest h k = absurd (h refl)
digit_no_space (c ∷ dg) rest h (digit, k) = ground (arith, digit)

pub Parts-match_limit : (s whole : Text) → Parts s whole → match_limit s ≡ some whole
unfolding match_limit
Parts-match_limit s whole p =
    let behind = p.digits ++ p.rest in
    let word : strip_fold (codes "LIMIT") s ≡ some (p.spaces ++ behind) =
      rw p.text (strip_fold-word (codes "LIMIT") p.keyword (p.spaces ++ behind) p.folds) in
    let (a, b) =
      while-append is_re_space p.spaces behind p.are_spaces
        (digit_no_space p.digits p.rest p.some_digits p.are_digits) in
    let (c, d) = while-append is_digit p.digits p.rest p.are_digits p.ends in
    let head : take 5 s ≡ p.keyword =
      rw p.text (take-keyword p.keyword (p.spaces ++ behind) p.folds) in
    rw
      (
        match_limit,
        word,
        a,
        b,
        c,
        is_empty-not p.spaces p.some_spaces,
        is_empty-not p.digits p.some_digits,
        head,
        p.match,
      )
      refl
