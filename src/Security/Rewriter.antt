-- ===== src/Security/Rewriter.antt =====
-- internal/security/rewriter.go: the LIMIT that is added to an UPDATE or DELETE with no WHERE
-- clause, and the cap on the LIMIT of a SELECT. The regular expression `(?i)\bLIMIT\s+(\d+)` is
-- matched by hand over bytes, as `ReplaceAllStringFunc` does from left to right.
pub mod Matches
pub mod Replaced
pub mod Scanning
pub mod Blocks
pub mod Capped
pub mod Added
use safe_my_sqlmcp_server.Base.{
  ℕ, zero, suc, ◌-◌, ℤ, pos, leb_ℤ, ltb_ℤ, Text, codes, text_eq, Bool, true, false, not, ◌&&◌, ◌||◌,
  List, [], ◌∷◌, ◌++◌, length, take, Option, none, some, if◌then◌else◌, ◌==◌, is_empty, is_space,
  is_upper, is_lower, is_digit, to_upper, trim_space, trim_right, format_ℤ, parse_int64,
}
use safe_my_sqlmcp_server.Config.{SecurityRules}
use safe_my_sqlmcp_server.Security.Parser.{ParsedSql, SqlType, select, update, delete}

pub record Rewriter : Type 0 where
  pub rules : Option SecurityRules

-- RewriteResult
pub record RewriteResult : Type 0 where
  pub sql : Text
  pub changed : Bool

-- A word character of `\b`, and white space of `\s`
abbrev pub is_word : ℕ → Bool
is_word c = is_upper c || is_lower c || is_digit c || c == b'_'

abbrev pub is_re_space : ℕ → Bool
is_re_space c = c == 32 || c == 9 || c == 10 || c == 12 || c == 13

-- The longest prefix whose bytes pass a test, and what follows it.
unfoldable pub take_while : (ℕ → Bool) → Text → Text
take_while p [] = []
take_while p (c ∷ s) = if p c then c ∷ take_while p s else []

unfoldable pub drop_while : (ℕ → Bool) → Text → Text
drop_while p [] = []
drop_while p (c ∷ s) = if p c then drop_while p s else c ∷ s

-- What follows a word, in upper case, that is matched in any case.
unfoldable pub strip_fold : Text → Text → Option Text
strip_fold [] s = some s
strip_fold (k ∷ ks) [] = none
strip_fold (k ∷ ks) (c ∷ s) = if to_upper c == k then strip_fold ks s else none

-- `LIMIT\s+\d+` at the head of a text: the matched bytes.
unfoldable pub match_limit : Text → Option Text
unfolding take_while drop_while strip_fold
match_limit s = elim (strip_fold (codes "LIMIT") s) [
  | none ↦ none
  | some r ↦
      let spaces = take_while is_re_space r in
      let digits = take_while is_digit (drop_while is_re_space r) in
      if is_empty spaces || is_empty digits then none else some (take 5 s ++ (spaces ++ digits))
]

-- `strings.Fields`, with the field read so far
abbrev pub flush : Text → List Text
flush [] = []
flush (c ∷ s) = (c ∷ s) ∷ []

unfoldable pub fields_from : Text → Text → List Text
fields_from cur [] = flush cur
fields_from cur (c ∷ s) = elim (is_space c) [
  | true ↦ flush cur ++ fields_from [] s
  | false ↦ fields_from (cur ++ c ∷ []) s
]

unfoldable pub fields : Text → List Text
unfolding fields_from
fields s = fields_from [] s

-- `fmt.Sscanf(s, "%d", &limit)` of a text that begins with no space or sign.
unfoldable pub scan_int : Text → Option ℕ
unfolding take_while parse_int64
scan_int s =
    let digits = take_while is_digit s in if is_empty digits then none else parse_int64 digits

-- The replacement of one match, by the number in its second field.
unfoldable pub cap_number : ℤ → Text → Option ℕ → Text
unfolding format_ℤ
cap_number max whole none = whole
cap_number max whole (some limit) =
    if ltb_ℤ max (pos limit) then codes "LIMIT " ++ format_ℤ max else whole

unfoldable pub cap_fields : ℤ → Text → List Text → Text
unfolding cap_number scan_int
cap_fields max whole (keyword ∷ number ∷ []) = cap_number max whole (scan_int number)
cap_fields max whole _ = whole

unfoldable pub cap_match : ℤ → Text → Text
unfolding cap_fields fields
cap_match max whole = cap_fields max whole (fields whole)

-- A match may begin here only at a word boundary.
abbrev pub limit_at : Bool → Text → Option Text
limit_at after_word s = if after_word then none else match_limit s

-- The replacement of all matches. `skip` counts the bytes left of the match that was just replaced,
-- and `after_word` is whether the byte before is a word character.
unfoldable pub cap_from : ℤ → Bool → ℕ → Text → Text
unfolding match_limit cap_match
cap_from max after_word skip [] = []
cap_from max after_word (suc skip) (c ∷ s) = cap_from max (is_word c) skip s
cap_from max after_word zero (c ∷ s) = elim (limit_at after_word (c ∷ s)) [
  | none ↦ c ∷ cap_from max (is_word c) 0 s
  | some whole ↦ cap_match max whole ++ cap_from max (is_word c) (length whole - 1) s
]

-- (*Rewriter).capLimit
unfoldable pub cap_limit : Text → ℤ → Text
unfolding cap_from
cap_limit sql max = if leb_ℤ max (pos 0) then sql else cap_from max false 0 sql

-- (*Rewriter).addLimit
unfoldable pub add_limit : Text → ℤ → Text
unfolding trim_space trim_right format_ℤ
add_limit sql limit =
    if leb_ℤ limit (pos 0)
    then sql
    else trim_right (λ c. c == b';') (trim_space sql) ++ (codes " LIMIT " ++ format_ℤ limit)

abbrev pub is_bulk_write : SqlType → Bool
is_bulk_write update = true
is_bulk_write delete = true
is_bulk_write _ = false

abbrev pub is_select : SqlType → Bool
is_select select = true
is_select _ = false

-- The second half of `Rewrite`: the cap on a SELECT.
unfoldable pub rewrite_select : SecurityRules → ParsedSql → RewriteResult
unfolding cap_limit
rewrite_select rules p =
    let new_sql = cap_limit p.original rules.max_limit in
    if is_select p.type && (ltb_ℤ (pos 0) rules.max_limit && p.has_limit)
    then (if not (text_eq new_sql p.original)
        then record { sql = new_sql; changed = true }
        else record { sql = p.original; changed = false })
    else record { sql = p.original; changed = false }

-- (*Rewriter).Rewrite, once the statement and the rules are there
unfoldable pub rewrite_under : SecurityRules → ParsedSql → RewriteResult
unfolding rewrite_select add_limit
rewrite_under rules p =
    if (is_bulk_write p.type && not p.has_where)
      && (not p.has_limit && ltb_ℤ (pos 0) rules.auto_limit)
    then record { sql = add_limit p.original rules.auto_limit; changed = true }
    else rewrite_select rules p

-- (*Rewriter).Rewrite
unfoldable pub rewrite : Rewriter → Option ParsedSql → RewriteResult
unfolding rewrite_under
rewrite r none = record { sql = []; changed = false }
rewrite r (some p) = elim r.rules [
  | none ↦ record { sql = []; changed = false }
  | some rules ↦ rewrite_under rules p
]

-- (*Rewriter).UpdateRules
unfoldable pub update_rewriter : Rewriter → Option SecurityRules → Rewriter
update_rewriter r rules = record r { rules = rules }
