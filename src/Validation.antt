-- ===== src/Validation.antt =====
-- internal/validation/validator.go: the checks of names, statements and patterns, and the escaping of
-- what goes into a statement. `none` is Go's nil error.
pub mod Names
pub mod Quoting
pub mod Like
use safe_my_sqlmcp_server.Base.{
  ℕ, Text, Bool, true, false, ◌&&◌, ◌||◌, not, List, [], ◌∷◌, ◌++◌, length, Option, none, some, ltb,
  ◌==◌, if◌then◌else◌, is_empty, is_upper, is_lower, is_digit,
}

abbrev pub max_identifier_length : ℕ
max_identifier_length = 64

abbrev pub max_sql_length : ℕ
max_sql_length = 100_000

abbrev pub max_pattern_length : ℕ
max_pattern_length = 256

-- The errors, with the values that their messages show.
pub data ValidationError : Type 0 where
  empty_database empty_table empty_sql pattern_required pattern_too_long : ValidationError
  identifier_too_long sql_too_long : ℕ → ValidationError
  invalid_identifier : Text → ValidationError

-- `[a-zA-Z_]` and `[a-zA-Z0-9_]`
abbrev pub is_initial : ℕ → Bool
is_initial c = is_lower c || is_upper c || c == b'_'

abbrev pub is_following : ℕ → Bool
is_following c = is_lower c || is_upper c || is_digit c || c == b'_'

unfoldable pub all_following : Text → Bool
all_following [] = true
all_following (c ∷ s) = is_following c && all_following s

-- `identifierRegex.MatchString`
unfoldable pub is_identifier : Text → Bool
unfolding all_following
is_identifier [] = false
is_identifier (c ∷ s) = is_initial c && all_following s

-- What the two validators of names share, behind their own test for the empty name.
unfoldable pub validate_identifier : ValidationError → Text → Option ValidationError
unfolding is_identifier
validate_identifier empty name =
    if is_empty name
    then some empty
    else if ltb max_identifier_length (length name)
    then some (identifier_too_long (length name))
    else if not (is_identifier name)
    then some (invalid_identifier name)
    else none

-- ValidateDatabaseName
unfoldable pub validate_database_name : Text → Option ValidationError
unfolding validate_identifier
validate_database_name = validate_identifier empty_database

-- ValidateTableName
unfoldable pub validate_table_name : Text → Option ValidationError
unfolding validate_identifier
validate_table_name = validate_identifier empty_table

-- ValidateSQL
unfoldable pub validate_sql : Text → Option ValidationError
validate_sql sql =
    if is_empty sql
    then some empty_sql
    else if ltb max_sql_length (length sql)
    then some (sql_too_long (length sql))
    else none

-- ValidateSearchPattern
unfoldable pub validate_search_pattern : Text → Option ValidationError
validate_search_pattern pattern =
    if is_empty pattern
    then some pattern_required
    else if ltb max_pattern_length (length pattern)
    then some pattern_too_long
    else none

-- The three replacements of the `strings.Replacer`, each of one byte.
abbrev pub escape_byte : ℕ → Text
escape_byte c = if c == b'\\' || c == b'%' || c == b'_' then b'\\' ∷ c ∷ [] else c ∷ []

-- EscapeLikePattern
unfoldable pub escape_like_pattern : Text → Text
escape_like_pattern [] = []
escape_like_pattern (c ∷ s) = escape_byte c ++ escape_like_pattern s

-- `strings.ReplaceAll(name, "`", "``")`
unfoldable pub double_backticks : Text → Text
double_backticks [] = []
double_backticks (c ∷ s) =
    if c == b'`' then b'`' ∷ b'`' ∷ double_backticks s else c ∷ double_backticks s

-- QuoteIdentifier
unfoldable pub quote_identifier : Text → Text
unfolding double_backticks
quote_identifier name = b'`' ∷ (double_backticks name ++ b'`' ∷ [])

-- The outcome of ValidateAndQuoteIdentifier.
pub data Quoted : Type 0 where
  invalid : ValidationError → Quoted
  quoted : Text → Quoted

unfoldable pub validate_and_quote_identifier : Text → Quoted
unfolding validate_database_name quote_identifier
validate_and_quote_identifier name = elim (validate_database_name name) [
  | some e ↦ invalid e
  | none ↦ quoted (quote_identifier name)
]
