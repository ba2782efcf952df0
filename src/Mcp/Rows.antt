-- ===== src/Mcp/Rows.antt =====
-- internal/mcp/tools.go, the loop that reads the rows of a query. The rows of `database/sql` are the
-- list of what `Next` and `Scan` give, one after the other.
pub mod Laws
use safe_my_sqlmcp_server.Base.{
  ℕ, suc, ◌+◌, Text, ltb, Bool, List, [], ◌∷◌, ◌++◌, map, Option, ◌⊎◌, inl, inr, if◌then◌else◌,
}

-- A scanned value: bytes, a string, or a value of another dynamic type, by some number.
pub data Value : Type 0 where
  bytes string : Text → Value
  other : ℕ → Value

-- One round of `Next`: a row that can be scanned, or an error of `Scan`.
pub data Step : Type 0 where
  row : List Value → Step
  bad_row : Text → Step

-- `*sql.Rows`: the columns or their error, the rounds, and the error of `Err` behind the last one.
pub record RowSet : Type 0 where
  pub columns : Text ⊎ List Text
  pub steps : List Step
  pub end_error : Option Text

-- The conversion of `[]byte` to `string`
abbrev pub to_json_value : Value → Value
to_json_value (bytes b) = string b
to_json_value (string s) = string s
to_json_value (other n) = other n

-- `for rows.Next() && rowCount < maxRows`, with the count and the rows so far
unfoldable pub fetch : ℕ → ℕ → List (List Value) → List Step → Text ⊎ List (List Value)
fetch max count rows [] = inr rows
fetch max count rows (row values ∷ steps) =
    let more = fetch max (count + 1) (rows ++ map to_json_value values ∷ []) steps in
    if ltb count max then more else inr rows
fetch max count rows (bad_row e ∷ steps) = if ltb count max then inl e else inr rows
