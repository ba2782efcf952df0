-- ===== src/Mcp/Explain.antt =====
-- internal/mcp/tools.go, the tool `explain`. It asks neither the checker nor the audit log.
pub mod Steps
use safe_my_sqlmcp_server.Base.{
  Text, codes, List, [], ◌∷◌, ◌++◌, map, ◌⊎◌, inl, inr, none, some, if◌then◌else◌,
}
use safe_my_sqlmcp_server.Validation.{ValidationError, validate_database_name, validate_sql}
use safe_my_sqlmcp_server.Security.Parser.{
  SqlType, is_dml, ParsedSql, ParseResult, parse_error, nothing, parsed, parse,
}
use safe_my_sqlmcp_server.Database.Router.{RouterError, query}
use safe_my_sqlmcp_server.Mcp.Rows.{Value, Step, row, bad_row, RowSet, to_json_value}
use safe_my_sqlmcp_server.Mcp.Handler.{Handler, Env, State}

-- ExplainResult
pub record ExplainResult : Type 0 where
  pub columns : List Text
  pub rows : List (List Value)

pub data ExplainError : Type 0 where
  invalid_sql columns_failed scan_failed : Text → ExplainError
  unsupported : SqlType → ExplainError
  router_failed : RouterError → ExplainError

pub data ExplainReply : Type 0 where
  explained : ExplainResult → ExplainReply
  failed : ExplainError → ExplainReply
  panicked : ExplainReply

-- `for rows.Next()`, with the rows so far; there is no limit here.
unfoldable pub fetch_all : List (List Value) → List Step → Text ⊎ List (List Value)
fetch_all rows [] = inr rows
fetch_all rows (row values ∷ steps) = fetch_all (rows ++ map to_json_value values ∷ []) steps
fetch_all rows (bad_row e ∷ steps) = inl e

abbrev pub explain_text : Text → Text
explain_text sql = codes "EXPLAIN " ++ sql

unfoldable pub read_plan : RowSet → ExplainReply
unfolding fetch_all
read_plan rows = elim rows.columns [
  | inl e ↦ failed (columns_failed e)
  | inr columns ↦ elim (fetch_all [] rows.steps) [
    | inl e ↦ failed (scan_failed e)
    | inr fetched ↦ explained (record { columns = columns; rows = fetched })
  ]
]

-- What becomes of the outcome of the router.
unfoldable pub plan_of : RouterError ⊎ RowSet → ExplainReply
unfolding read_plan
plan_of (inl e) = failed (router_failed e)
plan_of (inr rows) = read_plan rows

module _ (env : Env) (h : Handler) (db sql : Text) where
  -- The switch on the type, and what follows it. With no statement the type is read through the nil
  -- pointer.
  unfoldable pub explain_parsed : ParseResult → State → State × ExplainReply
  unfolding plan_of
  explain_parsed (parse_error e) st = (st, failed (invalid_sql e))
  explain_parsed nothing st = (st, panicked)
  explain_parsed (parsed p) st =
      let o = query env.rows h.router st.pool db (explain_text sql) in
      if is_dml p.type
      then (record st { pool = o.pool; sent = st.sent ++ o.sent }, plan_of o.result)
      else (st, failed (unsupported p.type))

  -- (*Handler).executeExplain
  unfoldable pub execute_explain : State → State × ExplainReply
  execute_explain st = explain_parsed (parse env.tidb sql) st

-- What the tool answers.
pub data ToolReply : Type 0 where
  invalid : ValidationError → ToolReply
  ran : ExplainReply → ToolReply

-- (*Handler).handleExplainTool
unfoldable pub handle_explain_tool : Env → Handler → Text → Text → State → State × ToolReply
handle_explain_tool env h db sql st = elim (validate_database_name db) [
  | some e ↦ (st, invalid e)
  | none ↦ elim (validate_sql sql) [
    | some e ↦ (st, invalid e)
    | none ↦ let (st', reply) = execute_explain env h db sql st in (st', ran reply)
  ]
]
