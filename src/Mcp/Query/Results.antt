-- ===== src/Mcp/Query/Results.antt =====
-- internal/mcp/tools.go: what the tool `query` returns.
use safe_my_sqlmcp_server.Base.{◌≤◌, Text, [], length, none, ◌≡◌, ◌≢◌, ◌⊎◌, inr, arith}
use safe_my_sqlmcp_server.Security.Parser.{
  select, show, explain, ParsedSql, parse, first_stmt, stmts,
}
use safe_my_sqlmcp_server.Mcp.Rows.{RowSet}
use safe_my_sqlmcp_server.Mcp.Rows.Laws.{IsPrefixOf}
use safe_my_sqlmcp_server.Mcp.Handler.{Handler, Env, State, get_max_rows}
use safe_my_sqlmcp_server.Mcp.Query.{
  QueryResult, run_result, execute_query, handle_query_tool, crashed,
}
use safe_my_sqlmcp_server.Validation.{validate_database_name, validate_sql}

module _ (env : Env) (h : Handler) (db sql : Text) where
  -- The rows of a statement that reads: the first that the server gave for the executed text, in order
  -- and with its columns, and all that it gave unless the limit was reached.
  abbrev pub IsRead : Text → QueryResult → Type 0
  IsRead text r =
      (length r.rows ≤ get_max_rows h)
      × ((set : RowSet) × (env.rows.run text ≡ inr set)
          × (set.columns ≡ inr r.columns)
          × IsPrefixOf (get_max_rows h) 0 r.rows set.steps)

  -- A SELECT or SHOW gives the rows that were read, any other statement no rows. The type EXPLAIN, which
  -- no summary has, is a reading one too.
  abbrev pub IsFrom : ParsedSql → QueryResult → Type 0
  IsFrom p r =
      (((p.type ≡ select) ⊎ (p.type ≡ show) ⊎ (p.type ≡ explain)) × IsRead sql r)
      ⊎ ((p.type ≢ select) × (p.type ≢ show) × (r.rows ≡ []))

  -- A text that the parser accepts and that holds no statement, such as a comment, makes the tool
  -- panic, and nothing is logged.
  pub no_statement_panics :
      (st : State)
      → validate_database_name db ≡ none
      → validate_sql sql ≡ none
      → env.tidb sql ≡ stmts []
      → handle_query_tool env h db sql st ≡ (st, crashed)
  unfolding handle_query_tool execute_query run_result parse first_stmt
  no_statement_panics st named sized e = ground arith
