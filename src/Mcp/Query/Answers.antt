-- ===== src/Mcp/Query/Answers.antt =====
-- internal/mcp/tools.go: the tool `query` on a statement that is permitted and that the server accepts.
use safe_my_sqlmcp_server.Base.{
  pos, Text, [], length, take, true, false, List, map, Option, ◌≡◌, ◌≢◌, ◌⊎◌, inr, arith,
}
use safe_my_sqlmcp_server.Security.Parser.{update, delete, ParsedSql}
use safe_my_sqlmcp_server.Database.Router.{exec}
use safe_my_sqlmcp_server.Database.Router.Accepts.{Accepts}
use safe_my_sqlmcp_server.Mcp.Rows.{Value, row, to_json_value}
use safe_my_sqlmcp_server.Mcp.Handler.{Handler, Env, ExecResult, get_max_rows}
use safe_my_sqlmcp_server.Mcp.Query.{
  QueryResult, sql_to_execute, warnings_of, or_zero, returns_rows,
}

reads_only : (p : ParsedSql) → returns_rows p.type ≡ true → (p.type ≢ update) × (p.type ≢ delete)
reads_only p reads = (λ e. ground (arith, reads), λ e. ground (arith, reads))

module _ (env : Env) (h : Handler) (db sql : Text) where
  -- The result for some rows of the server: the first ones, up to the limit
  abbrev pub rows_result : List Text → List (List Value) → QueryResult
  rows_result columns rows = record {
    columns = columns;
    rows = map (map to_json_value) (take (get_max_rows h) rows);
    rows_affected = pos (length (map (map to_json_value) (take (get_max_rows h) rows)));
    last_insert_id = pos 0;
    warnings = [];
  }

  -- The result for the counts of a write
  abbrev pub write_result : ParsedSql → ExecResult → QueryResult
  write_result p r = record {
    columns = [];
    rows = [];
    rows_affected = or_zero r.rows_affected;
    last_insert_id = or_zero r.last_insert_id;
    warnings = warnings_of h p;
  }

  -- The server accepts the statement. A read gets rows that can all be scanned, any other statement
  -- its counts; `result` is what the client is to get of them.
  abbrev pub Gives : ParsedSql → QueryResult → Type 0
  Gives p result =
      ((returns_rows p.type ≡ true)
        × ((columns : List Text) × (rows : List (List Value)) × (end_error : Option Text) × Accepts
              env.rows (sql_to_execute h sql p)
              (record { columns = inr columns; steps = map row rows; end_error = end_error })
            × (result ≡ rows_result columns rows)))
      ⊎ ((returns_rows p.type ≡ false)
          × ((r : ExecResult) × Accepts env.exec (sql_to_execute h sql p) r
              × (result ≡ write_result p r)))
