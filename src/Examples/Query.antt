-- ===== src/Examples/Query.antt =====
-- The tool `query` on a server that accepts all statements.
use safe_my_sqlmcp_server.Base.{
  codes, to_upper, equal_fold, lookup, insert, true, false, [], ◌∷◌, pos, ◌<ℤ◌, ◌≤ℤ◌, ◌≡◌, ◌⊎◌, inl,
  inr, refl, List,
}
use safe_my_sqlmcp_server.Config.{is_blocked, is_dml_allowed}
use safe_my_sqlmcp_server.Security.Parser.{ParsedSql, parsed, parse, first_stmt, type_name}
use safe_my_sqlmcp_server.Security.Checker.{check}
use safe_my_sqlmcp_server.Security.Checker.Policy.{Permits}
use safe_my_sqlmcp_server.Security.Rewriter.{rewrite}
use safe_my_sqlmcp_server.Security.Rewriter.Added.{HasAppended}
use safe_my_sqlmcp_server.Mcp.Rows.{Value, bytes, string, fetch}
use safe_my_sqlmcp_server.Mcp.Handler.{get_max_rows}
use safe_my_sqlmcp_server.Mcp.Query.{
  QueryResult, sql_to_execute, warnings_of, rewrite_warning, execute_query, run_result, run_parsed,
  run_query, run_exec, finish_query, finish_exec, read_rows, succeed,
}
use safe_my_sqlmcp_server.Mcp.Query.Steps.{SendsExecuted, sends_only_permitted}
use safe_my_sqlmcp_server.Mcp.Query.Audited.{Audited, execute_query-Audited}
use safe_my_sqlmcp_server.Mcp.Query.Rewriting.{bulk_write_executes}
use safe_my_sqlmcp_server.Database.Router.Accepts.{IsReachable}
use safe_my_sqlmcp_server.Database.Pool.{get}
use safe_my_sqlmcp_server.Database.Router.{
  query, exec, run_statement, run_behind, run_on, get_db, adjust, cannot_connect,
}
use safe_my_sqlmcp_server.Examples.Samples.{
  rules, env, handler, state, delete_all, delete_sql, main_db,
}

tool_tests : Unit {0}
unfolding execute_query run_result run_parsed run_query run_exec finish_query finish_exec read_rows
    succeed parse first_stmt check type_name is_blocked is_dml_allowed equal_fold to_upper rewrite
    fetch get_max_rows query exec run_statement run_behind run_on get_db get adjust cannot_connect
    lookup insert
tool_tests = tt

abbrev pub select_result : QueryResult
select_result = record {
  columns = codes "a" ∷ [];
  rows = (string (codes "1") ∷ []) ∷ (string (codes "2") ∷ []) ∷ [];
  rows_affected = pos 2;
  last_insert_id = pos 0;
  warnings = [];
}

abbrev pub all_rows : List (List Value)
all_rows = (bytes (codes "1") ∷ []) ∷ (bytes (codes "2") ∷ []) ∷ (bytes (codes "3") ∷ []) ∷ []

delete_test :
    (execute_query env handler (codes "app") delete_all state).0.sent
    ≡ (7, codes "USE `app`") ∷ (7, codes "DELETE FROM t LIMIT 100") ∷ []
unfolding tool_tests
delete_test = refl

sends_only_permitted_example :
    ((execute_query env handler (codes "app") delete_all state).0.sent ≡ state.sent)
    ⊎ ((p : ParsedSql) × (parse env.tidb delete_all ≡ parsed p)
        × Permits rules p.type
        × SendsExecuted env handler
            (codes "app")
            delete_all
            p
            state
            (execute_query env handler (codes "app") delete_all state).0)
sends_only_permitted_example =
    sends_only_permitted env handler (codes "app") delete_all rules state refl

execute_query-Audited_example :
    Audited env handler
      (codes "app")
      delete_all
      state
      (execute_query env handler (codes "app") delete_all state)
execute_query-Audited_example = execute_query-Audited env handler (codes "app") delete_all state

bulk_write_executes_example :
    (warnings_of handler delete_sql ≡ rewrite_warning ∷ [])
    × ((delete_sql.has_limit ≡ false)
        → pos 0 <ℤ rules.auto_limit
        → HasAppended delete_all rules.auto_limit (sql_to_execute handler delete_all delete_sql))
    × (((delete_sql.has_limit ≡ true) ⊎ (rules.auto_limit ≤ℤ pos 0))
        → sql_to_execute handler delete_all delete_sql ≡ delete_all)
unfolding parse first_stmt to_upper
bulk_write_executes_example =
    bulk_write_executes handler rules env.tidb delete_all delete_sql (refl, refl) refl
      (inr (inl refl), inr refl, refl)

pub app_reachable : IsReachable handler.router state.pool (codes "app")
unfolding lookup
app_reachable = record {
  config = record { cluster = codes "main" };
  entry = main_db;
  known = refl;
  found = refl;
  is_open = refl;
  has_room = refl;
}
