-- ===== src/Mcp/Tools/Panics.antt =====
-- internal/mcp/tools.go: when a call of a tool panics.
mod Texts
use safe_my_sqlmcp_server.Base.{
  Text, Bool, true, Option, none, some, ◌≡◌, ◌↔◌, ◌⊎◌, inl, inr, refl, arith, Bool-cases, Sum-cases,
  Option-cases, List, [], ◌∷◌, ap, sym, ◌∙◌,
}
use safe_my_sqlmcp_server.Validation.{ValidationError, validate_database_name, validate_sql}
use safe_my_sqlmcp_server.Security.Parser.{
  ParsedSql, TidbResult, syntax_error, stmts, ParseResult, parse_error, nothing, parsed, parse,
  first_stmt, is_dml,
}
use safe_my_sqlmcp_server.Security.Checker.{check}
use safe_my_sqlmcp_server.Auth.Context.{Context}
use safe_my_sqlmcp_server.Database.Router.{RouterError, query, exec}
use safe_my_sqlmcp_server.Mcp.Rows.{RowSet, fetch}
use safe_my_sqlmcp_server.Mcp.Handler.{Handler, Env, State, ExecResult, get_max_rows}
use safe_my_sqlmcp_server.Mcp.Query
use safe_my_sqlmcp_server.Mcp.Query.{
  returns_rows, sql_to_execute, read_rows, finish_query, finish_exec, succeed, fail_in_router,
  after, run_query, run_exec, run_parsed, run_result, execute_query, handle_query_tool,
}
use safe_my_sqlmcp_server.Mcp.Explain
use safe_my_sqlmcp_server.Mcp.Explain.{
  plan_of, read_plan, fetch_all, explain_parsed, execute_explain, handle_explain_tool, explain_text,
}
use safe_my_sqlmcp_server.Mcp.Catalog
use safe_my_sqlmcp_server.Mcp.Catalog.{
  Answer, handle_list_tables_tool, handle_describe_table_tool, handle_show_create_table_tool,
}
use safe_my_sqlmcp_server.Mcp.Search.{SearchTablesResult, handle_search_tables_tool}
use safe_my_sqlmcp_server.Mcp.Tools.{
  Call, query_call, list_databases_call, list_tables_call, describe_table_call,
  show_create_table_call, explain_call, search_tables_call, Outside, env_for, call_tool, Told,
  structured, panics, error_text, told, told_answer, query_result, explain_result,
  search_tables_result,
}
use safe_my_sqlmcp_server.Mcp.Tools.Panics.Texts.{
  HoldsNoStatement, told_query-panics, told_explain-panics, query_panics, explain_panics,
}

told_answer-returns : {R : Type 0} (a : Answer R) → ¬ (told_answer a ≡ panics)
told_answer-returns (Catalog.answered r) bad = absurd (cc bad)
told_answer-returns (Catalog.refused e) bad = absurd (cc bad)
told_answer-returns (Catalog.unreachable e) bad = absurd (cc bad)
told_answer-returns (Catalog.scan_failed e) bad = absurd (cc bad)

told_search-returns :
    (a : ValidationError ⊎ SearchTablesResult) → ¬ (told (search_tables_result a) ≡ panics)
unfolding told
told_search-returns (inl e) bad = absurd (cc bad)
told_search-returns (inr r) bad = absurd (cc bad)

-- A call of `query` or `explain` with valid arguments and a text with no statement
abbrev pub IsEmptyCall : Env → Call → Type 0
IsEmptyCall env (query_call i) = HoldsNoStatement env i.database i.sql
IsEmptyCall env (explain_call i) = HoldsNoStatement env i.database i.sql
IsEmptyCall env list_databases_call = ⊥
IsEmptyCall env (list_tables_call i) = ⊥
IsEmptyCall env (describe_table_call i) = ⊥
IsEmptyCall env (show_create_table_call i) = ⊥
IsEmptyCall env (search_tables_call i) = ⊥

module _ (ctx : Context) (o : Outside) (h : Handler) where
  panics-IsEmptyCall :
      (c : Call) (st : State) → told (call_tool ctx o h c st).1 ≡ panics → IsEmptyCall o.env c
  unfolding call_tool told
  panics-IsEmptyCall (query_call i) st bad =
      told_query-panics (env_for ctx o) h i.database i.sql st bad
  panics-IsEmptyCall (explain_call i) st bad =
      told_explain-panics (env_for ctx o) h i.database i.sql st bad
  panics-IsEmptyCall list_databases_call st bad = absurd (cc bad)
  panics-IsEmptyCall (list_tables_call i) st bad =
      told_answer-returns (handle_list_tables_tool o.responses h st.pool i.database).answer bad
  panics-IsEmptyCall (describe_table_call i) st bad =
      told_answer-returns
        (handle_describe_table_tool o.responses h st.pool i.database i.table).answer bad
  panics-IsEmptyCall (show_create_table_call i) st bad =
      told_answer-returns
        (handle_show_create_table_tool o.responses h st.pool i.database i.table).answer bad
  panics-IsEmptyCall (search_tables_call i) st bad =
      told_search-returns (handle_search_tables_tool o.catalog h i.table_pattern st.pool).1 bad

  IsEmptyCall-panics :
      (c : Call) (st : State)
      → IsEmptyCall o.env c
      → (told (call_tool ctx o h c st).1 ≡ panics) × ((call_tool ctx o h c st).0 ≡ st)
  unfolding call_tool told
  IsEmptyCall-panics (query_call i) st empty =
      rw (query_panics (env_for ctx o) h i.database i.sql st empty) (refl, refl)
  IsEmptyCall-panics (explain_call i) st empty =
      rw (explain_panics (env_for ctx o) h i.database i.sql st empty) (refl, refl)
  IsEmptyCall-panics list_databases_call st empty = absurd empty
  IsEmptyCall-panics (list_tables_call i) st empty = absurd empty
  IsEmptyCall-panics (describe_table_call i) st empty = absurd empty
  IsEmptyCall-panics (show_create_table_call i) st empty = absurd empty
  IsEmptyCall-panics (search_tables_call i) st empty = absurd empty

  -- A call of a tool panics exactly if the tool is `query` or `explain`, its arguments are valid and
  -- its text is one that the TiDB parser accepts and that holds no statement, such as a comment. Then
  -- nothing is sent or logged. Every other call of any tool gives its caller a result or an error.
  pub panics_iff :
      (c : Call) (st : State)
      → ((told (call_tool ctx o h c st).1 ≡ panics) ↔ IsEmptyCall o.env c)
        × (IsEmptyCall o.env c → (call_tool ctx o h c st).0 ≡ st)
  panics_iff c st = (
    (panics-IsEmptyCall c st, λ empty. (IsEmptyCall-panics c st empty).0),
    λ empty. (IsEmptyCall-panics c st empty).1,
  )
