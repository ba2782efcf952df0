-- ===== src/Mcp/Tools/Effects.antt =====
-- internal/mcp/tools.go: what a call of a tool changes.
use safe_my_sqlmcp_server.Base.{Text, ◌≡◌, ◌⊎◌, inl, inr, refl, Option-cases}
use safe_my_sqlmcp_server.Validation.{validate_database_name, validate_sql}
use safe_my_sqlmcp_server.Auth.Context.{Context}
use safe_my_sqlmcp_server.Mcp.Handler.{Handler, Env, State}
use safe_my_sqlmcp_server.Mcp.Query.{handle_query_tool, execute_query}
use safe_my_sqlmcp_server.Mcp.Explain.{handle_explain_tool, execute_explain}
use safe_my_sqlmcp_server.Mcp.Tools.{
  Call, query_call, list_databases_call, list_tables_call, describe_table_call,
  show_create_table_call, explain_call, search_tables_call, Outside, env_for, call_tool,
}

module _ (env : Env) (h : Handler) (db sql : Text) (st : State) where
  handle_query_tool-cases :
      ((handle_query_tool env h db sql st).0 ≡ st)
      ⊎ ((handle_query_tool env h db sql st).0 ≡ (execute_query env h db sql st).0)
  unfolding handle_query_tool
  handle_query_tool-cases = elim (Option-cases (validate_database_name db)) [
    | inr (e, bad) ↦ rw (handle_query_tool, bad) (inl refl)
    | inl good ↦ elim (Option-cases (validate_sql sql)) [
      | inr (e, bad) ↦ rw (handle_query_tool, good, bad) (inl refl)
      | inl fine ↦ rw (handle_query_tool, good, fine) (inr refl)
    ]
  ]

  handle_explain_tool-cases :
      ((handle_explain_tool env h db sql st).0 ≡ st)
      ⊎ ((handle_explain_tool env h db sql st).0 ≡ (execute_explain env h db sql st).0)
  unfolding handle_explain_tool
  handle_explain_tool-cases = elim (Option-cases (validate_database_name db)) [
    | inr (e, bad) ↦ rw (handle_explain_tool, bad) (inl refl)
    | inl good ↦ elim (Option-cases (validate_sql sql)) [
      | inr (e, bad) ↦ rw (handle_explain_tool, good, bad) (inl refl)
      | inl fine ↦ rw (handle_explain_tool, good, fine) (inr refl)
    ]
  ]

-- A call leaves the log and sends nothing through the router's `Query` and `Exec`, or it executes a
-- query or an EXPLAIN as the user of its context.
pub data Effect (env : Env) (h : Handler) (st st' : State) : Type 0 where
  silent : st'.sent ≡ st.sent → st'.logger ≡ st.logger → Effect env h st st'
  queries : (db sql : Text) → st' ≡ (execute_query env h db sql st).0 → Effect env h st st'
  explains : (db sql : Text) → st' ≡ (execute_explain env h db sql st).0 → Effect env h st st'

module _ (ctx : Context) (o : Outside) (h : Handler) where
  pub call_tool-Effect :
      (c : Call) (st : State) → Effect (env_for ctx o) h st (call_tool ctx o h c st).0
  unfolding call_tool
  call_tool-Effect (query_call i) st =
      elim (handle_query_tool-cases (env_for ctx o) h i.database i.sql st) [
        | inl same ↦ rw same (silent refl refl)
        | inr runs ↦ queries i.database i.sql runs
      ]
  call_tool-Effect list_databases_call st = silent refl refl
  call_tool-Effect (list_tables_call i) st = silent refl refl
  call_tool-Effect (describe_table_call i) st = silent refl refl
  call_tool-Effect (show_create_table_call i) st = silent refl refl
  call_tool-Effect (explain_call i) st =
      elim (handle_explain_tool-cases (env_for ctx o) h i.database i.sql st) [
        | inl same ↦ rw same (silent refl refl)
        | inr runs ↦ explains i.database i.sql runs
      ]
  call_tool-Effect (search_tables_call i) st = silent refl refl
