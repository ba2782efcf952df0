-- ===== src/Mcp/Tools/Panics/Texts.antt =====
-- internal/mcp/tools.go: the texts with which the tools `query` and `explain` panic.
use safe_my_sqlmcp_server.Base.{
  Text, none, some, ◌≡◌, ◌⊎◌, inl, inr, refl, Bool-cases, Sum-cases, Option-cases, [], ◌∷◌,
}
use safe_my_sqlmcp_server.Validation.{validate_database_name, validate_sql}
use safe_my_sqlmcp_server.Security.Parser.{
  ParsedSql, TidbResult, syntax_error, stmts, ParseResult, parse_error, nothing, parsed, parse,
  first_stmt, is_dml,
}
use safe_my_sqlmcp_server.Security.Checker.{check}
use safe_my_sqlmcp_server.Database.Router.{RouterError, query, exec}
use safe_my_sqlmcp_server.Mcp.Rows.{RowSet, fetch}
use safe_my_sqlmcp_server.Mcp.Handler.{Handler, Env, State, ExecResult, get_max_rows}
use safe_my_sqlmcp_server.Mcp.Query
use safe_my_sqlmcp_server.Mcp.Query.{
  returns_rows, sql_to_execute, read_rows, finish_query, finish_exec, succeed, fail_in_router,
  after, run_query, run_exec, run_parsed, run_result, execute_query, handle_query_tool,
}
use safe_my_sqlmcp_server.Mcp.Explain
use safe_my_sqlmcp_server.Mcp.Explain.{
  plan_of, read_plan, fetch_all, explain_parsed, execute_explain, handle_explain_tool, explain_text,
}
use safe_my_sqlmcp_server.Mcp.Tools.{panics, told, query_result, explain_result}

-- The text of a call holds no statement, and its arguments are valid.
abbrev pub HoldsNoStatement : Env → Text → Text → Type 0
HoldsNoStatement env db sql =
    (validate_database_name db ≡ none) × (validate_sql sql ≡ none) × (env.tidb sql ≡ stmts [])

module _ (env : Env) (h : Handler) (db sql : Text) where
  read_rows-returns :
      (p : ParsedSql) (rows : RowSet) (st : State)
      → ¬ ((read_rows env h db sql p rows st).1 ≡ Query.panicked)
  unfolding read_rows succeed
  read_rows-returns p rows st e = elim (Sum-cases rows.columns) [
    | inl (f, bad) ↦ absurd (cc (rw (read_rows, bad) at e))
    | inr (columns, good) ↦ elim (Sum-cases (fetch (get_max_rows h) 0 [] rows.steps)) [
      | inl (f, bad) ↦ absurd (cc (rw (read_rows, good, bad) at e))
      | inr (fetched, read) ↦ absurd (cc (rw (read_rows, good, read) at e))
    ]
  ]

  finish_query-returns :
      (p : ParsedSql) (r : RouterError ⊎ RowSet) (st : State)
      → ¬ ((finish_query env h db sql p r st).1 ≡ Query.panicked)
  unfolding finish_query fail_in_router
  finish_query-returns p (inl e) st bad = absurd (cc bad)
  finish_query-returns p (inr rows) st bad = read_rows-returns p rows st bad

  finish_exec-returns :
      (p : ParsedSql) (r : RouterError ⊎ ExecResult) (st : State)
      → ¬ ((finish_exec env h db sql p r st).1 ≡ Query.panicked)
  unfolding finish_exec fail_in_router succeed
  finish_exec-returns p (inl e) st bad = absurd (cc bad)
  finish_exec-returns p (inr r) st bad = absurd (cc bad)

  run_parsed-returns :
      (p : ParsedSql) (st : State) → ¬ ((run_parsed env h db sql p st).1 ≡ Query.panicked)
  unfolding run_parsed run_query run_exec
  run_parsed-returns p st bad =
      let q = query env.rows h.router st.pool db (sql_to_execute h sql p) in
      let x = exec env.exec h.router st.pool db (sql_to_execute h sql p) in
      elim (Bool-cases (check h.checker (some p)).allowed) [
        | inr refused ↦ absurd (cc (rw refused at bad))
        | inl allowed ↦ elim (Bool-cases (returns_rows p.type)) [
          | inl reads ↦
              finish_query-returns p q.result (after env h db sql q st) (rw (allowed, reads) at bad)
          | inr writes ↦
              finish_exec-returns p x.result (after env h db sql x st) (rw (allowed, writes) at bad)
        ]
      ]

  first_stmt-nothing : (r : TidbResult) → first_stmt r sql ≡ nothing → r ≡ stmts []
  unfolding first_stmt
  first_stmt-nothing (syntax_error e) bad = absurd (cc bad)
  first_stmt-nothing (stmts []) bad = refl
  first_stmt-nothing (stmts (s ∷ rest)) bad = absurd (cc bad)

  parse-nothing : parse env.tidb sql ≡ nothing → env.tidb sql ≡ stmts []
  unfolding parse
  parse-nothing e = first_stmt-nothing (env.tidb sql) e

  nothing_parsed : env.tidb sql ≡ stmts [] → parse env.tidb sql ≡ nothing
  unfolding parse first_stmt
  nothing_parsed e = rw (parse, e) refl

  run_result-panics :
      (r : ParseResult) (st : State)
      → (run_result env h db sql r st).1 ≡ Query.panicked
      → r ≡ nothing
  unfolding run_result
  run_result-panics (parse_error e) st bad = absurd (cc bad)
  run_result-panics nothing st bad = refl
  run_result-panics (parsed p) st bad = absurd (run_parsed-returns p st bad)

  plan_of-returns : (r : RouterError ⊎ RowSet) → ¬ (plan_of r ≡ Explain.panicked)
  unfolding plan_of read_plan
  plan_of-returns (inl e) bad = absurd (cc bad)
  plan_of-returns (inr rows) bad = elim (Sum-cases rows.columns) [
    | inl (f, failed) ↦ absurd (cc (rw (read_plan, failed) at bad))
    | inr (columns, found) ↦ elim (Sum-cases (fetch_all [] rows.steps)) [
      | inl (f, failed) ↦ absurd (cc (rw (read_plan, found, failed) at bad))
      | inr (fetched, read) ↦ absurd (cc (rw (read_plan, found, read) at bad))
    ]
  ]

  explain_parsed-panics :
      (r : ParseResult) (st : State)
      → (explain_parsed env h db sql r st).1 ≡ Explain.panicked
      → r ≡ nothing
  unfolding explain_parsed
  explain_parsed-panics (parse_error e) st bad = absurd (cc bad)
  explain_parsed-panics nothing st bad = refl
  explain_parsed-panics (parsed p) st bad =
      let o = query env.rows h.router st.pool db (explain_text sql) in
      elim (Bool-cases (is_dml p.type)) [
        | inl supported ↦ absurd (plan_of-returns o.result (rw supported at bad))
        | inr other ↦ absurd (cc (rw other at bad))
      ]

  tool_reply-panics :
      (r : Query.Reply) → told (query_result (Query.tool_reply r)) ≡ panics → r ≡ Query.panicked
  unfolding told
  tool_reply-panics (Query.replied r) bad = absurd (cc bad)
  tool_reply-panics (Query.failed e) bad = absurd (cc bad)
  tool_reply-panics Query.panicked bad = refl

  ran-panics :
      (r : Explain.ExplainReply)
      → told (explain_result (Explain.ran r)) ≡ panics
      → r ≡ Explain.panicked
  unfolding told
  ran-panics (Explain.explained r) bad = absurd (cc bad)
  ran-panics (Explain.failed e) bad = absurd (cc bad)
  ran-panics Explain.panicked bad = refl

  pub told_query-panics :
      (st : State)
      → (told (query_result (handle_query_tool env h db sql st).1) ≡ panics)
      → HoldsNoStatement env db sql
  unfolding handle_query_tool execute_query told
  told_query-panics st bad = elim (Option-cases (validate_database_name db)) [
    | inr (e, misnamed) ↦ absurd (cc (rw (handle_query_tool, misnamed) at bad))
    | inl named ↦ elim (Option-cases (validate_sql sql)) [
      | inr (e, oversized) ↦ absurd (cc (rw (handle_query_tool, named, oversized) at bad))
      | inl sized ↦ (
        named,
        sized,
        parse-nothing (
            run_result-panics (parse env.tidb sql) st (
              tool_reply-panics (execute_query env h db sql st).1
                (rw (handle_query_tool, named, sized) at bad))),
      )
    ]
  ]

  pub told_explain-panics :
      (st : State)
      → (told (explain_result (handle_explain_tool env h db sql st).1) ≡ panics)
      → HoldsNoStatement env db sql
  unfolding handle_explain_tool execute_explain told
  told_explain-panics st bad = elim (Option-cases (validate_database_name db)) [
    | inr (e, misnamed) ↦ absurd (cc (rw (handle_explain_tool, misnamed) at bad))
    | inl named ↦ elim (Option-cases (validate_sql sql)) [
      | inr (e, oversized) ↦ absurd (cc (rw (handle_explain_tool, named, oversized) at bad))
      | inl sized ↦ (
        named,
        sized,
        parse-nothing (
            explain_parsed-panics (parse env.tidb sql) st (
              ran-panics (execute_explain env h db sql st).1
                (rw (handle_explain_tool, named, sized) at bad))),
      )
    ]
  ]

  pub query_panics :
      (st : State)
      → HoldsNoStatement env db sql
      → handle_query_tool env h db sql st ≡ (st, Query.crashed)
  unfolding handle_query_tool execute_query run_result
  query_panics st (named, sized, empty) =
      rw (handle_query_tool, named, sized, nothing_parsed empty) refl

  pub explain_panics :
      (st : State)
      → HoldsNoStatement env db sql
      → handle_explain_tool env h db sql st ≡ (st, Explain.ran Explain.panicked)
  unfolding handle_explain_tool execute_explain explain_parsed
  explain_panics st (named, sized, empty) =
      rw (handle_explain_tool, named, sized, nothing_parsed empty) refl
