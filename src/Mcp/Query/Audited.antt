-- ===== src/Mcp/Query/Audited.antt =====
-- internal/mcp/tools.go: what the tool `query` writes to the audit log.
use safe_my_sqlmcp_server.Base.{
  Text, codes, ◌++◌, some, ◌≡◌, ◌⊎◌, inl, inr, refl, Bool-cases, Sum-cases, [],
}
use safe_my_sqlmcp_server.Security.Parser.{
  SqlType, ParsedSql, ParseResult, parse_error, nothing, parsed, parse,
}
use safe_my_sqlmcp_server.Security.Checker.{check}
use safe_my_sqlmcp_server.Audit.{Entry, log}
use safe_my_sqlmcp_server.Database.Router.{RouterError, query, exec}
use safe_my_sqlmcp_server.Mcp.Rows.{RowSet, fetch}
use safe_my_sqlmcp_server.Mcp.Handler.{Handler, Env, State, ExecResult, error_text, get_max_rows}
use safe_my_sqlmcp_server.Mcp.Query.{
  QueryResult, Reply, replied, failed, panicked, parse_failed, blocked, columns_failed, scan_failed,
  router_failed, sql_to_execute, returns_rows, succeed, fail_in_router, read_rows, finish_query,
  finish_exec, after, run_query, run_exec, run_parsed, run_result, execute_query,
}

module _ (env : Env) (h : Handler) (db sql : Text) where
  -- What an entry says of the reply: a result is a success with its number of rows, a refusal of the
  -- checker is blocked for its reason, and an error of the parser or the router is an error.
  abbrev pub Tells : Reply → Entry → Type 0
  Tells (replied r) e = (e.status ≡ codes "success") × (e.rows_affected ≡ r.rows_affected)
  Tells (failed (blocked reason)) e = (e.status ≡ codes "blocked") × (e.block_reason ≡ reason)
  Tells (failed (parse_failed m)) e =
      (e.status ≡ codes "error") × (e.block_reason ≡ codes "parse error: " ++ m)
  Tells (failed (router_failed r)) e = (e.status ≡ codes "error") × (e.block_reason ≡ error_text r)
  Tells (failed (columns_failed m)) e = ⊥
  Tells (failed (scan_failed m)) e = ⊥
  Tells panicked e = ⊥

  -- The replies that come without an entry.
  abbrev pub IsSilent : Reply → Type 0
  IsSilent (replied r) = ⊥
  IsSilent (failed (blocked m)) = ⊥
  IsSilent (failed (parse_failed m)) = ⊥
  IsSilent (failed (router_failed r)) = ⊥
  IsSilent (failed (columns_failed m)) = Unit {0}
  IsSilent (failed (scan_failed m)) = Unit {0}
  IsSilent panicked = Unit {0}

  -- One entry for the call's user, database and whole text, which tells its outcome, or a silent reply.
  abbrev pub Audited : State → State × Reply → Type 0
  Audited st r =
      ((e : Entry) × ((e.user_id ≡ env.user_id)
          × (e.user_email ≡ env.user_email)
          × (e.database ≡ db)
          × (e.sql ≡ sql))
        × Tells r.1 e
        × (r.0.logger ≡ log env.marshal env.mkdir env.now e st.logger))
      ⊎ (IsSilent r.1 × (r.0.logger ≡ st.logger))

  succeed-Audited :
      (type : SqlType) (r : QueryResult) (st : State) → Audited st (succeed env h db sql type r st)
  unfolding succeed
  succeed-Audited type r st = inl (_, (refl, refl, refl, refl), (refl, refl), refl)

  fail_in_router-Audited :
      (type : SqlType) (e : RouterError) (st : State)
      → Audited st (fail_in_router env h db sql type e st)
  unfolding fail_in_router
  fail_in_router-Audited type e st = inl (_, (refl, refl, refl, refl), (refl, refl), refl)

  read_rows-Audited :
      (p : ParsedSql) (rows : RowSet) (st : State) → Audited st (read_rows env h db sql p rows st)
  unfolding read_rows
  read_rows-Audited p rows st = elim (Sum-cases rows.columns) [
    | inl (e, failed_columns) ↦ rw (failed_columns, read_rows) (inr (tt, refl))
    | inr (columns, found) ↦ elim (Sum-cases (fetch (get_max_rows h) 0 [] rows.steps)) [
      | inl (e, failed_scan) ↦ rw (found, failed_scan, read_rows) (inr (tt, refl))
      | inr (fetched, read) ↦ rw (found, read, read_rows) (succeed-Audited p.type _ st)
    ]
  ]

  finish_query-Audited :
      (p : ParsedSql) (r : RouterError ⊎ RowSet) (st : State)
      → Audited st (finish_query env h db sql p r st)
  unfolding finish_query
  finish_query-Audited p (inl e) st = fail_in_router-Audited p.type e st
  finish_query-Audited p (inr rows) st = read_rows-Audited p rows st

  finish_exec-Audited :
      (p : ParsedSql) (r : RouterError ⊎ ExecResult) (st : State)
      → Audited st (finish_exec env h db sql p r st)
  unfolding finish_exec
  finish_exec-Audited p (inl e) st = fail_in_router-Audited p.type e st
  finish_exec-Audited p (inr r) st = succeed-Audited p.type _ st

  run_parsed-Audited : (p : ParsedSql) (st : State) → Audited st (run_parsed env h db sql p st)
  unfolding run_parsed run_query run_exec
  run_parsed-Audited p st =
      let q = query env.rows h.router st.pool db (sql_to_execute h sql p) in
      let x = exec env.exec h.router st.pool db (sql_to_execute h sql p) in
      elim (Bool-cases (check h.checker (some p)).allowed) [
        | inr refused ↦ rw refused (inl (_, (refl, refl, refl, refl), (refl, refl), refl))
        | inl allowed ↦ rw allowed (elim (Bool-cases (returns_rows p.type)) [
          | inl reads ↦ rw reads (finish_query-Audited p q.result (after env h db sql q st))
          | inr writes ↦ rw writes (finish_exec-Audited p x.result (after env h db sql x st))
        ])
      ]

  run_result-Audited : (r : ParseResult) (st : State) → Audited st (run_result env h db sql r st)
  unfolding run_result
  run_result-Audited (parse_error e) st = inl (_, (refl, refl, refl, refl), (refl, refl), refl)
  run_result-Audited nothing st = inr (tt, refl)
  run_result-Audited (parsed p) st = run_parsed-Audited p st

  -- Every call hands exactly one entry to the audit log, which names the user, the database and the
  -- whole text that the client sent and tells the outcome; only a failure to read the columns or a
  -- row, and the panic on a text with no statement, leave the log as it was.
  pub execute_query-Audited : (st : State) → Audited st (execute_query env h db sql st)
  unfolding execute_query
  execute_query-Audited st = run_result-Audited (parse env.tidb sql) st
