-- ===== src/Mcp/Query/Steps.antt =====
-- internal/mcp/tools.go: what the tool `query` sends to the database.
use safe_my_sqlmcp_server.Base.{
  ℕ, Text, true, false, List, ◌++◌, some, ◌≡◌, ◌⊎◌, inl, inr, refl, subst, arith, Bool-cases,
}
use safe_my_sqlmcp_server.Config.{SecurityRules}
use safe_my_sqlmcp_server.Security.Parser.{
  ParsedSql, ParseResult, parse_error, nothing, parsed, parse,
}
use safe_my_sqlmcp_server.Security.Checker.{check}
use safe_my_sqlmcp_server.Security.Checker.Policy.{Permits, check-Permits}
use safe_my_sqlmcp_server.Database.Router.{RouterError, query, exec}
use safe_my_sqlmcp_server.Database.Router.Sends.{Sends, router-Sends}
use safe_my_sqlmcp_server.Security.Parser.Laws.{parse-IsWellFormed}
use safe_my_sqlmcp_server.Mcp.Query.Rewriting.{IsExecuted, sql_to_execute-IsExecuted}
use safe_my_sqlmcp_server.Mcp.Rows.{RowSet}
use safe_my_sqlmcp_server.Mcp.Handler.{Handler, Env, State, ExecResult}
use safe_my_sqlmcp_server.Mcp.Query.{
  sql_to_execute, returns_rows, succeed, fail_in_router, read_rows, finish_query, finish_exec,
  after, run_query, run_exec, run_parsed, run_result, execute_query,
}

module _ (env : Env) (h : Handler) (db sql : Text) where
  sent-read_rows :
      (p : ParsedSql) (rows : RowSet) (st : State)
      → (read_rows env h db sql p rows st).0.sent ≡ st.sent
  unfolding read_rows succeed
  sent-read_rows p rows st = ground arith

  sent-finish_query :
      (p : ParsedSql) (r : RouterError ⊎ RowSet) (st : State)
      → (finish_query env h db sql p r st).0.sent ≡ st.sent
  unfolding finish_query fail_in_router
  sent-finish_query p (inl e) st = refl
  sent-finish_query p (inr rows) st = sent-read_rows p rows st

  sent-finish_exec :
      (p : ParsedSql) (r : RouterError ⊎ ExecResult) (st : State)
      → (finish_exec env h db sql p r st).0.sent ≡ st.sent
  unfolding finish_exec fail_in_router succeed
  sent-finish_exec p (inl e) st = refl
  sent-finish_exec p (inr r) st = refl

  -- The statements that a call adds to those sent before.
  abbrev pub SendsMore : ParsedSql → State → State → Type 0
  SendsMore p st st' =
      (xs : List (ℕ × Text)) × (st'.sent ≡ st.sent ++ xs) × Sends db (sql_to_execute h sql p) xs

  -- The same, with the statement that is to be executed.
  abbrev pub SendsExecuted : ParsedSql → State → State → Type 0
  SendsExecuted p st st' =
      (t : Text) × (xs : List (ℕ × Text)) × (st'.sent ≡ st.sent ++ xs)
      × IsExecuted h.rewriter.rules p sql t
      × Sends db t xs

  run_query-SendsMore :
      (p : ParsedSql) (st : State) → SendsMore p st (run_query env h db sql p st).0
  unfolding run_query
  run_query-SendsMore p st =
      let o = query env.rows h.router st.pool db (sql_to_execute h sql p) in
      (
        o.sent,
        sent-finish_query p o.result (after env h db sql o st),
        (router-Sends env.rows h.router st.pool db (sql_to_execute h sql p)).0,
      )

  run_exec-SendsMore : (p : ParsedSql) (st : State) → SendsMore p st (run_exec env h db sql p st).0
  unfolding run_exec
  run_exec-SendsMore p st =
      let o = exec env.exec h.router st.pool db (sql_to_execute h sql p) in
      (
        o.sent,
        sent-finish_exec p o.result (after env h db sql o st),
        (router-Sends env.exec h.router st.pool db (sql_to_execute h sql p)).1,
      )

  run_parsed-SendsMore :
      (p : ParsedSql) (st : State)
      → (((check h.checker (some p)).allowed ≡ false)
          × ((run_parsed env h db sql p st).0.sent ≡ st.sent))
        ⊎ (((check h.checker (some p)).allowed ≡ true)
            × SendsMore p st (run_parsed env h db sql p st).0)
  unfolding run_parsed
  run_parsed-SendsMore p st = elim (Bool-cases (check h.checker (some p)).allowed) [
    | inr refused ↦ inl (refused, rw refused refl)
    | inl allowed ↦ inr (
      allowed,
      rw allowed (elim (Bool-cases (returns_rows p.type)) [
        | inl reads ↦ rw reads (run_query-SendsMore p st)
        | inr writes ↦ rw writes (run_exec-SendsMore p st)
      ]),
    )
  ]

  run_result-SendsMore :
      (rules : SecurityRules) (st : State) (r : ParseResult)
      → h.checker.rules ≡ some rules
      → ((run_result env h db sql r st).0.sent ≡ st.sent)
        ⊎ ((p : ParsedSql) × (r ≡ parsed p)
            × Permits rules p.type
            × SendsMore p st (run_result env h db sql r st).0)
  unfolding run_result
  run_result-SendsMore rules st (parse_error e) set = inl refl
  run_result-SendsMore rules st nothing set = inl refl
  run_result-SendsMore rules st (parsed p) set = elim (run_parsed-SendsMore p st) [
    | inl (_, unsent) ↦ inl unsent
    | inr (allowed, more) ↦ inr (p, refl, permitted_by rules p set allowed, more)
  ]
    where
      permitted_by :
          (rules : SecurityRules) (p : ParsedSql)
          → h.checker.rules ≡ some rules
          → (check h.checker (some p)).allowed ≡ true
          → Permits rules p.type
      permitted_by rules p set allowed =
          (check-Permits rules p).0
            (subst (λ rs. (check (record { rules = rs }) (some p)).allowed ≡ true) set allowed)

  -- A call of the tool sends nothing at all, or its text has a first statement that the rules of the
  -- checker permit, and then it sends at most the `USE` of its database and after it one text. This is
  -- the client's text, or for an UPDATE or DELETE with neither a WHERE nor a LIMIT clause, where the
  -- rewriter has a positive `auto_limit`, the client's text with that limit behind it; a rewriter that
  -- has no rules gives no text for one with no WHERE clause. Nothing else reaches the database.
  pub sends_only_permitted :
      (rules : SecurityRules) (st : State)
      → h.checker.rules ≡ some rules
      → ((execute_query env h db sql st).0.sent ≡ st.sent)
        ⊎ ((p : ParsedSql) × (parse env.tidb sql ≡ parsed p)
            × Permits rules p.type
            × SendsExecuted p st (execute_query env h db sql st).0)
  unfolding execute_query
  sends_only_permitted rules st set =
      elim (run_result-SendsMore rules st (parse env.tidb sql) set) [
        | inl unsent ↦ inl unsent
        | inr (p, text, permitted, (xs, sent, sends)) ↦
            let (_, source, _) = parse-IsWellFormed env.tidb sql p text in
            inr (
              p,
              text,
              permitted,
              (
                sql_to_execute h sql p,
                xs,
                sent,
                sql_to_execute-IsExecuted h rules sql p set permitted source,
                sends,
              ),
            )
      ]
