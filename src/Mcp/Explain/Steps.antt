-- ===== src/Mcp/Explain/Steps.antt =====
-- internal/mcp/tools.go: what the tool `explain` sends to the database, and what it writes to the
-- audit log.
use safe_my_sqlmcp_server.Base.{
  ℕ, Text, codes, true, List, ◌++◌, ◌≡◌, ◌⊎◌, inl, inr, refl, arith, Bool-cases,
}
use safe_my_sqlmcp_server.Security.Parser.{
  is_dml, ParsedSql, ParseResult, parse_error, nothing, parsed, parse,
}
use safe_my_sqlmcp_server.Database.Router.{query}
use safe_my_sqlmcp_server.Database.Router.Sends.{Sends, router-Sends}
use safe_my_sqlmcp_server.Mcp.Handler.{Handler, Env, State}
use safe_my_sqlmcp_server.Mcp.Explain.{explain_text, explain_parsed, execute_explain}

module _ (env : Env) (h : Handler) (db sql : Text) where
  -- Nothing is sent, or the text has a first statement that is a SELECT, INSERT, UPDATE or DELETE, and
  -- the statements sent are of one call of the router.
  abbrev pub SendsPlan : State → ParseResult → State → Type 0
  SendsPlan st r st' =
      (st'.sent ≡ st.sent)
      ⊎ ((p : ParsedSql) × (r ≡ parsed p)
          × (is_dml p.type ≡ true)
          × ((xs : List (ℕ × Text)) × (st'.sent ≡ st.sent ++ xs)
              × Sends db (codes "EXPLAIN " ++ sql) xs))

  explain_parsed-SendsPlan :
      (r : ParseResult) (st : State) → SendsPlan st r (explain_parsed env h db sql r st).0
  unfolding explain_parsed
  explain_parsed-SendsPlan (parse_error e) st = inl refl
  explain_parsed-SendsPlan nothing st = inl refl
  explain_parsed-SendsPlan (parsed p) st = elim (Bool-cases (is_dml p.type)) [
    | inl supported ↦
        let o = query env.rows h.router st.pool db (explain_text sql) in
        rw supported (
          inr (
            p,
            refl,
            supported,
            (o.sent, refl, (router-Sends env.rows h.router st.pool db (explain_text sql)).0),
          ))
    | inr other ↦ rw other (inl refl)
  ]

  explain_parsed-logger :
      (r : ParseResult) (st : State) → (explain_parsed env h db sql r st).0.logger ≡ st.logger
  unfolding explain_parsed
  explain_parsed-logger (parse_error e) st = refl
  explain_parsed-logger nothing st = refl
  explain_parsed-logger (parsed p) st = ground arith

  -- A call of the tool sends nothing at all, or the first statement of its text is a SELECT, INSERT,
  -- UPDATE or DELETE, and then it sends at most the `USE` of its database and after it `EXPLAIN ` with
  -- the whole text. It never writes to the audit log.
  pub explain_sends :
      (st : State)
      → SendsPlan st (parse env.tidb sql) (execute_explain env h db sql st).0
        × ((execute_explain env h db sql st).0.logger ≡ st.logger)
  unfolding execute_explain
  explain_sends st = (
    explain_parsed-SendsPlan (parse env.tidb sql) st,
    explain_parsed-logger (parse env.tidb sql) st,
  )
