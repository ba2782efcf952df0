-- ===== src/Mcp/Query.antt =====
-- internal/mcp/tools.go, the tool `query`.
pub mod Steps
pub mod Audited
pub mod Rewriting
pub mod Results
pub mod Answers
use safe_my_sqlmcp_server.Base.{
  ℕ, ℤ, pos, Text, codes, length, Bool, true, false, ◌||◌, List, [], ◌∷◌, ◌++◌, Option, none, some,
  ◌⊎◌, inl, inr, if◌then◌else◌,
}
use safe_my_sqlmcp_server.Validation.{ValidationError, validate_database_name, validate_sql}
use safe_my_sqlmcp_server.Security.Parser.{
  SqlType, select, show, explain, type_name, ParsedSql, ParseResult, parse_error, nothing, parsed,
  parse,
}
use safe_my_sqlmcp_server.Security.Checker.{CheckResult, check}
use safe_my_sqlmcp_server.Security.Rewriter.{rewrite}
use safe_my_sqlmcp_server.Audit.{Entry}
use safe_my_sqlmcp_server.Database.Router.{RouterError, Outcome, query, exec}
use safe_my_sqlmcp_server.Mcp.Rows.{Value, RowSet, fetch}
use safe_my_sqlmcp_server.Mcp.Handler.{
  Handler, ExecResult, Env, State, audit, error_text, get_max_rows,
}

-- QueryResult
pub record QueryResult : Type 0 where
  pub columns : List Text
  pub rows : List (List Value)
  pub rows_affected : ℤ
  pub last_insert_id : ℤ
  pub warnings : List Text

pub data QueryError : Type 0 where
  parse_failed blocked columns_failed scan_failed : Text → QueryError
  router_failed : RouterError → QueryError

-- How a call ends: with a result, with an error, or in a panic.
pub data Reply : Type 0 where
  replied : QueryResult → Reply
  failed : QueryError → Reply
  panicked : Reply

-- The entry of a call that sets no `RowsAffected`
abbrev pub entry : Env → Text → Text → Text → Text → Text → Entry
entry env db sql sql_type status reason = record {
  timestamp = none;
  user_id = env.user_id;
  user_email = env.user_email;
  database = db;
  sql = sql;
  sql_type = sql_type;
  status = status;
  block_reason = reason;
  rows_affected = pos 0;
  duration_ms = env.elapsed_ms;
  sql_length = 0;
}

-- `parsed.Type == SQLTypeSelect || … == SQLTypeShow || … == SQLTypeExplain`
abbrev pub returns_rows : SqlType → Bool
returns_rows select = true
returns_rows show = true
returns_rows explain = true
returns_rows _ = false

abbrev pub rewrite_warning : Text
rewrite_warning = codes "SQL was auto-rewritten for safety"

-- The statement that is executed, and the warnings
abbrev pub sql_to_execute : Handler → Text → ParsedSql → Text
sql_to_execute h sql p =
    if (check h.checker (some p)).auto_rewrite then (rewrite h.rewriter (some p)).sql else sql

abbrev pub warnings_of : Handler → ParsedSql → List Text
warnings_of h p = if (check h.checker (some p)).auto_rewrite then rewrite_warning ∷ [] else []

-- `if err != nil { log } else { result.X = … }`
abbrev pub or_zero : Option ℤ → ℤ
or_zero none = pos 0
or_zero (some n) = n

module _ (env : Env) (h : Handler) (db sql : Text) where
  -- The end of the function: the success is logged.
  unfoldable pub succeed : SqlType → QueryResult → State → State × Reply
  succeed type result st = (
    audit env
        (record (entry env db sql (type_name type) (codes "success") []) {
          rows_affected = result.rows_affected;
        })
        st,
    replied result,
  )

  unfoldable pub fail_in_router : SqlType → RouterError → State → State × Reply
  fail_in_router type e st = (
    audit env (entry env db sql (type_name type) (codes "error") (error_text e)) st,
    failed (router_failed e),
  )

  -- The rows of a query that the router has run. `rows.Err()` is not asked: `end_error` is not read.
  unfoldable pub read_rows : ParsedSql → RowSet → State → State × Reply
  read_rows p rows st = elim rows.columns [
    | inl e ↦ (st, failed (columns_failed e))
    | inr columns ↦ elim (fetch (get_max_rows h) 0 [] rows.steps) [
      | inl e ↦ (st, failed (scan_failed e))
      | inr fetched ↦
          succeed p.type
            (record {
              columns = columns;
              rows = fetched;
              rows_affected = pos (length fetched);
              last_insert_id = pos 0;
              warnings = warnings_of h p;
            })
            st
    ]
  ]

  abbrev pub after {ℓ} : {R : Type ℓ} → Outcome R → State → State
  after o st = record st { pool = o.pool; sent = st.sent ++ o.sent }

  unfoldable pub finish_query : ParsedSql → RouterError ⊎ RowSet → State → State × Reply
  finish_query p (inl e) st = fail_in_router p.type e st
  finish_query p (inr rows) st = read_rows p rows st

  unfoldable pub run_query : ParsedSql → State → State × Reply
  run_query p st =
      let o = query env.rows h.router st.pool db (sql_to_execute h sql p) in
      finish_query p o.result (after o st)

  unfoldable pub finish_exec : ParsedSql → RouterError ⊎ ExecResult → State → State × Reply
  finish_exec p (inl e) st = fail_in_router p.type e st
  finish_exec p (inr r) st =
      succeed p.type
        (record {
          columns = [];
          rows = [];
          rows_affected = or_zero r.rows_affected;
          last_insert_id = or_zero r.last_insert_id;
          warnings = warnings_of h p;
        })
        st

  unfoldable pub run_exec : ParsedSql → State → State × Reply
  run_exec p st =
      let o = exec env.exec h.router st.pool db (sql_to_execute h sql p) in
      finish_exec p o.result (after o st)

  unfoldable pub run_parsed : ParsedSql → State → State × Reply
  run_parsed p st =
      if (check h.checker (some p)).allowed
      then (if returns_rows p.type then run_query p st else run_exec p st)
      else (
        audit env
            (entry env db sql (type_name p.type) (codes "blocked")
              (check h.checker (some p)).reason)
            st,
        failed (blocked (check h.checker (some p)).reason),
      )

  -- What the function does with the outcome of the parser. With no statement the checker refuses, and
  -- the code then reads the type through the nil pointer.
  unfoldable pub run_result : ParseResult → State → State × Reply
  run_result (parse_error e) st = (
    audit env (entry env db sql (codes "UNKNOWN") (codes "error") (codes "parse error: " ++ e)) st,
    failed (parse_failed e),
  )
  run_result nothing st = (st, panicked)
  run_result (parsed p) st = run_parsed p st

  -- (*Handler).executeQuery
  unfoldable pub execute_query : State → State × Reply
  execute_query st = run_result (parse env.tidb sql) st

-- What the tool answers: a result, or an error result with its message's origin.
pub data ToolReply : Type 0 where
  answered : QueryResult → ToolReply
  invalid : ValidationError → ToolReply
  errored : QueryError → ToolReply
  crashed : ToolReply

abbrev pub tool_reply : Reply → ToolReply
tool_reply (replied r) = answered r
tool_reply (failed e) = errored e
tool_reply panicked = crashed

-- (*Handler).handleQueryTool
unfoldable pub handle_query_tool : Env → Handler → Text → Text → State → State × ToolReply
handle_query_tool env h db sql st = elim (validate_database_name db) [
  | some e ↦ (st, invalid e)
  | none ↦ elim (validate_sql sql) [
    | some e ↦ (st, invalid e)
    | none ↦ let (st', reply) = execute_query env h db sql st in (st', tool_reply reply)
  ]
]
