-- ===== src/Mcp/Handler.antt =====
-- internal/mcp/tools.go, the handler's parts, what a call finds outside, and what it leaves behind.
use safe_my_sqlmcp_server.Base.{
  ℕ, ◌*◌, ℤ, pos, pos_part, ltb_ℤ, Bool, Text, codes, List, ◌++◌, ◌⊎◌, inl, inr, Option, none, some,
  if◌then◌else◌,
}
use safe_my_sqlmcp_server.Config.{SecurityRules, second}
use safe_my_sqlmcp_server.Config.Reloadable.{ReloadableConfig, get_security}
use safe_my_sqlmcp_server.Security.Parser.{TidbResult}
use safe_my_sqlmcp_server.Security.Checker.{Checker, update_checker}
use safe_my_sqlmcp_server.Security.Rewriter.{Rewriter, update_rewriter}
use safe_my_sqlmcp_server.Audit.{Entry, Logger, log}
use safe_my_sqlmcp_server.Database.Pool.{Pool, unknown_cluster, being_closed, connect_failed}
use safe_my_sqlmcp_server.Database.Router.{
  Router, RouterError, unknown_database, pool_error, no_connection, switch_failed, statement_failed,
  Answers,
}
use safe_my_sqlmcp_server.Mcp.Rows.{RowSet}

-- Handler. The pool and the audit logger that it points to are in `State`.
pub record Handler : Type 0 where
  pub router : Router
  pub checker : Checker
  pub rewriter : Rewriter
  pub config : ReloadableConfig

-- `sql.Result`, each of whose methods can fail
pub record ExecResult : Type 0 where
  pub rows_affected : Option ℤ
  pub last_insert_id : Option ℤ

-- What a call finds outside: the user of its context, the clock, the parser of TiDB, `json.Marshal`,
-- the file system, and the database server.
pub record Env : Type 0 where
  pub user_id : Text
  pub user_email : Text
  pub now : ℕ
  pub elapsed_ms : ℕ
  pub tidb : Text → TidbResult
  pub marshal : Entry → Option Text
  pub mkdir : Text → Bool
  pub rows : Answers RowSet
  pub exec : Answers ExecResult

-- A statement that a catalog or search tool sends on a handle itself: one with placeholders by its
-- arguments, the other by its text.
pub data Statement : Type 0 where
  select_tables : Text → ℕ → Statement
  select_columns : Text → Text → Statement
  select_names : Text → Text → ℕ → Statement
  plain : Text → Statement

-- What a call leaves behind: the pool, the audit logger, the statements that Query and Exec of the
-- router sent, and those that the catalog and search tools sent past these two methods, each with the
-- handle's id.
pub record State : Type 0 where
  pub pool : Pool
  pub logger : Logger
  pub sent : List (ℕ × Text)
  pub asked : List (ℕ × Statement)

-- `h.audit.Log`
abbrev pub audit : Env → Entry → State → State
audit env e st = record st { logger = log env.marshal env.mkdir env.now e st.logger }

-- The text of an error of the router
unfoldable pub error_text : RouterError → Text
error_text (unknown_database d) = codes "unknown database: " ++ d
error_text (pool_error (unknown_cluster c)) = codes "unknown cluster: " ++ c
error_text (pool_error (being_closed c)) = codes "cluster " ++ (c ++ codes " is being closed")
error_text (pool_error (connect_failed c)) = codes "connect to cluster " ++ c
error_text (no_connection e) = codes "get connection: " ++ e
error_text (switch_failed d e) = codes "switch to database " ++ (d ++ (codes ": " ++ e))
error_text (statement_failed e) = e

abbrev pub default_query_timeout : ℕ
default_query_timeout = 30 * second

abbrev pub default_max_rows : ℕ
default_max_rows = 10_000

abbrev pub default_max_tables : ℕ
default_max_tables = 1_000

-- `if rules != nil && rules.X > 0 { return rules.X }; return default`
abbrev pub positive_or : (SecurityRules → ℤ) → ℕ → Option SecurityRules → ℕ
positive_or field default none = default
positive_or field default (some r) = if ltb_ℤ (pos 0) (field r) then pos_part (field r) else default

-- (*Handler).getQueryTimeout
unfoldable pub get_query_timeout : Handler → ℕ
unfolding get_security
get_query_timeout h =
    positive_or (λ r. r.query_timeout) default_query_timeout (get_security h.config)

-- (*Handler).getMaxRows
unfoldable pub get_max_rows : Handler → ℕ
unfolding get_security
get_max_rows h = positive_or (λ r. r.max_rows) default_max_rows (get_security h.config)

-- (*Handler).UpdateSecurityRules
unfoldable pub update_security_rules : Option SecurityRules → Handler → Handler
unfolding update_checker update_rewriter
update_security_rules rules h = record h {
  checker = update_checker h.checker rules;
  rewriter = update_rewriter h.rewriter rules;
}

-- MarshalResult, over `json.MarshalIndent`, which gives an error's text or the document
unfoldable pub marshal_result {ℓ} : {A : Type ℓ} → (A → Text ⊎ Text) → A → Text
marshal_result marshal_indent v = elim (marshal_indent v) [
  | inl e ↦ codes "{\"error\": \"failed to marshal result: " ++ (e ++ codes "\"}")
  | inr document ↦ document
]
