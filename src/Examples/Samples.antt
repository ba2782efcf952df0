-- ===== src/Examples/Samples.antt =====
-- The values that the tests share: a set of rules, a pool with one cluster, a server that accepts all.
use safe_my_sqlmcp_server.Base.{
  pos, ◌*◌, Text, codes, text_eq, Bool, true, false, [], ◌∷◌, Option, none, some, inr,
  if◌then◌else◌,
}
use safe_my_sqlmcp_server.Config.{SecurityRules, Config, ClusterConfig, AuditConfig, second}
use safe_my_sqlmcp_server.Security.Ast
use safe_my_sqlmcp_server.Security.Parser.{TidbResult, stmts, ParsedSql, select, delete}
use safe_my_sqlmcp_server.Audit.{Logger, Entry, new_writer}
use safe_my_sqlmcp_server.Database.Pool.{ManagedDb, Pool}
use safe_my_sqlmcp_server.Database.Router.{Router, Answers}
use safe_my_sqlmcp_server.Mcp.Rows.{RowSet, row, bytes}
use safe_my_sqlmcp_server.Mcp.Handler.{Handler, Env, State, ExecResult}

abbrev pub rules : SecurityRules
rules = record {
  allowed_dml = codes "select" ∷ codes "DELETE" ∷ [];
  allowed_ddl = codes "CREATE_TABLE" ∷ codes "DROP" ∷ [];
  blocked = codes "Drop" ∷ [];
  auto_limit = pos 100;
  max_limit = pos 1000;
  query_timeout = pos (30 * second);
  max_rows = pos 2;
}

abbrev pub delete_all : Text
delete_all = codes "DELETE FROM t;"

abbrev pub select_all : Text
select_all = codes "SELECT * FROM t"

abbrev pub remark : Text
remark = codes "-- nothing"

abbrev pub select_node : Ast.StmtNode
select_node =
    Ast.StmtNode.select_stmt false none
      (some (record { table_refs = Ast.ResultSetNode.table_source (some (codes "t")) }))

abbrev pub delete_node : Ast.StmtNode
delete_node = Ast.StmtNode.delete_stmt false none none

abbrev pub tidb : Text → TidbResult
tidb sql =
    if text_eq sql delete_all
    then stmts (delete_node ∷ [])
    else if text_eq sql select_all
    then stmts (select_node ∷ [])
    else stmts []

abbrev pub cluster : ClusterConfig
cluster = record {
  host = codes "db1";
  port = pos 3306;
  username = codes "app";
  password = codes "pw";
  max_open_conns = pos 2;
  max_idle_conns = pos 1;
  conn_max_lifetime = pos (300 * second);
}

abbrev pub main_db : ManagedDb
main_db = record {
  db = record {
    id = 7;
    dsn = codes "app:pw@tcp(db1:3306)/";
    max_open_conns = pos 2;
    max_idle_conns = pos 1;
    conn_max_lifetime = pos (300 * second);
  };
  ref_count = 0;
  closing = false;
  in_use = 0;
}

abbrev pub pool : Pool
pool = record {
  clusters = (codes "main", main_db) ∷ [];
  configs = (codes "main", cluster) ∷ [];
  next_db = 8;
  closed = [];
}

abbrev pub router : Router
router = record { databases = (codes "app", record { cluster = codes "main" }) ∷ [] }

abbrev pub audit_config : AuditConfig
audit_config = record {
  enabled = true;
  log_file = codes "audit.log";
  max_sql_length = pos 6;
  max_size_mb = pos 100;
  max_backups = pos 10;
  max_age_days = pos 30;
  compress = false;
}

abbrev pub logger : Logger
logger = record { writer = some (new_writer audit_config); max_sql_len = pos 6; enabled = true }

-- A log line that holds the text of the statement only.
abbrev pub marshal : Entry → Option Text
marshal e = some e.sql

abbrev pub mkdir : Text → Bool
mkdir dir = true

abbrev pub row_set : RowSet
row_set = record {
  columns = inr (codes "a" ∷ []);
  steps =
      row (bytes (codes "1") ∷ [])
      ∷ row (bytes (codes "2") ∷ [])
      ∷ row (bytes (codes "3") ∷ [])
      ∷ [];
  end_error = none;
}

abbrev pub row_answers : Answers RowSet
row_answers = record { conn_error = none; use_error = none; run = λ sql. inr row_set }

abbrev pub exec_answers : Answers ExecResult
exec_answers = record {
  conn_error = none;
  use_error = none;
  run = λ sql. inr (record { rows_affected = some (pos 3); last_insert_id = none });
}

abbrev pub env : Env
env = record {
  user_id = codes "u1";
  user_email = codes "u1@example.com";
  now = 5;
  elapsed_ms = 1;
  tidb = tidb;
  marshal = marshal;
  mkdir = mkdir;
  rows = row_answers;
  exec = exec_answers;
}

abbrev pub config : Config
config = record {
  server = record { host = []; port = pos 8080; jwt_secret = [] };
  clusters = (codes "main", cluster) ∷ [];
  databases = (codes "app", record { cluster = codes "main" }) ∷ [];
  security = record { config_file = [] };
  audit = audit_config;
}

abbrev pub handler : Handler
handler = record {
  router = router;
  checker = record { rules = some rules };
  rewriter = record { rules = some rules };
  config = record { config = config; security = some (record { security = rules }) };
}

abbrev pub state : State
state = record { pool = pool; logger = logger; sent = []; asked = [] }

-- The summaries of the two statements.
abbrev pub delete_sql : ParsedSql
delete_sql = record {
  original = delete_all;
  type = delete;
  tables = [];
  has_where = false;
  has_limit = false;
  limit = pos 0;
  ast = delete_node;
}

abbrev pub select_sql : ParsedSql
select_sql = record {
  original = select_all;
  type = select;
  tables = codes "t" ∷ [];
  has_where = false;
  has_limit = false;
  limit = pos 0;
  ast = select_node;
}
