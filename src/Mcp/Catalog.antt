-- ===== src/Mcp/Catalog.antt =====
-- internal/mcp/tools.go: the tools `list_databases`, `list_tables`, `describe_table` and
-- `show_create_table`. The last three ask GetDB for a handle and send one statement on it; they neither
-- switch the database nor ask the checker or the audit log. What the server answers is a parameter.
pub mod Tables
pub mod ShowCreate
use safe_my_sqlmcp_server.Base.{
  ℕ, ◌+◌, leb, Text, codes, Bool, true, false, List, [], ◌∷◌, ◌++◌, Option, none, some, ◌⊎◌, inl,
  inr, if◌then◌else◌,
}
use safe_my_sqlmcp_server.Validation.{
  ValidationError, validate_database_name, validate_table_name, quote_identifier,
}
use safe_my_sqlmcp_server.Database.Pool.{Db, Pool}
use safe_my_sqlmcp_server.Database.Router.{
  Router, RouterError, no_connection, statement_failed, get_db, cluster_of, cannot_connect,
  list_databases,
}
use safe_my_sqlmcp_server.Mcp.Handler.{
  Handler, Statement, select_tables, select_columns, plain, default_max_tables,
}

-- What a tool makes of a call: a result, a refused argument, an error of the router or the server, or
-- a row that cannot be scanned.
pub data Answer (R : Type 0) : Type 0 where
  answered : R → Answer R
  refused : ValidationError → Answer R
  unreachable : RouterError → Answer R
  scan_failed : Text → Answer R

-- A call of a tool: the pool afterwards, the statements that it sent, each with the handle's id,
-- and its answer.
pub record Called (R : Type 0) : Type 0 where
  pub pool : Pool
  pub sent : List (ℕ × Statement)
  pub answer : Answer R

-- A call that ends before a statement is sent
abbrev pub unsent : {R : Type 0} → Pool → Answer R → Called R
unsent p a = record { pool = p; sent = []; answer = a }

-- GetDB, and the connection that a statement on the handle takes
unfoldable pub reach : Router → Pool → Text → Pool × (RouterError ⊎ Db)
reach r p database =
    let (q, found) = get_db r p database in
    elim found [
      | inl e ↦ (q, inl e)
      | inr db ↦ elim (cannot_connect (cluster_of r database) q none) [
        | some e ↦ (q, inl (no_connection e))
        | none ↦ (q, inr db)
      ]
    ]

-- One statement on the handle of a database, and what is made of the server's response
unfoldable pub ask :
    {A R : Type 0} → Router → Pool → Text → Statement → Text ⊎ A → (A → Answer R) → Called R
ask r p database statement response read =
    let (q, found) = reach r p database in
    elim found [
      | inl e ↦ unsent q (unreachable e)
      | inr db ↦ record {
        pool = q;
        sent = (db.id, statement) ∷ [];
        answer = elim response [ inl e ↦ unreachable (statement_failed e) | inr a ↦ read a ];
      }
    ]

-- A loop over the rows that ends in an error of `Scan`, or in a result
abbrev pub scanned : {R : Type 0} → Text ⊎ R → Answer R
scanned (inl e) = scan_failed e
scanned (inr r) = answered r

-- TableInfo
pub record TableInfo : Type 0 where
  pub name : Text
  pub comment : Text

-- One round of `Next` of list_tables
pub data TableStep : Type 0 where
  table : TableInfo → TableStep
  bad_table : Text → TableStep

-- ListTablesResult
pub record ListTablesResult : Type 0 where
  pub tables : List TableInfo
  pub truncated : Bool

-- The rounds, with the count and the tables so far
unfoldable pub read_tables : ℕ → ℕ → List TableInfo → List TableStep → Text ⊎ ListTablesResult
read_tables max count ts [] = inr (record { tables = ts; truncated = false })
read_tables max count ts (table t ∷ steps) =
    let more = read_tables max (count + 1) (ts ++ t ∷ []) steps in
    if leb max count then inr (record { tables = ts; truncated = true }) else more
read_tables max count ts (bad_table e ∷ steps) =
    if leb max count then inr (record { tables = ts; truncated = true }) else inl e

-- ColumnInfo
pub record ColumnInfo : Type 0 where
  pub field : Text
  pub column_type : Text
  pub nullable : Text
  pub key : Text
  pub default_value : Text
  pub extra : Text
  pub comment : Text

-- One round of `Next` of describe_table: the columns of the row, of which the default and the comment
-- may be NULL, or an error of `Scan`
pub data ColumnStep : Type 0 where
  column : Text → Text → Text → Text → Option Text → Text → Option Text → ColumnStep
  bad_column : Text → ColumnStep

-- `if s.Valid { x = s.String }`, for an x that is "" before
abbrev pub string_or_empty : Option Text → Text
string_or_empty none = []
string_or_empty (some s) = s

-- The rounds, with the columns so far
unfoldable pub read_columns : List ColumnInfo → List ColumnStep → Text ⊎ List ColumnInfo
read_columns cs [] = inr cs
read_columns cs (column f t n k d x m ∷ steps) =
    let col : ColumnInfo = record {
      field = f;
      column_type = t;
      nullable = n;
      key = k;
      default_value = string_or_empty d;
      extra = x;
      comment = string_or_empty m;
    } in
    read_columns (cs ++ col ∷ []) steps
read_columns cs (bad_column e ∷ steps) = inl e

-- What the server answers to the three statements, or its error
pub record Responses : Type 0 where
  pub tables : Text → ℕ → Text ⊎ List TableStep
  pub columns : Text → Text → Text ⊎ List ColumnStep
  pub create : Text → Text ⊎ Text

-- (*Handler).executeListDatabases
abbrev pub execute_list_databases : Handler → List Text
execute_list_databases h = list_databases h.router

module _ (server : Responses) (h : Handler) (p : Pool) (database : Text) where
  -- (*Handler).executeListTables
  unfoldable pub execute_list_tables : Called ListTablesResult
  execute_list_tables =
      let limit : ℕ = default_max_tables + 1 in
      ask h.router p database (select_tables database limit) (server.tables database limit)
        (λ steps. scanned (read_tables default_max_tables 0 [] steps))

  -- (*Handler).executeDescribeTable
  unfoldable pub execute_describe_table : Text → Called (List ColumnInfo)
  execute_describe_table name =
      ask h.router p database (select_columns database name) (server.columns database name)
        (λ steps. scanned (read_columns [] steps))

  -- `fmt.Sprintf("SHOW CREATE TABLE %s.%s", quotedDB, quotedTable)`
  unfoldable pub show_create_text : Text → Text
  show_create_text name =
      codes "SHOW CREATE TABLE "
      ++ (quote_identifier database ++ (codes "." ++ quote_identifier name))

  -- (*Handler).executeShowCreateTable
  unfoldable pub execute_show_create_table : Text → Called Text
  unfolding show_create_text
  execute_show_create_table name =
      let query = show_create_text name in
      ask h.router p database (plain query) (server.create query) answered

  -- (*Handler).handleListTablesTool
  unfoldable pub handle_list_tables_tool : Called ListTablesResult
  handle_list_tables_tool = elim (validate_database_name database) [
    | some e ↦ unsent p (refused e)
    | none ↦ execute_list_tables
  ]

  -- The validation that two of the tools begin with
  unfoldable pub validate_names : {R : Type 0} → Text → Called R → Called R
  validate_names name rest = elim (validate_database_name database) [
    | some e ↦ unsent p (refused e)
    | none ↦ elim (validate_table_name name) [ some e ↦ unsent p (refused e) | none ↦ rest ]
  ]

  -- (*Handler).handleDescribeTableTool
  unfoldable pub handle_describe_table_tool : Text → Called (List ColumnInfo)
  handle_describe_table_tool name = validate_names name (execute_describe_table name)

  -- (*Handler).handleShowCreateTableTool
  unfoldable pub handle_show_create_table_tool : Text → Called Text
  handle_show_create_table_tool name = validate_names name (execute_show_create_table name)
