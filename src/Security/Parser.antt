-- ===== src/Security/Parser.antt =====
-- internal/security/parser.go: the summary of a statement on which the checker and the rewriter
-- decide. The TiDB parser itself is a parameter: a function from a text to its statements or an
-- error message.
pub mod Tables
pub mod Laws
use safe_my_sqlmcp_server.Base.{
  ℤ, pos, ltb_ℤ, Text, codes, Bool, true, false, ◌&&◌, List, [], ◌∷◌, ◌++◌, Option, none, some,
  if◌then◌else◌,
}
use safe_my_sqlmcp_server.Security.Ast

-- SQLType, with the constants that the code uses.
pub data SqlType : Type 0 where
  select insert update delete : SqlType
  create_table create_index alter_table drop truncate rename : SqlType
  show explain other : SqlType

-- SQLType.String
unfoldable pub type_name : SqlType → Text
type_name select = codes "SELECT"
type_name insert = codes "INSERT"
type_name update = codes "UPDATE"
type_name delete = codes "DELETE"
type_name create_table = codes "CREATE_TABLE"
type_name create_index = codes "CREATE_INDEX"
type_name alter_table = codes "ALTER_TABLE"
type_name drop = codes "DROP"
type_name truncate = codes "TRUNCATE"
type_name rename = codes "RENAME"
type_name show = codes "SHOW"
type_name explain = codes "EXPLAIN"
type_name other = codes "OTHER"

-- SQLType.IsDML
abbrev pub is_dml : SqlType → Bool
is_dml select = true
is_dml insert = true
is_dml update = true
is_dml delete = true
is_dml _ = false

-- SQLType.IsDDL
abbrev pub is_ddl : SqlType → Bool
is_ddl create_table = true
is_ddl create_index = true
is_ddl alter_table = true
is_ddl drop = true
is_ddl truncate = true
is_ddl rename = true
is_ddl _ = false

-- ParsedSQL
pub record ParsedSql : Type 0 where
  pub original : Text
  pub type : SqlType
  pub tables : List Text
  pub has_where : Bool
  pub has_limit : Bool
  pub limit : ℤ
  pub ast : Ast.StmtNode

-- getLimitValue
unfoldable pub get_limit_value : Option Ast.ExprNode → ℤ
get_limit_value none = pos 0
get_limit_value (some (Ast.ExprNode.value (Ast.Datum.int64 n))) = n
get_limit_value (some (Ast.ExprNode.value (Ast.Datum.int n))) = n
get_limit_value (some (Ast.ExprNode.value (Ast.Datum.float64 n))) = n
get_limit_value (some (Ast.ExprNode.value Ast.Datum.other)) = pos 0
get_limit_value (some Ast.ExprNode.opaque_expr) = pos 0

-- extractTablesFromNode
unfoldable pub extract_tables_from_node : Ast.ResultSetNode → List Text
extract_tables_from_node Ast.ResultSetNode.nil_node = []
extract_tables_from_node (Ast.ResultSetNode.table_source (some t)) = t ∷ []
extract_tables_from_node (Ast.ResultSetNode.table_source none) = []
extract_tables_from_node (Ast.ResultSetNode.join left right) =
    extract_tables_from_node left ++ extract_tables_from_node right
extract_tables_from_node (Ast.ResultSetNode.table_name t) = t ∷ []
extract_tables_from_node Ast.ResultSetNode.other_node = []

-- extractTablesFromTableRefs
unfoldable pub extract_tables_from_table_refs : Option Ast.TableRefsClause → List Text
unfolding extract_tables_from_node
extract_tables_from_table_refs none = []
extract_tables_from_table_refs (some node) = extract_tables_from_node node.table_refs

-- `if s.Table != nil { result.Tables = []string{…} }`
abbrev pub one_table : Option Text → List Text
one_table none = []
one_table (some t) = t ∷ []

-- The loop over the tables of a rename, which skips the nil ones.
abbrev pub old_tables : List (Option Text) → List Text
old_tables [] = []
old_tables (none ∷ ts) = old_tables ts
old_tables (some t ∷ ts) = t ∷ old_tables ts

-- `s.Limit != nil`
abbrev pub has_clause : Option Ast.Limit → Bool
has_clause none = false
has_clause (some l) = true

abbrev pub limit_value : Option Ast.Limit → ℤ
limit_value none = pos 0
limit_value (some l) = get_limit_value l.count

-- The value that the code starts from, with the type filled in.
abbrev pub summary : Ast.StmtNode → Text → SqlType → ParsedSql
summary stmt original type = record {
  original = original;
  type = type;
  tables = [];
  has_where = false;
  has_limit = false;
  limit = pos 0;
  ast = stmt;
}

-- (*Parser).parseStmt
unfoldable pub parse_stmt : Ast.StmtNode → Text → ParsedSql
unfolding extract_tables_from_table_refs get_limit_value
parse_stmt (Ast.StmtNode.select_stmt w l from) original =
    record (summary (Ast.StmtNode.select_stmt w l from) original select) {
      tables = extract_tables_from_table_refs from;
      has_where = w;
      has_limit = has_clause l;
      limit = limit_value l;
    }
parse_stmt (Ast.StmtNode.insert_stmt t) original =
    record (summary (Ast.StmtNode.insert_stmt t) original insert) {
      tables = extract_tables_from_table_refs t;
    }
parse_stmt (Ast.StmtNode.update_stmt w l t) original =
    record (summary (Ast.StmtNode.update_stmt w l t) original update) {
      tables = extract_tables_from_table_refs t;
      has_where = w;
      has_limit = has_clause l;
    }
parse_stmt (Ast.StmtNode.delete_stmt w l t) original =
    record (summary (Ast.StmtNode.delete_stmt w l t) original delete) {
      tables = extract_tables_from_table_refs t;
      has_where = w;
      has_limit = has_clause l;
    }
parse_stmt (Ast.StmtNode.create_table_stmt t) original =
    record (summary (Ast.StmtNode.create_table_stmt t) original create_table) {
      tables = one_table t;
    }
parse_stmt (Ast.StmtNode.create_index_stmt t) original =
    record (summary (Ast.StmtNode.create_index_stmt t) original create_index) {
      tables = one_table t;
    }
parse_stmt (Ast.StmtNode.alter_table_stmt t) original =
    record (summary (Ast.StmtNode.alter_table_stmt t) original alter_table) { tables = one_table t }
parse_stmt (Ast.StmtNode.drop_table_stmt ts) original =
    record (summary (Ast.StmtNode.drop_table_stmt ts) original drop) { tables = ts }
parse_stmt (Ast.StmtNode.truncate_table_stmt t) original =
    record (summary (Ast.StmtNode.truncate_table_stmt t) original truncate) { tables = one_table t }
parse_stmt (Ast.StmtNode.rename_table_stmt ts) original =
    record (summary (Ast.StmtNode.rename_table_stmt ts) original rename) { tables = old_tables ts }
parse_stmt Ast.StmtNode.show_stmt original = summary Ast.StmtNode.show_stmt original show
parse_stmt Ast.StmtNode.other_stmt original = summary Ast.StmtNode.other_stmt original other

-- The outcome of `Parse`: an error, Go's `nil, nil`, or the summary.
pub data ParseResult : Type 0 where
  parse_error : Text → ParseResult
  nothing : ParseResult
  parsed : ParsedSql → ParseResult

-- What the TiDB parser answers.
pub data TidbResult : Type 0 where
  syntax_error : Text → TidbResult
  stmts : List Ast.StmtNode → TidbResult

unfoldable pub first_stmt : TidbResult → Text → ParseResult
unfolding parse_stmt
first_stmt (syntax_error e) sql = parse_error e
first_stmt (stmts []) sql = nothing
first_stmt (stmts (s ∷ rest)) sql = parsed (parse_stmt s sql)

-- (*Parser).Parse
unfoldable pub parse : (Text → TidbResult) → Text → ParseResult
unfolding first_stmt
parse tidb sql = first_stmt (tidb sql) sql

-- (*ParsedSQL).GetLimit
unfoldable pub get_limit : ParsedSql → ℤ × Bool
get_limit p = if p.has_limit && ltb_ℤ (pos 0) p.limit then (p.limit, true) else (pos 0, false)
