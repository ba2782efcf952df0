-- ===== src/Security/Ast.antt =====
-- The syntax trees of the TiDB parser, as far as internal/security/parser.go reads them: a
-- constructor for each type in a type switch, with the fields that the code looks at. A pointer or
-- interface that the code compares with nil is an `Option`.
use safe_my_sqlmcp_server.Base.{ℤ, Text, Bool, List, Option}

-- What `GetValue` returns, by the cases of the type switch. A `float64` stands for its value as
-- converted by `int(n)`. Any other dynamic type, nil included, is `other`.
pub data Datum : Type 0 where
  int64 int float64 : ℤ → Datum
  other : Datum

-- `ast.ExprNode`: with a method `GetValue`, or without.
pub data ExprNode : Type 0 where
  value : Datum → ExprNode
  opaque_expr : ExprNode

-- `*ast.Limit`, by its field `Count`.
pub record Limit : Type 0 where
  pub count : Option ExprNode

-- `ast.ResultSetNode`. The source of a `TableSource` is a table's name or something else (a
-- subquery); `nil_node` is a nil interface.
pub data ResultSetNode : Type 0 where
  nil_node : ResultSetNode
  table_source : Option Text → ResultSetNode
  join : ResultSetNode → ResultSetNode → ResultSetNode
  table_name : Text → ResultSetNode
  other_node : ResultSetNode

-- `*ast.TableRefsClause`
pub record TableRefsClause : Type 0 where
  pub table_refs : ResultSetNode

-- `ast.StmtNode`. `has_where` is `s.Where != nil`; the lists of a rename hold the old tables.
pub data StmtNode : Type 0 where
  select_stmt : (has_where : Bool) → Option Limit → Option TableRefsClause → StmtNode
  insert_stmt : Option TableRefsClause → StmtNode
  update_stmt : (has_where : Bool) → Option Limit → Option TableRefsClause → StmtNode
  delete_stmt : (has_where : Bool) → Option Limit → Option TableRefsClause → StmtNode
  create_table_stmt create_index_stmt alter_table_stmt : Option Text → StmtNode
  drop_table_stmt : List Text → StmtNode
  truncate_table_stmt : Option Text → StmtNode
  rename_table_stmt : List (Option Text) → StmtNode
  show_stmt : StmtNode
  other_stmt : StmtNode
