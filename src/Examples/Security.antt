-- ===== src/Examples/Security.antt =====
-- The parser's summary, the checker and the rewriter on concrete statements.
use safe_my_sqlmcp_server.Base.{
  pos, codes, to_upper, true, false, [], none, some, arith, ◌≡◌, ◌↔◌, refl, Exists,
}
use safe_my_sqlmcp_server.Security.Ast
use safe_my_sqlmcp_server.Security.Parser.{
  select, delete, ParsedSql, parsed, parse, first_stmt, extract_tables_from_node,
}
use safe_my_sqlmcp_server.Security.Parser.Laws.{IsFirst, IsWellFormed, parse-IsWellFormed}
use safe_my_sqlmcp_server.Security.Parser.Tables.{Joins, extract_tables_iff}
use safe_my_sqlmcp_server.Security.Checker.Policy.{Permits, verdict, check-Permits}
use safe_my_sqlmcp_server.Security.Rewriter.{cap_limit, add_limit}
use safe_my_sqlmcp_server.Security.Rewriter.Scanning.{IsCapped}
use safe_my_sqlmcp_server.Security.Rewriter.Capped.{cap_limit-IsCapped}
use safe_my_sqlmcp_server.Examples.Samples.{rules, delete_all, select_all, delete_sql, tidb}

cap_limit_test :
    cap_limit (codes "select * from t limit  5000 and xlimit 9999 LIMIT 7") (pos 100)
    ≡ codes "select * from t LIMIT 100 and xlimit 9999 LIMIT 7"
unfolding cap_limit to_upper
cap_limit_test = refl

add_limit_test :
    add_limit (codes "  DELETE FROM t ;; ") (pos 100) ≡ codes "DELETE FROM t  LIMIT 100"
unfolding add_limit
add_limit_test = refl

delete_parsed : parse tidb delete_all ≡ parsed delete_sql
unfolding parse first_stmt
delete_parsed = refl

abbrev other_node : Ast.StmtNode
other_node = Ast.StmtNode.other_stmt

abbrev limited_node : Ast.StmtNode
limited_node =
    Ast.StmtNode.select_stmt true
      (some (record { count = some (Ast.ExprNode.value (Ast.Datum.int64 (pos 5))) })) none

abbrev limited_sql : ParsedSql
limited_sql = record {
  original = select_all;
  type = select;
  tables = [];
  has_where = true;
  has_limit = true;
  limit = pos 5;
  ast = limited_node;
}

check-Permits_example : ((verdict rules delete_sql).allowed ≡ true) ↔ Permits rules delete
check-Permits_example = check-Permits rules delete_sql

parse-IsWellFormed_example :
    IsWellFormed delete_sql
    × (delete_sql.original ≡ delete_all)
    × IsFirst (tidb delete_all) delete_sql.ast
parse-IsWellFormed_example = parse-IsWellFormed tidb delete_all delete_sql delete_parsed

cap_limit-IsCapped_example :
    IsCapped 100 false (cap_limit (codes "select 1 limit 500") (pos 100))
    × (IsCapped 100 false (codes "select 1 limit 500")
        → cap_limit (codes "select 1 limit 500") (pos 100) ≡ codes "select 1 limit 500")
cap_limit-IsCapped_example = cap_limit-IsCapped (codes "select 1 limit 500") 100 (omega arith)

extract_tables_iff_example :
    Exists
      (λ u. codes "b" ≡ u)
      (extract_tables_from_node (
        Ast.ResultSetNode.join
          (Ast.ResultSetNode.table_name (codes "a"))
          (Ast.ResultSetNode.table_source (some (codes "b")))))
    ↔ Joins (codes "b") (
        Ast.ResultSetNode.join
          (Ast.ResultSetNode.table_name (codes "a"))
          (Ast.ResultSetNode.table_source (some (codes "b"))))
extract_tables_iff_example = extract_tables_iff (codes "b") _
