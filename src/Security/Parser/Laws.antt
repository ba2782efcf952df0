-- ===== src/Security/Parser/Laws.antt =====
-- internal/security/parser.go: what the summary of a statement says of it.
use safe_my_sqlmcp_server.Base.{
  ℤ, pos, ◌<ℤ◌, Text, Bool, true, false, sym, Option, List, [], ◌∷◌, none, some, ◌≡◌, ◌≢◌, ◌⊎◌,
  refl, arith, subst,
}
use safe_my_sqlmcp_server.Security.Ast
use safe_my_sqlmcp_server.Security.Parser.{
  SqlType, select, insert, update, delete, create_table, create_index, alter_table, drop, truncate,
  rename, show, explain, other, ParsedSql, TidbResult, syntax_error, stmts, parsed, parse_stmt,
  parse, get_limit, first_stmt,
}

-- What the syntax tree of a statement says: its type, and whether it has a WHERE and a LIMIT clause
-- that the code looks at. Each kind of tree has one type.
pub data Describes : Ast.StmtNode → SqlType → Bool → Bool → Type 0 where
  a_select :
      (w : Bool) (t : Option Ast.TableRefsClause)
      → Describes (Ast.StmtNode.select_stmt w none t) select w false
  a_limited_select :
      (w : Bool) (l : Ast.Limit) (t : Option Ast.TableRefsClause)
      → Describes (Ast.StmtNode.select_stmt w (some l) t) select w true
  an_insert :
      (t : Option Ast.TableRefsClause) → Describes (Ast.StmtNode.insert_stmt t) insert false false
  an_update :
      (w : Bool) (t : Option Ast.TableRefsClause)
      → Describes (Ast.StmtNode.update_stmt w none t) update w false
  a_limited_update :
      (w : Bool) (l : Ast.Limit) (t : Option Ast.TableRefsClause)
      → Describes (Ast.StmtNode.update_stmt w (some l) t) update w true
  a_delete :
      (w : Bool) (t : Option Ast.TableRefsClause)
      → Describes (Ast.StmtNode.delete_stmt w none t) delete w false
  a_limited_delete :
      (w : Bool) (l : Ast.Limit) (t : Option Ast.TableRefsClause)
      → Describes (Ast.StmtNode.delete_stmt w (some l) t) delete w true
  a_create_table :
      (t : Option Text) → Describes (Ast.StmtNode.create_table_stmt t) create_table false false
  a_create_index :
      (t : Option Text) → Describes (Ast.StmtNode.create_index_stmt t) create_index false false
  an_alter_table :
      (t : Option Text) → Describes (Ast.StmtNode.alter_table_stmt t) alter_table false false
  a_drop : (ts : List Text) → Describes (Ast.StmtNode.drop_table_stmt ts) drop false false
  a_truncate :
      (t : Option Text) → Describes (Ast.StmtNode.truncate_table_stmt t) truncate false false
  a_rename :
      (ts : List (Option Text)) → Describes (Ast.StmtNode.rename_table_stmt ts) rename false false
  a_show : Describes Ast.StmtNode.show_stmt show false false
  another : Describes Ast.StmtNode.other_stmt other false false

-- A statement that the parser gave first
abbrev pub IsFirst : TidbResult → Ast.StmtNode → Type 0
IsFirst (syntax_error e) s = ⊥
IsFirst (stmts []) s = ⊥
IsFirst (stmts (t ∷ rest)) s = t ≡ s

-- The type and the clauses are those of the statement's tree. A WHERE and a LIMIT clause are reported only for the statements that can have one, the LIMIT's
-- value only for a SELECT with a LIMIT, and no statement has the type EXPLAIN.
pub record IsWellFormed (p : ParsedSql) : Type 0 where
  pub filters : p.has_where ≡ true → (p.type ≡ select) ⊎ (p.type ≡ update) ⊎ (p.type ≡ delete)
  pub limits : p.has_limit ≡ true → (p.type ≡ select) ⊎ (p.type ≡ update) ⊎ (p.type ≡ delete)
  pub value : p.limit ≢ pos 0 → (p.type ≡ select) × (p.has_limit ≡ true)
  pub no_explain : p.type ≢ explain
  pub described : Describes p.ast p.type p.has_where p.has_limit

ast-parse_stmt : (s : Ast.StmtNode) (sql : Text) → (parse_stmt s sql).ast ≡ s
unfolding parse_stmt
ast-parse_stmt (Ast.StmtNode.select_stmt w l t) sql = refl
ast-parse_stmt s sql = refl

parse_stmt-Describes :
    (s : Ast.StmtNode) (sql : Text)
    → let p = parse_stmt s sql in Describes s p.type p.has_where p.has_limit
unfolding parse_stmt
parse_stmt-Describes (Ast.StmtNode.select_stmt w none t) sql = a_select w t
parse_stmt-Describes (Ast.StmtNode.select_stmt w (some l) t) sql = a_limited_select w l t
parse_stmt-Describes (Ast.StmtNode.insert_stmt t) sql = an_insert t
parse_stmt-Describes (Ast.StmtNode.update_stmt w none t) sql = an_update w t
parse_stmt-Describes (Ast.StmtNode.update_stmt w (some l) t) sql = a_limited_update w l t
parse_stmt-Describes (Ast.StmtNode.delete_stmt w none t) sql = a_delete w t
parse_stmt-Describes (Ast.StmtNode.delete_stmt w (some l) t) sql = a_limited_delete w l t
parse_stmt-Describes (Ast.StmtNode.create_table_stmt t) sql = a_create_table t
parse_stmt-Describes (Ast.StmtNode.create_index_stmt t) sql = a_create_index t
parse_stmt-Describes (Ast.StmtNode.alter_table_stmt t) sql = an_alter_table t
parse_stmt-Describes (Ast.StmtNode.drop_table_stmt ts) sql = a_drop ts
parse_stmt-Describes (Ast.StmtNode.truncate_table_stmt t) sql = a_truncate t
parse_stmt-Describes (Ast.StmtNode.rename_table_stmt ts) sql = a_rename ts
parse_stmt-Describes Ast.StmtNode.show_stmt sql = a_show
parse_stmt-Describes Ast.StmtNode.other_stmt sql = another

clauses :
    (s : Ast.StmtNode) (sql : Text)
    → let p = parse_stmt s sql in
      (p.has_where ≡ true → (p.type ≡ select) ⊎ (p.type ≡ update) ⊎ (p.type ≡ delete))
      × (p.has_limit ≡ true → (p.type ≡ select) ⊎ (p.type ≡ update) ⊎ (p.type ≡ delete))
      × (p.limit ≢ pos 0 → (p.type ≡ select) × (p.has_limit ≡ true))
      × (p.type ≢ explain)
unfolding parse_stmt
clauses (Ast.StmtNode.select_stmt w none t) sql = ground arith
clauses (Ast.StmtNode.select_stmt w (some l) t) sql = ground arith
clauses s sql = ground arith

pub parse_stmt-IsWellFormed : (s : Ast.StmtNode) (sql : Text) → IsWellFormed (parse_stmt s sql)
unfolding parse_stmt
parse_stmt-IsWellFormed s sql =
    let (filters, limits, value, no_explain) = clauses s sql in
    record {
      filters = filters;
      limits = limits;
      value = value;
      no_explain = no_explain;
      described = rw (ast-parse_stmt s sql) (parse_stmt-Describes s sql);
    }

parsed_stmt :
    (r : TidbResult) (sql : Text) (p : ParsedSql)
    → first_stmt r sql ≡ parsed p
    → (s : Ast.StmtNode) × (parse_stmt s sql ≡ p) × IsFirst r s
unfolding first_stmt
parsed_stmt (stmts (s ∷ rest)) sql p e = (s, ground arith, refl)
parsed_stmt r sql p e = cc

original-parse_stmt : (s : Ast.StmtNode) (sql : Text) → (parse_stmt s sql).original ≡ sql
unfolding parse_stmt
original-parse_stmt (Ast.StmtNode.select_stmt w l t) sql = refl
original-parse_stmt s sql = refl

-- Whatever the TiDB parser answers, a summary is of the first statement that it gave: its type is that
-- of this statement, a WHERE or LIMIT clause is reported exactly for a SELECT, UPDATE or DELETE that has
-- one, the value of a LIMIT only for a SELECT, no type is EXPLAIN, and the text is kept.
pub parse-IsWellFormed :
    (tidb : Text → TidbResult) (sql : Text) (p : ParsedSql)
    → parse tidb sql ≡ parsed p
    → IsWellFormed p × (p.original ≡ sql) × IsFirst (tidb sql) p.ast
unfolding parse
parse-IsWellFormed tidb sql p e =
    let (s, same, first) = parsed_stmt (tidb sql) sql p e in
    subst (λ q. IsWellFormed q × (q.original ≡ sql) × IsFirst (tidb sql) q.ast) same
      (
        parse_stmt-IsWellFormed s sql,
        original-parse_stmt s sql,
        subst (IsFirst (tidb sql)) (sym (ast-parse_stmt s sql)) first,
      )

-- Only the first statement of a text counts: what follows it, of whatever kind, changes nothing in
-- the summary on which the security check decides.
pub parse_first_only :
    (tidb tidb' : Text → TidbResult) (sql : Text) (s : Ast.StmtNode) (rest : List Ast.StmtNode)
    → tidb sql ≡ stmts (s ∷ rest)
    → tidb' sql ≡ stmts (s ∷ [])
    → parse tidb sql ≡ parse tidb' sql
unfolding parse
parse_first_only tidb tidb' sql s rest e e' = ground arith

-- A limit that is reported is positive, and belongs to a SELECT.
pub get_limit_sound :
    (tidb : Text → TidbResult) (sql : Text) (p : ParsedSql) (n : ℤ)
    → parse tidb sql ≡ parsed p
    → get_limit p ≡ (n, true)
    → (pos 0 <ℤ n) × (p.type ≡ select)
unfolding get_limit
get_limit_sound tidb sql p n e g =
    let (w, _, _) = parse-IsWellFormed tidb sql p e in
    let positive : pos 0 <ℤ n = ground arith in
    let same : p.limit ≡ n = ground arith in (positive, (w.value (ground arith)).0)
