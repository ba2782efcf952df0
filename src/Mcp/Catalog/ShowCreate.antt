-- ===== src/Mcp/Catalog/ShowCreate.antt =====
-- internal/mcp/tools.go: the statement that show_create_table sends.
use safe_my_sqlmcp_server.Base.{
  ℕ, Text, codes, List, [], ◌∷◌, ◌++◌, some, ◌≡◌, inl, inr, refl, Option-cases, Sum-cases,
  append-nil,
}
use safe_my_sqlmcp_server.Validation.{validate_database_name, validate_table_name, quote_identifier}
use safe_my_sqlmcp_server.Validation.Names.{IsIdentifier, validate_names_iff}
use safe_my_sqlmcp_server.Validation.Quoting.{read_identifier, read_identifier-quote_identifier}
use safe_my_sqlmcp_server.Database.Pool.{Db, Pool}
use safe_my_sqlmcp_server.Mcp.Handler.{Handler}
use safe_my_sqlmcp_server.Mcp.Catalog.{
  Responses, reach, ask, show_create_text, execute_show_create_table, validate_names,
  handle_show_create_table_tool,
}
use safe_my_sqlmcp_server.Mcp.Handler.{Statement, plain}

-- A statement asks for exactly one table of a database: behind the keywords stands the identifier
-- of the database, a dot, and the identifier of the table, and nothing else, as MySQL reads them.
pub record AsksFor (database name : Text) (statement : Statement) : Type 0 where
  pub quoted : Text
  pub qualified : Text
  pub text : statement ≡ plain (codes "SHOW CREATE TABLE " ++ quoted)
  pub first : read_identifier quoted ≡ some (database, codes "." ++ qualified)
  pub second : read_identifier qualified ≡ some (name, [])

-- What a call sends: nothing, or one statement on the handle of the database.
pub data Sends (server : Responses) (h : Handler) (p : Pool) (database name : Text)
    : List (ℕ × Statement) → Type 0 where
  nothing : Sends server h p database name []
  one :
      (db : Db) (statement : Statement)
      → IsIdentifier database
      → IsIdentifier name
      → (reach h.router p database).1 ≡ inr db
      → AsksFor database name statement
      → Sends server h p database name ((db.id, statement) ∷ [])

AsksFor-show_create_text :
    (server : Responses) (h : Handler) (p : Pool) (database name : Text)
    → AsksFor database name (plain (show_create_text server h p database name))
unfolding show_create_text
AsksFor-show_create_text server h p database name = record {
  quoted = quote_identifier database ++ (codes "." ++ quote_identifier name);
  qualified = quote_identifier name;
  text = refl;
  first = read_identifier-quote_identifier database (codes "." ++ quote_identifier name) (λ e. cc);
  second = rw (← append-nil (quote_identifier name)) (read_identifier-quote_identifier name [] tt);
}

execute-Sends :
    (server : Responses) (h : Handler) (p : Pool) (database name : Text)
    → IsIdentifier database
    → IsIdentifier name
    → Sends server h p database name (execute_show_create_table server h p database name).sent
unfolding execute_show_create_table ask
execute-Sends server h p database name i j = elim (Sum-cases (reach h.router p database).1) [
  | inl (e, failed) ↦ rw (execute_show_create_table, ask, failed) nothing
  | inr (db, found) ↦
      rw (execute_show_create_table, ask, found)
        (one db (plain (show_create_text server h p database name)) i j found
          (AsksFor-show_create_text server h p database name))
]

-- The tool show_create_table sends nothing, or exactly one statement: then both names are identifiers,
-- it goes to the handle of the named database, and it asks for the named table of that database and
-- nothing else.
pub show_create-Sends :
    (server : Responses) (h : Handler) (p : Pool) (database name : Text)
    → Sends server h p database name (handle_show_create_table_tool server h p database name).sent
unfolding handle_show_create_table_tool validate_names
show_create-Sends server h p database name = elim (Option-cases (validate_database_name database)) [
  | inr (e, bad) ↦ rw (handle_show_create_table_tool, validate_names, bad) nothing
  | inl good ↦ elim (Option-cases (validate_table_name name)) [
    | inr (e, bad) ↦ rw (handle_show_create_table_tool, validate_names, good, bad) nothing
    | inl fine ↦
        rw (handle_show_create_table_tool, validate_names, good, fine)
          (execute-Sends server h p database name ((validate_names_iff database).0.0 good)
            ((validate_names_iff name).1.0 fine))
  ]
]
