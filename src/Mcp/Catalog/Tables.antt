-- ===== src/Mcp/Catalog/Tables.antt =====
-- internal/mcp/tools.go: what list_tables answers.
use safe_my_sqlmcp_server.Base.{
  ℕ, zero, suc, ◌+◌, ◌<◌, ltb, Text, length, take, append_assoc, append-nil, map, List, [], ◌∷◌,
  ◌++◌, ◌≡◌, inr, refl, arith,
}
use safe_my_sqlmcp_server.Database.Pool.{Db, Pool}
use safe_my_sqlmcp_server.Mcp.Handler.{Handler, default_max_tables}
use safe_my_sqlmcp_server.Mcp.Catalog.{
  Responses, TableInfo, table, ListTablesResult, read_tables, reach, ask, answered,
  execute_list_tables,
}

-- Some tables, cut at the limit, and whether they are more
abbrev pub cut_tables : ℕ → List TableInfo → ListTablesResult
cut_tables max ts = record { tables = take max ts; truncated = ltb max (length ts) }

-- The rounds over the tables that a LIMIT above the count lets through, with some already read
read_tables-take :
    (max room k count : ℕ) (ts all : List TableInfo)
    → max ≡ count + room
    → room < k
    → read_tables max count ts (map table (take k all))
      ≡ inr (record { tables = ts ++ take room all; truncated = ltb room (length all) })
unfolding read_tables
read_tables-take max room zero count ts all e h = absurd (omega arith)
read_tables-take max zero (suc k) count ts [] e h = ground (arith, append-nil ts)
read_tables-take max (suc room) (suc k) count ts [] e h = ground (arith, append-nil ts)
read_tables-take max zero (suc k) count ts (t ∷ all) e h = ground (arith, append-nil ts)
read_tables-take max (suc room) (suc k) count ts (t ∷ all) e h = ground (
  arith,
  read_tables-take max room k (count + 1) (ts ++ t ∷ []) all (omega arith) (omega arith),
  append_assoc ts (t ∷ []) (take room all),
)

-- Against a server that answers with the tables of the database, up to the LIMIT of the statement, and
-- if a connection to the database can be had, list_tables answers with the first 1000 tables, and says
-- that it was truncated exactly if there are more.
pub list_tables_finds :
    (server : Responses) (all : Text → List TableInfo) (h : Handler) (p : Pool) (database : Text)
    (db : Db)
    → ((name : Text) (limit : ℕ)
        → server.tables name limit ≡ inr (map table (take limit (all name))))
    → (reach h.router p database).1 ≡ inr db
    → (execute_list_tables server h p database).answer
      ≡ answered (cut_tables default_max_tables (all database))
unfolding execute_list_tables ask
list_tables_finds server all h p database db serves found =
    let limit =
      read_tables-take default_max_tables default_max_tables (default_max_tables + 1) 0 []
        (all database) (omega arith) (omega arith) in
    rw (execute_list_tables, ask, found, serves database (default_max_tables + 1), limit) refl
