-- ===== src/Examples/Tools.antt =====
-- The tools `explain` and `search_tables` on a server with one cluster.
use safe_my_sqlmcp_server.Base.{
  to_lower, ℕ, zero, suc, inl, inr, none, codes, List, Text, true, to_upper, lookup, insert, take,
  map, [], ◌∷◌, some, ◌≡◌, false, refl,
}
use safe_my_sqlmcp_server.Security.Parser.{parse, first_stmt}
use safe_my_sqlmcp_server.Validation.{
  validate_search_pattern, escape_like_pattern, validate_database_name, validate_table_name,
  quote_identifier,
}
use safe_my_sqlmcp_server.Database.Pool.{get}
use safe_my_sqlmcp_server.Database.Router.{
  query, run_statement, run_behind, run_on, get_db, adjust, cannot_connect, list_databases, keys,
}
use safe_my_sqlmcp_server.Mcp.Handler.{get_max_rows, marshal_result}
use safe_my_sqlmcp_server.Mcp.Explain.{execute_explain, explain_parsed}
use safe_my_sqlmcp_server.Mcp.Explain.Steps.{SendsPlan, explain_sends}
use safe_my_sqlmcp_server.Mcp.Search.{
  Catalog, name, search_statements, asks_from, ask_names, execute_search_tables, search_from, visit,
  rows_of, read_names,
}
use safe_my_sqlmcp_server.Mcp.Search.Complete.{all_matches, search_finds}
use safe_my_sqlmcp_server.Mcp.Handler.{default_max_tables}
use safe_my_sqlmcp_server.Mcp.Catalog.{
  Responses, TableInfo, table, column, answered, reach, ask, read_columns, validate_names,
  show_create_text, execute_list_tables, execute_describe_table, execute_show_create_table,
  handle_describe_table_tool, handle_show_create_table_tool,
}
use safe_my_sqlmcp_server.Mcp.Handler.{plain, select_names}
use safe_my_sqlmcp_server.Mcp.Catalog.Tables.{cut_tables, list_tables_finds}
use safe_my_sqlmcp_server.Mcp.Catalog.ShowCreate.{Sends, show_create-Sends}
use safe_my_sqlmcp_server.Auth.Context.{Context, user_id_key}
use safe_my_sqlmcp_server.Mcp.Tools.{Outside, QueryInput}
use safe_my_sqlmcp_server.Examples.Samples.{env, main_db, handler, state, pool, select_all}

explain_test :
    (execute_explain env handler (codes "app") select_all state).0.sent
    ≡ (7, codes "USE `app`") ∷ (7, codes "EXPLAIN SELECT * FROM t") ∷ []
unfolding execute_explain explain_parsed parse first_stmt query run_statement run_behind run_on
    get_db get adjust cannot_connect lookup insert to_upper
explain_test = refl

explain_sends_example :
    SendsPlan env handler
      (codes "app")
      select_all
      state
      (parse env.tidb select_all)
      (execute_explain env handler (codes "app") select_all state).0
    × ((execute_explain env handler (codes "app") select_all state).0.logger ≡ state.logger)
explain_sends_example = explain_sends env handler (codes "app") select_all state

abbrev tables : Text → List Text
tables db = codes "orders" ∷ codes "order_items" ∷ codes "reorder" ∷ []

abbrev pub catalog : Catalog
catalog db pattern n = some (map name (take n (tables db)))

search_test : (execute_search_tables catalog handler (codes "order") pool).1 ≡ record {
  matches =
      record { database = codes "app"; table = codes "orders" }
      ∷ record { database = codes "app"; table = codes "order_items" }
      ∷ [];
  truncated = true;
}
unfolding execute_search_tables search_from visit rows_of read_names get_max_rows list_databases
    keys get_db get cannot_connect lookup insert escape_like_pattern
search_test = refl

-- The first database fills the result.
search_statements_test :
    search_statements catalog handler (codes "order") pool
    ≡ (7, select_names (codes "app") (codes "%order%") 3) ∷ []
unfolding search_statements asks_from ask_names visit rows_of read_names get_max_rows list_databases
    keys get_db get cannot_connect lookup insert escape_like_pattern validate_search_pattern
    to_lower
search_statements_test = refl

search_finds_example :
    ((execute_search_tables catalog handler (codes "order") pool).1.matches
      ≡ take
          (get_max_rows handler)
          (all_matches handler.router tables (list_databases handler.router) pool))
    × ((execute_search_tables catalog handler (codes "order") pool).1.truncated ≡ false
        → (execute_search_tables catalog handler (codes "order") pool).1.matches
          ≡ all_matches handler.router tables (list_databases handler.router) pool)
search_finds_example = search_finds catalog tables handler (codes "order") pool (λ db n. refl)

-- A server with 1001 tables in each database.
abbrev many : ℕ → List TableInfo
many zero = []
many (suc n) = record { name = codes "t"; comment = [] } ∷ many n

abbrev all_tables : Text → List TableInfo
all_tables db = many 1_001

abbrev pub responses : Responses
responses = record {
  tables = λ db limit. inr (map table (take limit (all_tables db)));
  columns = λ db name. inr (column name [] [] [] none [] (some (codes "c")) ∷ []);
  create = λ sql. inr (codes "CREATE TABLE t (a int)");
}

-- A call by a user, and what it finds outside
abbrev pub caller : Context
caller = (user_id_key, codes "u1") ∷ []

abbrev pub outside : Outside
outside = record { env = env; catalog = catalog; responses = responses }

abbrev pub app_query : QueryInput
app_query = record { database = codes "app"; sql = select_all }

describe_test :
    (handle_describe_table_tool responses handler pool (codes "app") (codes "t")).answer
    ≡ answered (
        record {
          field = codes "t";
          column_type = [];
          nullable = [];
          key = [];
          default_value = [];
          extra = [];
          comment = codes "c";
        }
        ∷ [])
unfolding handle_describe_table_tool execute_describe_table validate_names ask reach read_columns
    validate_database_name validate_table_name get_db get cannot_connect lookup insert
describe_test = refl

list_tables_finds_example :
    (execute_list_tables responses handler pool (codes "app")).answer
    ≡ answered (cut_tables default_max_tables (all_tables (codes "app")))
unfolding reach get_db get cannot_connect lookup insert
list_tables_finds_example =
    list_tables_finds responses all_tables handler pool (codes "app") main_db.db
      (λ name limit. refl) refl

show_create-Sends_example :
    Sends responses handler pool
      (codes "app")
      (codes "t")
      (handle_show_create_table_tool responses handler pool (codes "app") (codes "t")).sent
show_create-Sends_example = show_create-Sends responses handler pool (codes "app") (codes "t")

show_create_test :
    (handle_show_create_table_tool responses handler pool (codes "app") (codes "t")).sent
    ≡ (7, plain (codes "SHOW CREATE TABLE `app`.`t`")) ∷ []
unfolding handle_show_create_table_tool execute_show_create_table validate_names ask reach
    show_create_text validate_database_name validate_table_name get_db get cannot_connect lookup
    insert quote_identifier
show_create_test = refl

marshal_test :
    marshal_result {A = ℕ} (λ n. inl (codes "unsupported type")) 3
    ≡ codes "{\"error\": \"failed to marshal result: unsupported type\"}"
unfolding marshal_result
marshal_test = refl
