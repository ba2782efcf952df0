-- ===== src/Mcp/Search.antt =====
-- internal/mcp/tools.go, the tool `search_tables`: the databases in the order of one iteration over
-- the router's map, with a limit on the matches of all of them together.
pub mod Complete
use safe_my_sqlmcp_server.Base.{
  ℕ, ◌+◌, ◌-◌, leb, Text, codes, lower, length, Bool, true, false, List, [], ◌∷◌, ◌++◌, Option,
  none, some, ◌⊎◌, inl, inr, if◌then◌else◌,
}
use safe_my_sqlmcp_server.Validation.{ValidationError, escape_like_pattern, validate_search_pattern}
use safe_my_sqlmcp_server.Database.Pool.{Db, Pool}
use safe_my_sqlmcp_server.Database.Router.{
  Router, RouterError, get_db, cluster_of, cannot_connect, list_databases,
}
use safe_my_sqlmcp_server.Mcp.Handler.{Handler, Statement, select_names, get_max_rows}

-- TableMatch
pub record TableMatch : Type 0 where
  pub database : Text
  pub table : Text

-- One round of `Next`: a name, or an error of `Scan`, after which the loop goes on.
pub data NameStep : Type 0 where
  name : Text → NameStep
  bad_name : NameStep

-- What the server answers to the query for a database, a pattern and a LIMIT; `none` is an error.
abbrev pub Catalog : Type 0
Catalog = Text → Text → ℕ → Option (List NameStep)

-- `"%" + pattern + "%"`, with the pattern escaped and in lower case
abbrev pub like_pattern : Text → Text
like_pattern pattern = codes "%" ++ (lower (escape_like_pattern pattern) ++ codes "%")

-- The rounds of one database: the matches, and whether the limit stopped the loop.
unfoldable pub read_names : ℕ → Text → List TableMatch → List NameStep → List TableMatch × Bool
read_names max db ms [] = (ms, false)
read_names max db ms (name n ∷ steps) = elim (leb max (length ms)) [
  | true ↦ (ms, true)
  | false ↦ read_names max db (ms ++ record { database = db; table = n } ∷ []) steps
]
read_names max db ms (bad_name ∷ steps) = elim (leb max (length ms)) [
  | true ↦ (ms, true)
  | false ↦ read_names max db ms steps
]

-- The rows that a query of a database gives; an error, also of a handle that has no connection left,
-- ends the work on this database only.
unfoldable pub rows_of : Router → Pool → Text → Option (List NameStep) → List NameStep
rows_of r p db answer = elim (cannot_connect (cluster_of r db) p none) [
  | some e ↦ []
  | none ↦ elim answer [ none ↦ [] | some steps ↦ steps ]
]

module _ (catalog : Catalog) (r : Router) (pattern : Text) (max : ℕ) where
  -- The body of the loop over the databases behind GetDB: the matches, and whether the limit stops it.
  unfoldable pub visit : Text → Pool → RouterError ⊎ Db → List TableMatch → List TableMatch × Bool
  visit db q (inl e) ms = (ms, false)
  visit db q (inr handle) ms = elim (leb max (length ms)) [
    | true ↦ (ms, true)
    | false ↦ read_names max db ms (rows_of r q db (catalog db pattern (max - length ms + 1)))
  ]

  -- The loop, with the pool and the matches so far.
  unfoldable pub search_from : List Text → Pool → List TableMatch → Pool × List TableMatch × Bool
  search_from [] p ms = (p, ms, false)
  search_from (db ∷ dbs) p ms =
      let (q, found) = get_db r p db in
      let (more, stopped) = visit db q found ms in
      elim stopped [ true ↦ (q, more, true) | false ↦ search_from dbs q more ]

-- The statement that the body of the loop sends, if it comes to that
unfoldable pub ask_names :
    Router → Text → ℕ → Text → Pool → RouterError ⊎ Db → List TableMatch → List (ℕ × Statement)
ask_names r pattern max db q (inl e) ms = []
ask_names r pattern max db q (inr handle) ms =
    if leb max (length ms) then [] else elim (cannot_connect (cluster_of r db) q none) [
      | some e ↦ []
      | none ↦ (handle.id, select_names db pattern (max - length ms + 1)) ∷ []
    ]

-- The statements of the loop
unfoldable pub asks_from :
    Catalog → Router → Text → ℕ → List Text → Pool → List TableMatch → List (ℕ × Statement)
unfolding ask_names visit
asks_from catalog r pattern max [] p ms = []
asks_from catalog r pattern max (db ∷ dbs) p ms =
    let (q, found) = get_db r p db in
    let (more, stopped) = visit catalog r pattern max db q found ms in
    let rest = asks_from catalog r pattern max dbs q more in
    ask_names r pattern max db q found ms ++ (if stopped then [] else rest)

-- The statements of a call of the tool
unfoldable pub search_statements : Catalog → Handler → Text → Pool → List (ℕ × Statement)
unfolding asks_from
search_statements catalog h pattern p = elim (validate_search_pattern pattern) [
  | some e ↦ []
  | none ↦
      asks_from catalog h.router (like_pattern pattern) (get_max_rows h) (list_databases h.router) p
        []
]

-- SearchTablesResult
pub record SearchTablesResult : Type 0 where
  pub matches : List TableMatch
  pub truncated : Bool

-- (*Handler).executeSearchTables
unfoldable pub execute_search_tables : Catalog → Handler → Text → Pool → Pool × SearchTablesResult
execute_search_tables catalog h pattern p =
    let (q, matches, truncated) =
      search_from catalog h.router (like_pattern pattern) (get_max_rows h) (list_databases h.router)
        p [] in
    (q, record { matches = matches; truncated = truncated })

-- (*Handler).handleSearchTablesTool
unfoldable pub handle_search_tables_tool :
    Catalog → Handler → Text → Pool → Pool × (ValidationError ⊎ SearchTablesResult)
handle_search_tables_tool catalog h pattern p = elim (validate_search_pattern pattern) [
  | some e ↦ (p, inl e)
  | none ↦ let (q, result) = execute_search_tables catalog h pattern p in (q, inr result)
]
