-- ===== src/Mcp/Search/Complete.antt =====
-- internal/mcp/tools.go: what a search of the tables finds, and when it says that it was cut short.
use safe_my_sqlmcp_server.Base.{
  ℕ, zero, suc, ◌+◌, ◌-◌, ◌≤◌, ◌<◌, leb, Text, length, length-append, length-take, take,
  append_assoc, append-nil, map, Bool, true, false, List, [], ◌∷◌, ◌++◌, none, some, ◌≡◌, ◌∙◌, sym,
  ap, subst, ◌⊎◌, inl, inr, refl, arith, Bool-cases, Option-cases,
}
use safe_my_sqlmcp_server.Database.Pool.{Db, Pool}
use safe_my_sqlmcp_server.Database.Router.{
  Router, RouterError, get_db, cluster_of, cannot_connect, list_databases,
}
use safe_my_sqlmcp_server.Mcp.Handler.{Handler, get_max_rows}
use safe_my_sqlmcp_server.Mcp.Search.{
  TableMatch, name, Catalog, read_names, rows_of, visit, search_from, like_pattern,
  execute_search_tables,
}

take_all {ℓ} : {A : Type ℓ} (n : ℕ) (xs : List A) → length xs ≤ n → take n xs ≡ xs
take_all zero [] h = refl
take_all (suc n) [] h = refl
take_all zero (x ∷ xs) h = absurd (omega (arith, h))
take_all (suc n) (x ∷ xs) h = ap (λ t. x ∷ t) (take_all n xs (omega arith))

-- A prefix that is long enough is all that is taken.
take-append {ℓ} :
    {A : Type ℓ} (n : ℕ) (xs ys : List A) → n ≤ length xs → take n (xs ++ ys) ≡ take n xs
take-append zero xs ys h = refl
take-append (suc n) [] ys h = absurd (omega (arith, h))
take-append (suc n) (x ∷ xs) ys h = ap (λ t. x ∷ t) (take-append n xs ys (omega arith))

-- The matches that the tables of a database are.
abbrev pub matches_in : Text → List Text → List TableMatch
matches_in db names = map (λ n. record { database = db; table = n }) names

-- Some matches, cut at the limit, and whether they were.
record IsCut (max : ℕ) (all : List TableMatch) (out : List TableMatch × Bool) : Type 0 where
  kept : out.0 ≡ take max all
  whole : out.1 ≡ false → out.0 ≡ all
  full : out.1 ≡ true → max ≤ length all

IsCut-open : (max : ℕ) (ms : List TableMatch) → length ms ≤ max → IsCut max (ms ++ []) (ms, false)
IsCut-open max ms low =
    rw (append-nil ms)
      (record { kept = sym (take_all max ms low); whole = λ e. refl; full = λ e. absurd (cc e) })

IsCut-shut :
    (max : ℕ) (ms rest : List TableMatch)
    → length ms ≤ max
    → max ≤ length ms
    → IsCut max (ms ++ rest) (ms, true)
IsCut-shut max ms rest low high = record {
  kept = sym (take-append max ms rest high ∙ take_all max ms low);
  whole = λ e. absurd (cc e);
  full = λ e. omega (arith, length-append ms rest);
}

read_names-IsCut :
    (max k : ℕ) (db : Text) (ms : List TableMatch) (names : List Text)
    → length ms ≤ max
    → max < length ms + k
    → IsCut max (ms ++ matches_in db names) (read_names max db ms (map name (take k names)))
unfolding read_names
read_names-IsCut max zero db ms names low enough = absurd (omega arith)
read_names-IsCut max (suc k) db ms [] low enough = IsCut-open max ms low
read_names-IsCut max (suc k) db ms (n ∷ names) low enough =
    let match : TableMatch = record { database = db; table = n } in
    elim (Bool-cases (leb max (length ms))) [
      | inl reached ↦
          rw (reached, read_names)
            (IsCut-shut max ms (match ∷ matches_in db names) low (ground arith))
      | inr room ↦
          let longer = length-append ms (match ∷ []) in
          rw (room, read_names, ← append_assoc ms (match ∷ []) (matches_in db names))
            (read_names-IsCut max k db (ms ++ match ∷ []) names (ground arith) (omega arith))
    ]

-- A server whose tables of a database, in order and each with a name that matches, are those of a list
-- and which answers at most as many as the LIMIT asks for.
abbrev pub ServesTables : Catalog → Text → (Text → List Text) → Type 0
ServesTables catalog pattern tables =
    (db : Text) (n : ℕ) → catalog db pattern n ≡ some (map name (take n (tables db)))

module _ (r : Router) (tables : Text → List Text) where
  -- The tables that one database contributes, behind the outcome of GetDB: none if the database or a
  -- connection cannot be had.
  abbrev pub contributed : Text → Pool → RouterError ⊎ Db → List TableMatch
  contributed db q (inl e) = []
  contributed db q (inr handle) = elim (cannot_connect (cluster_of r db) q none) [
    | some e ↦ []
    | none ↦ matches_in db (tables db)
  ]

  -- All the tables of the databases in a list, as far as these can be reached.
  pub all_matches : List Text → Pool → List TableMatch
  all_matches [] p = []
  all_matches (db ∷ dbs) p =
      let (q, found) = get_db r p db in contributed db q found ++ all_matches dbs q

IsCut-all :
    {max : ℕ} {all all' : List TableMatch} {out : List TableMatch × Bool}
    → all ≡ all'
    → IsCut max all out
    → IsCut max all' out
IsCut-all {max} {all} {all'} {out} e cut = subst (λ matches. IsCut max matches out) e cut

module _ (catalog : Catalog) (r : Router) (pattern : Text) (max : ℕ) (tables : Text → List Text)
    (serves : ServesTables catalog pattern tables) where
  visit-IsCut :
      (db : Text) (q : Pool) (found : RouterError ⊎ Db) (ms : List TableMatch)
      → length ms ≤ max
      → IsCut max
          (ms ++ contributed r tables db q found)
          (visit catalog r pattern max db q found ms)
  unfolding visit rows_of read_names
  visit-IsCut db q (inl e) ms low = IsCut-open max ms low
  visit-IsCut db q (inr handle) ms low = elim (Bool-cases (leb max (length ms))) [
    | inl reached ↦
        rw (reached, visit)
          (IsCut-shut max ms (contributed r tables db q (inr handle)) low (ground arith))
    | inr room ↦ elim (Option-cases (cannot_connect (cluster_of r db) q none)) [
      | inl free ↦
          rw (room, visit, rows_of, contributed, free, serves db (max - length ms + 1))
            (read_names-IsCut max (max - length ms + 1) db ms (tables db) low (omega arith))
      | inr (e, refused) ↦ rw (room, visit, rows_of, contributed, refused) (IsCut-open max ms low)
    ]
  ]

  -- A cut of some matches is a cut of these and more, if it was made.
  IsCut-more :
      (all rest : List TableMatch) (out : List TableMatch × Bool)
      → IsCut max all out
      → out.1 ≡ true
      → IsCut max (all ++ rest) (out.0, true)
  IsCut-more all rest out cut stopped = record {
    kept = cut.kept ∙ sym (take-append max all rest (cut.full stopped));
    whole = λ e. absurd (cc e);
    full = λ e. omega (arith, cut.full stopped, length-append all rest);
  }

  search_from-IsCut :
      (dbs : List Text) (p : Pool) (ms : List TableMatch)
      → length ms ≤ max
      → IsCut max
          (ms ++ all_matches r tables dbs p)
          (let (q, more, stopped) = search_from catalog r pattern max dbs p ms in (more, stopped))
  unfolding search_from all_matches
  search_from-IsCut [] p ms low = IsCut-open max ms low
  search_from-IsCut (db ∷ dbs) p ms low =
      let (q, found) = get_db r p db in
      let here = contributed r tables db q found in
      let rest = all_matches r tables dbs q in
      let out = visit catalog r pattern max db q found ms in
      let cut = visit-IsCut db q found ms low in
      elim (Bool-cases out.1) [
        | inl stopped ↦
            rw (search_from, stopped)
              (IsCut-all (append_assoc ms here rest) (IsCut-more (ms ++ here) rest out cut stopped))
        | inr on ↦
            let fits : length out.0 ≤ max =
              omega (arith, ap length cut.kept, length-take max (ms ++ here)) in
            rw (search_from, on)
              (IsCut-all (ap (λ all. all ++ rest) (cut.whole on) ∙ append_assoc ms here rest)
                (search_from-IsCut dbs q out.0 fits))
      ]

-- Against a server that answers each query with the tables that match, up to the LIMIT of the query, a
-- search finds the tables that match in every database that can be reached, in the order of the
-- databases, cut at the handler's limit of rows. A search that does not say that it was truncated has
-- found all of them.
pub search_finds :
    (catalog : Catalog) (tables : Text → List Text) (h : Handler) (pattern : Text) (p : Pool)
    → ServesTables catalog (like_pattern pattern) tables
    → ((execute_search_tables catalog h pattern p).1.matches
        ≡ take (get_max_rows h) (all_matches h.router tables (list_databases h.router) p))
      × ((execute_search_tables catalog h pattern p).1.truncated ≡ false
          → (execute_search_tables catalog h pattern p).1.matches
            ≡ all_matches h.router tables (list_databases h.router) p)
unfolding execute_search_tables
search_finds catalog tables h pattern p serves =
    let cut =
      search_from-IsCut catalog h.router (like_pattern pattern) (get_max_rows h) tables serves
        (list_databases h.router) p [] (omega arith) in
    (cut.kept, cut.whole)
