-- ===== src/Database/Router/Leaks/Exhaust.antt =====
-- internal/database/router.go: queries use up the connections of a handle.
use safe_my_sqlmcp_server.Base.{
  ℕ, suc, ◌+◌, ◌≤◌, pos, Text, codes, lookup, true, false, List, [], ◌∷◌, length, none, some, ◌≡◌,
  ◌⊎◌, inl, inr, subst, arith, Bool-cases,
}
use safe_my_sqlmcp_server.Config.{DatabaseConfig}
use safe_my_sqlmcp_server.Database.Pool.{ManagedDb, Pool, increment}
use safe_my_sqlmcp_server.Database.Router.{
  Router, no_connection, Answers, is_exhausted, take_conn, run_on, run_behind, run_statement, query,
  cannot_connect,
}
use safe_my_sqlmcp_server.Database.Router.Leaks.{
  get_db_open, cluster_of-eq, lookup-counted, query_leaves,
}

module _ {ℓ} {R : Type ℓ} (answers : Answers R) where
  -- A handle whose connections are all in use serves nobody, whatever the server would answer.
  query_exhausted :
      (r : Router) (p : Pool) (database sql : Text) (c : DatabaseConfig) (m : ManagedDb)
      → lookup database r.databases ≡ some c
      → lookup c.cluster p.clusters ≡ some m
      → m.closing ≡ false
      → is_exhausted m ≡ true
      → (query answers r p database sql).result
        ≡ inl (no_connection (codes "context deadline exceeded"))
  unfolding query run_statement run_behind cannot_connect
  query_exhausted r p database sql c m h g o full =
      rw (get_db_open r p database c m h g o, cluster_of-eq r database c h)
        (ground (arith, lookup-counted p c.cluster m))

  -- A server that accepts every connection and every statement.
  abbrev pub IsWilling : Type ℓ
  IsWilling =
      (answers.conn_error ≡ none)
      × (answers.use_error ≡ none)
      × ((sql : Text) → (rows : R) × (answers.run sql ≡ inr rows))

  query_succeeds :
      (r : Router) (p : Pool) (database sql : Text) (c : DatabaseConfig) (m : ManagedDb)
      → IsWilling
      → lookup database r.databases ≡ some c
      → lookup c.cluster p.clusters ≡ some m
      → m.closing ≡ false
      → is_exhausted m ≡ false
      → (rows : R) × ((query answers r p database sql).result ≡ inr rows)
  unfolding query run_statement run_behind cannot_connect run_on
  query_succeeds r p database sql c m (no_error, no_use_error, all) h g o free =
      let (rows, accepted) = all sql in
      (
        rows,
        rw (get_db_open r p database c m h g o, cluster_of-eq r database c h)
            (ground (arith, lookup-counted p c.cluster m)),
      )

  -- The pool after a series of queries of one database.
  pub queries : Router → Pool → Text → List Text → Pool
  queries r p database [] = p
  queries r p database (sql ∷ rest) = queries r (query answers r p database sql).pool database rest

-- The entry of a cluster is open and limited, and all its connections or at least `count` of them are
-- in use.
record HasInUse (p : Pool) (c : Text) (limit count : ℕ) : Type 0 where
  entry : ManagedDb
  found : lookup c p.clusters ≡ some entry
  is_open : entry.closing ≡ false
  limited : entry.db.max_open_conns ≡ pos limit
  used : (limit ≤ entry.in_use) ⊎ (count ≤ entry.in_use)

at_limit :
    (m : ManagedDb) (limit : ℕ)
    → m.db.max_open_conns ≡ pos limit
    → is_exhausted m ≡ true
    → limit ≤ m.in_use
at_limit m limit h full = ground arith

full_entry :
    (m : ManagedDb) (limit : ℕ)
    → m.db.max_open_conns ≡ pos (suc limit)
    → suc limit ≤ m.in_use
    → is_exhausted m ≡ true
full_entry m limit h full = ground arith

HasInUse-full :
    {p : Pool} (c : Text) (limit count : ℕ) (u : HasInUse p c (suc limit) count)
    → suc limit ≤ count
    → is_exhausted u.entry ≡ true
HasInUse-full c limit count u h = full_entry u.entry limit u.limited (omega (arith, u.used))

module _ {ℓ} {R : Type ℓ} (answers : Answers R) (willing : IsWilling answers) where
  query-HasInUse :
      (r : Router) (p : Pool) (database sql : Text) (c : DatabaseConfig) (limit count : ℕ)
      → lookup database r.databases ≡ some c
      → HasInUse p c.cluster limit count
      → HasInUse (query answers r p database sql).pool c.cluster limit (suc count)
  query-HasInUse r p database sql c limit count h u =
      let m = u.entry in
      let left = query_leaves answers r p database sql c m h u.found u.is_open in
      elim (Bool-cases (is_exhausted m)) [
        | inl full ↦
            let failed = query_exhausted answers r p database sql c m h u.found u.is_open full in
            record {
              entry = increment m;
              found = ground arith;
              is_open = u.is_open;
              limited = u.limited;
              used = inl (at_limit m limit u.limited full);
            }
        | inr free ↦
            let (rows, succeeded) =
              query_succeeds answers r p database sql c m willing h u.found u.is_open free in
            record {
              entry = take_conn (increment m);
              found = ground arith;
              is_open = u.is_open;
              limited = u.limited;
              used = ground arith;
            }
      ]

  queries-HasInUse :
      (r : Router) (p : Pool) (database : Text) (sqls : List Text) (c : DatabaseConfig)
      (limit count : ℕ)
      → lookup database r.databases ≡ some c
      → HasInUse p c.cluster limit count
      → HasInUse (queries answers r p database sqls) c.cluster limit (count + length sqls)
  unfolding queries
  queries-HasInUse r p database [] c limit count h u =
      subst (HasInUse p c.cluster limit) (omega arith) u
  queries-HasInUse r p database (sql ∷ rest) c limit count h u =
      let q = (query answers r p database sql).pool in
      subst (HasInUse (queries answers r q database rest) c.cluster limit) (omega arith) (
        queries-HasInUse r q database rest c limit (suc count) h
          (query-HasInUse r p database sql c limit count h u))

  -- As many queries as a handle may have connections use it up: against a server that accepts every
  -- connection and statement, every later query of the database fails for want of a connection.
  pub queries_exhaust :
      (r : Router) (p : Pool) (database sql : Text) (sqls : List Text) (c : DatabaseConfig)
      (m : ManagedDb) (limit : ℕ)
      → lookup database r.databases ≡ some c
      → lookup c.cluster p.clusters ≡ some m
      → m.closing ≡ false
      → m.db.max_open_conns ≡ pos (suc limit)
      → suc limit ≤ length sqls
      → (query answers r (queries answers r p database sqls) database sql).result
        ≡ inl (no_connection (codes "context deadline exceeded"))
  queries_exhaust r p database sql sqls c m limit h g o top enough =
      let u =
        queries-HasInUse r p database sqls c (suc limit) 0 h
          (record { entry = m; found = g; is_open = o; limited = top; used = inr (omega arith) }) in
      let full : is_exhausted u.entry ≡ true =
        HasInUse-full c.cluster limit (0 + length sqls) u (omega arith) in
      query_exhausted answers r (queries answers r p database sqls) database sql c u.entry h u.found
        u.is_open full
