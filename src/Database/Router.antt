-- ===== src/Database/Router.antt =====
-- internal/database/router.go. The database server is a parameter: what it answers to a request for a
-- connection, to `USE` and to a statement. A call returns the pool that it leaves behind, the
-- statements that it sent, and its result. A router is its map from databases to clusters; the pool
-- that it points to is passed along. `db.Conn` waits when all connections of a handle are in use, and
-- nobody closes one of them before the deadline of the context: it fails.
pub mod Leaks
pub mod Accepts
pub mod Sends
use safe_my_sqlmcp_server.Base.{
  ℕ, ◌+◌, ◌-◌, ℤ, pos, ltb_ℤ, leb_ℤ, Text, codes, Map, lookup, insert, Bool, true, false, ◌&&◌,
  List, [], ◌∷◌, ◌++◌, Option, none, some, if◌then◌else◌, ◌⊎◌, inl, inr,
}
use safe_my_sqlmcp_server.Config.{DatabasesConfig}
use safe_my_sqlmcp_server.Database.Pool.{Db, ManagedDb, Pool, PoolError, get}

pub record Router : Type 0 where
  pub databases : DatabasesConfig

pub data RouterError : Type 0 where
  unknown_database : Text → RouterError
  pool_error : PoolError → RouterError
  no_connection : Text → RouterError
  switch_failed : Text → Text → RouterError
  statement_failed : Text → RouterError

-- What the server answers in one call: an error for the connection, one for `USE`, and the outcome of
-- a statement, an error or a result.
pub record Answers {ℓ} (R : Type ℓ) : Type ℓ where
  pub conn_error : Option Text
  pub use_error : Option Text
  pub run : Text → Text ⊎ R

-- What a call leaves behind, with the statements that were sent to each handle.
pub record Outcome {ℓ} (R : Type ℓ) : Type ℓ where
  pub pool : Pool
  pub sent : List (ℕ × Text)
  pub result : RouterError ⊎ R

-- (*Router).GetDB
unfoldable pub get_db : Router → Pool → Text → Pool × (RouterError ⊎ Db)
get_db r p database = elim (lookup database r.databases) [
  | none ↦ (p, inl (unknown_database database))
  | some c ↦
      let (p', found) = get p c.cluster in
      elim found [ inl e ↦ (p', inl (pool_error e)) | inr db ↦ (p', inr db) ]
]

-- (*Router).GetCluster
unfoldable pub get_cluster : Router → Text → RouterError ⊎ Text
get_cluster r database = elim (lookup database r.databases) [
  | none ↦ inl (unknown_database database)
  | some c ↦ inr c.cluster
]

-- (*Router).UpdateConfig
unfoldable pub update_router : Router → DatabasesConfig → Router
update_router r databases = record r { databases = databases }

-- (*Router).ListDatabases
unfoldable pub keys {ℓ} : {V : Type ℓ} → Map V → List Text
keys [] = []
keys ((name, v) ∷ m) = name ∷ keys m

unfoldable pub list_databases : Router → List Text
unfolding keys
list_databases r = keys r.databases

-- All the connections of a handle are in use; a limit that is not positive is no limit.
abbrev pub is_exhausted : ManagedDb → Bool
is_exhausted m = ltb_ℤ (pos 0) m.db.max_open_conns && leb_ℤ m.db.max_open_conns (pos m.in_use)

-- A change of the entry of a cluster.
unfoldable pub adjust : (ManagedDb → ManagedDb) → Text → Pool → Pool
adjust f cluster p = elim (lookup cluster p.clusters) [
  | none ↦ p
  | some m ↦ record p { clusters = insert cluster (f m) p.clusters }
]

abbrev pub take_conn : ManagedDb → ManagedDb
take_conn m = record m { in_use = m.in_use + 1 }

abbrev pub give_conn : ManagedDb → ManagedDb
give_conn m = record m { in_use = m.in_use - 1 }

-- What `db.Conn` fails with, if it fails.
unfoldable pub cannot_connect : Text → Pool → Option Text → Option Text
cannot_connect cluster p conn_error = elim (lookup cluster p.clusters) [
  | none ↦ conn_error
  | some m ↦ if is_exhausted m then some (codes "context deadline exceeded") else conn_error
]

-- The cluster that a database is assigned to, whose entry holds the handle in use.
abbrev pub cluster_of : Router → Text → Text
cluster_of r database = elim (lookup database r.databases) [ none ↦ [] | some c ↦ c.cluster ]

-- The statement of `useDB`
abbrev pub use_statement : Text → Text
use_statement database = codes "USE `" ++ (database ++ codes "`")

module _ {ℓ} {R : Type ℓ} (answers : Answers R) where
  -- What Query and Exec do with a connection that they have taken. `close_on_success` is whether the
  -- connection is closed when the statement succeeds.
  unfoldable pub run_on : Bool → Text → Text → ℕ → Text → Pool → Outcome R
  run_on close_on_success cluster database id sql p = elim answers.use_error [
    | some e ↦ record {
      pool = adjust give_conn cluster p;
      sent = (id, use_statement database) ∷ [];
      result = inl (switch_failed database e);
    }
    | none ↦ elim (answers.run sql) [
      | inl e ↦ record {
        pool = adjust give_conn cluster p;
        sent = (id, use_statement database) ∷ (id, sql) ∷ [];
        result = inl (statement_failed e);
      }
      | inr rows ↦ record {
        pool = if close_on_success then adjust give_conn cluster p else p;
        sent = (id, use_statement database) ∷ (id, sql) ∷ [];
        result = inr rows;
      }
    ]
  ]

  -- What Query and Exec do with the outcome of GetDB.
  unfoldable pub run_behind : Bool → Text → Text → Text → Pool × (RouterError ⊎ Db) → Outcome R
  run_behind close_on_success cluster database sql (p, inl e) = record {
    pool = p;
    sent = [];
    result = inl e;
  }
  run_behind close_on_success cluster database sql (p, inr db) =
      elim (cannot_connect cluster p answers.conn_error) [
        | some e ↦ record { pool = p; sent = []; result = inl (no_connection e) }
        | none ↦ run_on close_on_success cluster database db.id sql (adjust take_conn cluster p)
      ]

  unfoldable pub run_statement : Bool → Router → Pool → Text → Text → Outcome R
  run_statement close_on_success r p database sql =
      run_behind close_on_success (cluster_of r database) database sql (get_db r p database)

  -- (*Router).Query: the rows are returned, and the connection is left to them.
  unfoldable pub query : Router → Pool → Text → Text → Outcome R
  query = run_statement false

  -- (*Router).Exec: the deferred call closes the connection on every path.
  unfoldable pub exec : Router → Pool → Text → Text → Outcome R
  exec = run_statement true
