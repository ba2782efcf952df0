-- ===== src/Database/Router/Leaks.antt =====
-- internal/database/router.go: what a call of the router leaves behind in the pool, the users that
-- stay counted and the connections that a query does not close.
pub mod Exhaust
use safe_my_sqlmcp_server.Base.{
  ℕ, suc, ◌+◌, ◌≤◌, pos, Text, codes, text_eq_refl, lookup, insert, lookup-insert, Bool, true,
  false, List, [], ◌∷◌, length, none, some, if◌then◌else◌, ◌≡◌, ◌⊎◌, inl, inr, subst, arith,
  Bool-cases, Option-cases,
}
use safe_my_sqlmcp_server.Config.{DatabaseConfig}
use safe_my_sqlmcp_server.Database.Pool.{Db, ManagedDb, Pool, get, increment}
use safe_my_sqlmcp_server.Database.Router.{
  Router, no_connection, Answers, get_db, is_exhausted, adjust, take_conn, give_conn, run_on,
  run_behind, run_statement, query, exec, cluster_of, cannot_connect,
}

lookup-adjust :
    (f : ManagedDb → ManagedDb) (k : Text) (p : Pool) (m : ManagedDb)
    → lookup k p.clusters ≡ some m
    → lookup k (adjust f k p).clusters ≡ some (f m)
unfolding adjust
lookup-adjust f k p m h = ground (arith, lookup-insert k k (f m) p.clusters, text_eq_refl k)

-- The pool once `GetDB` has counted a user of a cluster.
abbrev pub counted : Pool → Text → ManagedDb → Pool
counted p c m = record p { clusters = insert c (increment m) p.clusters }

pub lookup-counted :
    (p : Pool) (c : Text) (m : ManagedDb) → lookup c (counted p c m).clusters ≡ some (increment m)
lookup-counted p c m = ground (arith, lookup-insert c c (increment m) p.clusters, text_eq_refl c)

pub get_db_open :
    (r : Router) (p : Pool) (database : Text) (c : DatabaseConfig) (m : ManagedDb)
    → lookup database r.databases ≡ some c
    → lookup c.cluster p.clusters ≡ some m
    → m.closing ≡ false
    → get_db r p database ≡ (counted p c.cluster m, inr m.db)
unfolding get_db get
get_db_open r p database c m h g o = ground arith

pub cluster_of-eq :
    (r : Router) (database : Text) (c : DatabaseConfig)
    → lookup database r.databases ≡ some c
    → cluster_of r database ≡ c.cluster
cluster_of-eq r database c h = rw (h, cluster_of)

give_conn-take_conn : (m : ManagedDb) → give_conn (take_conn m) ≡ m
give_conn-take_conn m = ground arith

module _ {ℓ} {R : Type ℓ} (answers : Answers R) where
  -- The connection that a statement runs on is closed, unless it succeeds in a query.
  run_on-entry :
      (close_on_success : Bool) (c database : Text) (id : ℕ) (sql : Text) (p : Pool) (m : ManagedDb)
      → lookup c p.clusters ≡ some (take_conn m)
      → lookup c (run_on answers close_on_success c database id sql p).pool.clusters
        ≡ some (elim (run_on answers close_on_success c database id sql p).result [
          | inl e ↦ m
          | inr rows ↦ if close_on_success then m else take_conn m
        ])
  unfolding run_on
  run_on-entry close_on_success c database id sql p m h =
      ground (arith, lookup-adjust give_conn c p (take_conn m) h, give_conn-take_conn m)

  -- What a statement leaves behind in the entry of its cluster, on every path behind GetDB.
  run_behind-entry :
      (close_on_success : Bool) (c database sql : Text) (q : Pool) (db : Db) (m : ManagedDb)
      → lookup c q.clusters ≡ some m
      → lookup c (run_behind answers close_on_success c database sql (q, inr db)).pool.clusters
        ≡ some (elim (run_behind answers close_on_success c database sql (q, inr db)).result [
          | inl e ↦ m
          | inr rows ↦ if close_on_success then m else take_conn m
        ])
  unfolding run_behind
  run_behind-entry close_on_success c database sql q db m h =
      elim (Option-cases (cannot_connect c q answers.conn_error)) [
        | inl free ↦
            rw (free, run_behind)
              (run_on-entry close_on_success c database db.id sql (adjust take_conn c q) m
                (lookup-adjust take_conn c q m h))
        | inr (e, refused) ↦ rw (refused, run_behind) h
      ]

  run_statement-entry :
      (close_on_success : Bool) (r : Router) (p : Pool) (database sql : Text) (c : DatabaseConfig)
      (m : ManagedDb)
      → lookup database r.databases ≡ some c
      → lookup c.cluster p.clusters ≡ some m
      → m.closing ≡ false
      → lookup c.cluster (run_statement answers close_on_success r p database sql).pool.clusters
        ≡ some (elim (run_statement answers close_on_success r p database sql).result [
          | inl e ↦ increment m
          | inr rows ↦ if close_on_success then increment m else take_conn (increment m)
        ])
  unfolding run_statement
  run_statement-entry close_on_success r p database sql c m h g o =
      rw (get_db_open r p database c m h g o, cluster_of-eq r database c h)
        (run_behind-entry close_on_success c.cluster database sql (counted p c.cluster m) m.db
          (increment m) (lookup-counted p c.cluster m))

  -- A query on a cluster that is open counts one more user of the handle, who is never taken off
  -- again. If it succeeds, its connection stays in use; if it fails, the connection is closed.
  pub query_leaves :
      (r : Router) (p : Pool) (database sql : Text) (c : DatabaseConfig) (m : ManagedDb)
      → lookup database r.databases ≡ some c
      → lookup c.cluster p.clusters ≡ some m
      → m.closing ≡ false
      → lookup c.cluster (query answers r p database sql).pool.clusters
        ≡ some (elim (query answers r p database sql).result [
          | inl e ↦ increment m
          | inr rows ↦ record (increment m) { in_use = m.in_use + 1 }
        ])
  unfolding query
  query_leaves r p database sql c m h g o = run_statement-entry false r p database sql c m h g o

  -- A statement that is executed counts one more user too, but whatever its outcome it leaves the
  -- connections in use as they were.
  pub exec_leaves :
      (r : Router) (p : Pool) (database sql : Text) (c : DatabaseConfig) (m : ManagedDb)
      → lookup database r.databases ≡ some c
      → lookup c.cluster p.clusters ≡ some m
      → m.closing ≡ false
      → lookup c.cluster (exec answers r p database sql).pool.clusters ≡ some (increment m)
  unfolding exec
  exec_leaves r p database sql c m h g o =
      ground (arith, run_statement-entry true r p database sql c m h g o)
