-- ===== src/Database/Pool/Serving.antt =====
-- internal/database/pool.go: what Get finds and gives out, when the calls are interleaved.
use safe_my_sqlmcp_server.Base.{ℕ, Text, Map, Bool, [], ◌∷◌, ◌++◌, inl, inr, refl}
use safe_my_sqlmcp_server.Config.{ClustersConfig}
use safe_my_sqlmcp_server.Database.Pool.{
  ManagedDb, new_pool, to_close, close_one, close_all, start_update, update_pool,
}
use safe_my_sqlmcp_server.Database.Pool.Entries.{In}
use safe_my_sqlmcp_server.Database.Pool.Interleaved.{Moment, starts, closes, Runs, and_then}

-- The pool as NewPool makes it, with nothing to close.
abbrev pub opened : (Text → Bool) → ℕ → ClustersConfig → Moment
opened sql_open id clusters = record { pool = (new_pool sql_open id clusters).0; waiting = [] }

close_all-Runs :
    (s t : Moment) (stale : Map ManagedDb)
    → ((k : Text) (m : ManagedDb) → In k m stale → In k m t.waiting)
    → Runs s t
    → Runs s (record t { pool = close_all stale t.pool })
unfolding close_all
close_all-Runs s t [] waits run = run
close_all-Runs s t ((name, m) ∷ rest) waits run =
    let u : Moment = record t { pool = close_one name m t.pool } in
    close_all-Runs s u rest (λ k n i. waits k n (inr i))
      (and_then t u run (closes name m t (waits name m (inl (refl, refl)))))

In-first : (k : Text) (m : ManagedDb) (xs ys : Map ManagedDb) → In k m xs → In k m (xs ++ ys)
In-first k m [] ys h = absurd h
In-first k m (x ∷ xs) ys (inl here) = inl here
In-first k m (x ∷ xs) ys (inr later) = inr (In-first k m xs ys later)

-- A call of UpdateConfig that nothing interrupts is such a run too.
pub update_pool-Runs :
    (s t : Moment) (sql_open : Text → Bool) (new : ClustersConfig)
    → Runs s t
    → Runs s (record {
      pool = update_pool sql_open new t.pool;
      waiting = to_close t.pool.configs new t.pool.clusters ++ t.waiting;
    })
unfolding update_pool
update_pool-Runs s t sql_open new run =
    let stale = to_close t.pool.configs new t.pool.clusters in
    let u : Moment = record {
      pool = start_update sql_open new t.pool;
      waiting = stale ++ t.waiting;
    } in
    close_all-Runs s u stale (λ k m i. In-first k m stale t.waiting i)
      (and_then t u run (starts sql_open new t))
