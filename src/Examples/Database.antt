-- ===== src/Examples/Database.antt =====
-- The pool and the router on a pool with one cluster.
use safe_my_sqlmcp_server.Base.{
  ℕ, ◌+◌, ◌≤◌, ltb, if◌then◌else◌, text_eq, Map, List, Bool, false, Text, codes, ◌++◌, true, lookup,
  insert, delete, [], ◌∷◌, some, ◌≡◌, inl, inr, refl, arith,
}
use safe_my_sqlmcp_server.Config.{ClustersConfig, second}
use safe_my_sqlmcp_server.Database.Pool.{
  Db, ManagedDb, get, is_stale, same_connection, update_pool, start_update, to_close,
  unknown_cluster, close_all, add_missing, add_cluster, mark_stale,
}
use safe_my_sqlmcp_server.Database.Pool.Waiting.{
  release_timeout, wait_for_release, drain, AreAnswers, closing_time, drain_ends,
}
use safe_my_sqlmcp_server.Database.Pool.Reload.{update_pool-entry}
use safe_my_sqlmcp_server.Database.Router.{
  no_connection, query, exec, run_statement, run_behind, run_on, get_db, adjust, cannot_connect,
}
use safe_my_sqlmcp_server.Database.Pool.Interleaved.{Moment}
use safe_my_sqlmcp_server.Database.Pool.Serving.{opened}
use safe_my_sqlmcp_server.Database.Router.Leaks.Exhaust.{queries, queries_exhaust}
use safe_my_sqlmcp_server.Examples.Samples.{
  pool, cluster, main_db, router, row_answers, exec_answers, row_set, select_all, delete_all,
}

-- The cluster at another host.
abbrev moved : ClustersConfig
moved = (codes "main", record cluster { host = codes "db2" }) ∷ []

router_tests : Unit {0}
unfolding lookup insert get query exec run_statement run_behind run_on get_db adjust cannot_connect
router_tests = tt

query_test : (query row_answers router pool (codes "app") select_all).result ≡ inr row_set
unfolding router_tests
query_test = refl

sent_test :
    (exec exec_answers router pool (codes "app") delete_all).sent
    ≡ (7, codes "USE `app`") ∷ (7, delete_all) ∷ []
unfolding router_tests
sent_test = refl

update_pool-entry_example :
    lookup (codes "main") (update_pool (λ dsn. true) pool.configs pool).clusters ≡ some main_db
unfolding lookup
update_pool-entry_example =
    ((update_pool-entry (λ dsn. true) pool.configs pool (codes "main")).0 main_db refl).0
      (cluster, refl, refl, refl, refl, refl)

-- A cluster whose host has changed is lost in a reload.
moved_test :
    (get (update_pool (λ dsn. true) moved pool) (codes "main")).1
    ≡ inl (unknown_cluster (codes "main"))
unfolding get update_pool close_all mark_stale to_close add_missing add_cluster is_stale
    same_connection lookup insert delete
moved_test = refl

queries_exhaust_example :
    (query row_answers router
      (queries row_answers router pool (codes "app") (select_all ∷ select_all ∷ []))
      (codes "app")
      select_all).result
    ≡ inl (no_connection (codes "context deadline exceeded"))
unfolding lookup
queries_exhaust_example =
    queries_exhaust row_answers (refl, refl, λ sql. (row_set, refl)) router pool (codes "app")
      select_all (select_all ∷ select_all ∷ []) (record { cluster = codes "main" }) main_db 1 refl
      refl refl refl (omega arith)

-- A reload with the same clusters, and then a call of Get.
abbrev first : Moment
first = opened (λ dsn. true) 7 pool.configs

abbrev later : Moment
later = record {
  pool = start_update (λ dsn. true) pool.configs first.pool;
  waiting = to_close first.pool.configs pool.configs first.pool.clusters ++ first.waiting;
}

abbrev given : Db
given = record main_db.db {
  dsn = codes "app:pw@tcp(db1:3306)/?parseTime=true&loc=Local&charset=utf8mb4";
}

-- A handle whose two users let go after one second and never.
abbrev users : Text → ℕ → ℕ
users name now = if text_eq name (codes "main") then (if ltb now second then 1 else 0) else 1

abbrev waiting : Map ManagedDb
waiting = (codes "main", main_db) ∷ (codes "other", main_db) ∷ []

-- How long it takes to close a handle.
abbrev closing : Text → ℕ
closing name = 7

drain_test :
    drain 201 true users closing release_timeout 0 waiting
    ≡ some ((codes "main", true) ∷ (codes "other", false) ∷ [], release_timeout + 7)
unfolding drain wait_for_release
drain_test = refl

drain_ends_example :
    (outs : List (Text × Bool)) × (end : ℕ) × (drain 201 true users closing
        (0 + release_timeout)
        0
        waiting
      ≡ some (outs, end))
    × (0 ≤ end)
    × (end ≤ 0 + release_timeout + closing_time closing waiting)
    × AreAnswers users closing (0 + release_timeout) 0 waiting outs end
drain_ends_example = drain_ends true users closing 0 waiting
