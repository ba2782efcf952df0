-- ===== src/Database/Router/Accepts.antt =====
-- internal/database/router.go: a statement that the server accepts.
use safe_my_sqlmcp_server.Base.{
  ℕ, Text, lookup, Bool, false, List, [], ◌∷◌, none, some, ◌≡◌, inr, arith,
}
use safe_my_sqlmcp_server.Config.{DatabaseConfig}
use safe_my_sqlmcp_server.Database.Pool.{ManagedDb, Pool}
use safe_my_sqlmcp_server.Database.Router.{
  Router, Answers, is_exhausted, use_statement, run_on, run_behind, run_statement, cannot_connect,
}
use safe_my_sqlmcp_server.Database.Router.Leaks.{get_db_open, cluster_of-eq, lookup-counted}

-- The database is known, its cluster has an open handle, and this has a connection left.
pub record IsReachable (r : Router) (p : Pool) (database : Text) : Type 0 where
  pub config : DatabaseConfig
  pub entry : ManagedDb
  pub known : lookup database r.databases ≡ some config
  pub found : lookup config.cluster p.clusters ≡ some entry
  pub is_open : entry.closing ≡ false
  pub has_room : is_exhausted entry ≡ false

-- The server gives a connection, switches to the database and answers the statement with `result`.
abbrev pub Accepts {ℓ} : {R : Type ℓ} → Answers R → Text → R → Type ℓ
Accepts answers sql result =
    (answers.conn_error ≡ none) × (answers.use_error ≡ none) × (answers.run sql ≡ inr result)

-- What is sent for a statement
abbrev pub sent_for : ManagedDb → Text → Text → List (ℕ × Text)
sent_for m database sql = (m.db.id, use_statement database) ∷ (m.db.id, sql) ∷ []

module _ {ℓ} {R : Type ℓ} (answers : Answers R) (close_on_success : Bool) where
  -- A statement that the server accepts is sent to the handle of its database, and its result is
  -- returned.
  pub run_statement-accepted :
      (r : Router) (p : Pool) (database sql : Text) (result : R) (to : IsReachable r p database)
      → Accepts answers sql result
      → ((run_statement answers close_on_success r p database sql).sent
          ≡ sent_for to.entry database sql)
        × ((run_statement answers close_on_success r p database sql).result ≡ inr result)
  unfolding run_statement run_behind cannot_connect run_on
  run_statement-accepted r p database sql result to (no_error, no_use_error, accepted) =
      rw
        (
          get_db_open r p database to.config to.entry to.known to.found to.is_open,
          cluster_of-eq r database to.config to.known,
        )
        (ground (arith, lookup-counted p to.config.cluster to.entry, to.has_room))
