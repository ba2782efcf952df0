-- ===== src/Database/Router/Sends.antt =====
-- internal/database/router.go: which statements the router sends.
use safe_my_sqlmcp_server.Base.{
  ℕ, Text, Bool, true, false, List, [], ◌∷◌, ◌≡◌, ◌⊎◌, inl, inr, refl, arith, Option-cases,
}
use safe_my_sqlmcp_server.Database.Pool.{Db, Pool}
use safe_my_sqlmcp_server.Database.Router.{
  Router, RouterError, Answers, get_db, adjust, take_conn, use_statement, cluster_of,
  cannot_connect, run_on, run_behind, run_statement, query, exec,
}

-- Nothing, the `USE` of the database alone, or that and the statement, on one handle.
abbrev pub Sends : Text → Text → List (ℕ × Text) → Type 0
Sends database sql xs =
    (xs ≡ [])
    ⊎ ((id : ℕ) × ((xs ≡ (id, use_statement database) ∷ [])
          ⊎ (xs ≡ (id, use_statement database) ∷ (id, sql) ∷ [])))

module _ {ℓ} {R : Type ℓ} (answers : Answers R) where
  run_on-Sends :
      (close_on_success : Bool) (c database : Text) (id : ℕ) (sql : Text) (p : Pool)
      → Sends database sql (run_on answers close_on_success c database id sql p).sent
  unfolding run_on
  run_on-Sends close_on_success c database id sql p = inr (id, ground arith)

  run_behind-Sends :
      (close_on_success : Bool) (c database sql : Text) (q : Pool) (found : RouterError ⊎ Db)
      → Sends database sql (run_behind answers close_on_success c database sql (q, found)).sent
  unfolding run_behind
  run_behind-Sends close_on_success c database sql q (inl e) = inl refl
  run_behind-Sends close_on_success c database sql q (inr db) =
      elim (Option-cases (cannot_connect c q answers.conn_error)) [
        | inl free ↦
            rw (free, run_behind)
              (run_on-Sends close_on_success c database db.id sql (adjust take_conn c q))
        | inr (e, refused) ↦ rw (refused, run_behind) (inl refl)
      ]

  -- Whatever the server answers, a call of the router sends nothing but the `USE` of its database and
  -- the statement that it was given, in this order and each at most once.
  pub router-Sends :
      (r : Router) (p : Pool) (database sql : Text)
      → Sends database sql (query answers r p database sql).sent
        × Sends database sql (exec answers r p database sql).sent
  unfolding query exec run_statement
  router-Sends r p database sql =
      let (q, found) = get_db r p database in
      (
        run_behind-Sends false (cluster_of r database) database sql q found,
        run_behind-Sends true (cluster_of r database) database sql q found,
      )

  run_on-answer :
      (close_on_success : Bool) (c database : Text) (id : ℕ) (sql : Text) (p : Pool) (rows : R)
      → (run_on answers close_on_success c database id sql p).result ≡ inr rows
      → answers.run sql ≡ inr rows
  unfolding run_on
  run_on-answer close_on_success c database id sql p rows e = ground arith

  run_behind-answer :
      (close_on_success : Bool) (c database sql : Text) (q : Pool) (found : RouterError ⊎ Db)
      (rows : R)
      → (run_behind answers close_on_success c database sql (q, found)).result ≡ inr rows
      → answers.run sql ≡ inr rows
  unfolding run_behind
  run_behind-answer close_on_success c database sql q (inl f) rows e = cc
  run_behind-answer close_on_success c database sql q (inr db) rows e =
      elim (Option-cases (cannot_connect c q answers.conn_error)) [
        | inl free ↦
            run_on-answer close_on_success c database db.id sql (adjust take_conn c q) rows
              (rw (free, run_behind) at e)
        | inr (f, refused) ↦ absurd (cc (rw (refused, run_behind) at e))
      ]

  -- A result is what the server answered to the statement.
  pub query-answer :
      (r : Router) (p : Pool) (database sql : Text) (rows : R)
      → (query answers r p database sql).result ≡ inr rows
      → answers.run sql ≡ inr rows
  unfolding query run_statement
  query-answer r p database sql rows e =
      run_behind-answer false (cluster_of r database) database sql (get_db r p database).0
        (get_db r p database).1 rows e
