-- ===== src/Database/Pool/Reload.antt =====
-- internal/database/pool.go: what UpdateConfig makes of each cluster of the pool.
use safe_my_sqlmcp_server.Base.{
  ℤ, pos, negsuc, refl, ◌↔◌, text_eq_iff, inr, Option-cases, Bool-cases, Text, lookup, Bool, true,
  false, none, some, ◌≡◌, inl, arith,
}
use safe_my_sqlmcp_server.Config.{ClusterConfig, ClustersConfig}
use safe_my_sqlmcp_server.Database.Pool.{
  ManagedDb, Pool, unknown_cluster, get, get_dsn, config_of, int_eq, same_connection, is_stale,
  mark_stale, to_close, add_missing, update_pool,
}
use safe_my_sqlmcp_server.Database.Pool.Loops.{
  IsFreshFor, lookup-mark_stale, lookup-to_close, lookup-close_all, add_missing_kept,
  add_missing_absent, add_missing_new,
}

-- The new configuration has the cluster, with the host, the port, the user and the password that the
-- old one had for it.
abbrev pub IsUnchanged : (old new : ClustersConfig) → Text → Type 0
IsUnchanged old new n =
    (c : ClusterConfig) × (lookup n new ≡ some c)
    × ((config_of old n).host ≡ c.host)
    × ((config_of old n).port ≡ c.port)
    × ((config_of old n).username ≡ c.username)
    × ((config_of old n).password ≡ c.password)

int_eq_iff : (a b : ℤ) → (int_eq a b ≡ true) ↔ (a ≡ b)
int_eq_iff (pos m) (pos n) = ground arith
int_eq_iff (pos m) (negsuc n) = ground arith
int_eq_iff (negsuc m) (pos n) = ground arith
int_eq_iff (negsuc m) (negsuc n) = ground arith

same_connection_iff :
    (a b : ClusterConfig)
    → (same_connection a b ≡ true) ↔ (
        (a.host ≡ b.host)
        × (a.port ≡ b.port)
        × (a.username ≡ b.username)
        × (a.password ≡ b.password))
unfolding same_connection
same_connection_iff a b = ground (
  arith,
  text_eq_iff a.host b.host,
  int_eq_iff a.port b.port,
  text_eq_iff a.username b.username,
  text_eq_iff a.password b.password,
)

is_stale_iff :
    (old new : ClustersConfig) (n : Text)
    → (IsUnchanged old new n → is_stale old new n ≡ false)
      × (¬ IsUnchanged old new n → is_stale old new n ≡ true)
unfolding is_stale
is_stale_iff old new n = elim (Option-cases (lookup n new)) [
  | inl gone ↦
      rw (is_stale, gone) ((λ (c, found, _, _, _, _). absurd (cc found)), (λ differs. refl))
  | inr (c, there) ↦ elim (Bool-cases (same_connection (config_of old n) c)) [
    | inl same ↦
        let (host, port, user, password) = (same_connection_iff (config_of old n) c).0 same in
        rw (is_stale, there, same)
          ((λ unchanged. refl), (λ differs. absurd (differs (c, refl, host, port, user, password))))
    | inr other ↦
        rw (is_stale, there, other)
          (
            (λ (d, found, host, port, user, password).
                let is : c ≡ d = cc found in
                let same =
                  (same_connection_iff (config_of old n) d).1 (host, port, user, password) in
                absurd (ground (arith, is, same))),
            (λ differs. refl),
          )
  ]
]

module _ (sql_open : Text → Bool) where
  -- The entry of a cluster after a reload, by what the loops do to it.
  lookup-update_pool :
      (new : ClustersConfig) (p : Pool) (n : Text)
      → lookup n (update_pool sql_open new p).clusters
        ≡ elim (lookup n (to_close p.configs new p.clusters)) [
          | none ↦
              lookup n
                (add_missing sql_open new
                  (record p { clusters = mark_stale p.configs new p.clusters })).clusters
          | some m ↦ none
        ]
  unfolding update_pool
  lookup-update_pool new p n = lookup-close_all n (to_close p.configs new p.clusters) _

  reload_keeps :
      (new : ClustersConfig) (p : Pool) (n : Text) (m : ManagedDb)
      → lookup n p.clusters ≡ some m
      → is_stale p.configs new n ≡ false
      → lookup n (update_pool sql_open new p).clusters ≡ some m
  reload_keeps new p n m h fresh =
      let marked = record p { clusters = mark_stale p.configs new p.clusters } in
      let unmarked : lookup n marked.clusters ≡ some m =
        ground (arith, lookup-mark_stale p.configs new n p.clusters) in
      let kept = add_missing_kept sql_open new marked n m unmarked in
      ground (arith, lookup-update_pool new p n, lookup-to_close p.configs new n p.clusters)

  reload_drops :
      (new : ClustersConfig) (p : Pool) (n : Text) (m : ManagedDb)
      → lookup n p.clusters ≡ some m
      → is_stale p.configs new n ≡ true
      → lookup n (update_pool sql_open new p).clusters ≡ none
  reload_drops new p n m h stale =
      ground (arith, lookup-update_pool new p n, lookup-to_close p.configs new n p.clusters)

  reload_adds :
      (new : ClustersConfig) (p : Pool) (n : Text) (cfg : ClusterConfig)
      → lookup n p.clusters ≡ none
      → lookup n new ≡ some cfg
      → sql_open (get_dsn cfg) ≡ true
      → (m : ManagedDb) × (lookup n (update_pool sql_open new p).clusters ≡ some m)
        × IsFreshFor cfg m
  reload_adds new p n cfg h g opens =
      let marked = record p { clusters = mark_stale p.configs new p.clusters } in
      let absent : lookup n marked.clusters ≡ none =
        ground (arith, lookup-mark_stale p.configs new n p.clusters) in
      let (m, found, fresh) = add_missing_new sql_open new marked n cfg absent g opens in
      (
        m,
        ground (arith, lookup-update_pool new p n, lookup-to_close p.configs new n p.clusters),
        fresh,
      )

  reload_ignores :
      (new : ClustersConfig) (p : Pool) (n : Text)
      → lookup n p.clusters ≡ none
      → lookup n new ≡ none
      → lookup n (update_pool sql_open new p).clusters ≡ none
  reload_ignores new p n h g =
      let marked = record p { clusters = mark_stale p.configs new p.clusters } in
      let absent : lookup n marked.clusters ≡ none =
        ground (arith, lookup-mark_stale p.configs new n p.clusters) in
      let still = add_missing_absent sql_open new marked n absent g in
      ground (arith, lookup-update_pool new p n, lookup-to_close p.configs new n p.clusters)

  -- What a reload makes of the cluster `n`. An entry whose host, port, user and password are unchanged
  -- stays as it is, with its users and connections; any other entry is gone. A cluster that had no
  -- entry gets a fresh one if it is configured and its data source opens, and none if it is not
  -- configured.
  pub update_pool-entry :
      (new : ClustersConfig) (p : Pool) (n : Text)
      → ((m : ManagedDb)
          → lookup n p.clusters ≡ some m
          → ((IsUnchanged p.configs new n → lookup n (update_pool sql_open new p).clusters ≡ some m)
              × (¬ IsUnchanged p.configs new n
                  → lookup n (update_pool sql_open new p).clusters ≡ none)))
        × (lookup n p.clusters ≡ none
            → ((cfg : ClusterConfig)
                → lookup n new ≡ some cfg
                → sql_open (get_dsn cfg) ≡ true
                → (m : ManagedDb) × (lookup n (update_pool sql_open new p).clusters ≡ some m)
                  × IsFreshFor cfg m)
              × (lookup n new ≡ none → lookup n (update_pool sql_open new p).clusters ≡ none))
  update_pool-entry new p n = (
    (λ m h. (
      (λ same. reload_keeps new p n m h ((is_stale_iff p.configs new n).0 same)),
      (λ differs. reload_drops new p n m h ((is_stale_iff p.configs new n).1 differs)),
    )),
    (λ h. ((λ cfg. reload_adds new p n cfg h), reload_ignores new p n h)),
  )

  -- A cluster that is still configured, but with another host, port, user or password, cannot be used
  -- after the reload: the pool says that it does not know it.
  pub reload_loses_changed :
      (new : ClustersConfig) (p : Pool) (n : Text) (m : ManagedDb) (cfg : ClusterConfig)
      → lookup n p.clusters ≡ some m
      → lookup n new ≡ some cfg
      → same_connection (config_of p.configs n) cfg ≡ false
      → (get (update_pool sql_open new p) n).1 ≡ inl (unknown_cluster n)
  unfolding get is_stale
  reload_loses_changed new p n m cfg h g changed =
      let stale : is_stale p.configs new n ≡ true = ground arith in
      let gone = reload_drops new p n m h stale in ground arith
