-- ===== src/Database/Pool/Loops.antt =====
-- internal/database/pool.go: what each loop of UpdateConfig makes of an entry.
use mathlib.Core.Option
use safe_my_sqlmcp_server.Base.{
  Text, text_eq, text_eq_iff, text_eq_refl, Map, lookup, delete, lookup-insert, lookup-delete, Bool,
  true, false, [], ◌∷◌, none, some, if◌then◌else◌, ◌≡◌, ◌≢◌, ◌⊎◌, ◌∙◌, refl, inl, inr, arith,
  Bool-cases, Option-cases,
}
use safe_my_sqlmcp_server.Config.{ClusterConfig, ClustersConfig}
use safe_my_sqlmcp_server.Database.Pool.{
  Db, ManagedDb, Pool, get_dsn, connect, managed, add_db, is_stale, mark, mark_stale, to_close,
  add_cluster, add_missing, close_all,
}

pub lookup-mark_stale :
    (old new : ClustersConfig) (n : Text) (ms : Map ManagedDb)
    → lookup n (mark_stale old new ms)
      ≡ Option.map (λ m. if is_stale old new n then mark m else m) (lookup n ms)
unfolding lookup mark_stale
lookup-mark_stale old new n [] = refl
lookup-mark_stale old new n ((k, m) ∷ ms) =
    ground (arith, text_eq_iff k n, lookup-mark_stale old new n ms)

pub lookup-to_close :
    (old new : ClustersConfig) (n : Text) (ms : Map ManagedDb)
    → lookup n (to_close old new ms)
      ≡ (if is_stale old new n then Option.map mark (lookup n ms) else none)
unfolding lookup to_close
lookup-to_close old new n [] = ground arith
lookup-to_close old new n ((k, m) ∷ ms) =
    ground (arith, text_eq_iff k n, lookup-to_close old new n ms)

pub lookup-close_all :
    (n : Text) (cs : Map ManagedDb) (p : Pool)
    → lookup n (close_all cs p).clusters
      ≡ elim (lookup n cs) [ none ↦ lookup n p.clusters | some m ↦ none ]
unfolding lookup close_all
lookup-close_all n [] p = refl
lookup-close_all n ((k, m) ∷ cs) p = ground (
  arith,
  text_eq_iff k n,
  lookup-delete k n p.clusters,
  lookup-close_all n cs (record p { clusters = delete k p.clusters; closed = m.db.id ∷ p.closed }),
)

-- A handle as `connect` makes it for a configuration, with no users.
pub record IsFreshFor (cfg : ClusterConfig) (m : ManagedDb) : Type 0 where
  pub dsn : m.db.dsn ≡ get_dsn cfg
  pub limit : m.db.max_open_conns ≡ cfg.max_open_conns
  pub unused : (m.ref_count ≡ 0) × (m.in_use ≡ 0)
  pub is_open : m.closing ≡ false

module _ (sql_open : Text → Bool) where
  add_cluster-cases :
      (k : Text) (cfg : ClusterConfig) (p : Pool)
      → (add_cluster sql_open k cfg p ≡ p)
        ⊎ ((lookup k p.clusters ≡ none)
            × (db : Db) × (add_cluster sql_open k cfg p ≡ add_db k db p))
  unfolding add_cluster
  add_cluster-cases k cfg p = elim (Option-cases (lookup k p.clusters)) [
    | inr (m, e) ↦ inl (ground arith)
    | inl e ↦ elim (Option-cases (connect sql_open p.next_db cfg)) [
      | inl f ↦ inl (ground arith)
      | inr (db, f) ↦ inr (e, db, ground arith)
    ]
  ]

  add_cluster_other :
      (n k : Text) (cfg : ClusterConfig) (p : Pool)
      → k ≢ n
      → lookup n (add_cluster sql_open k cfg p).clusters ≡ lookup n p.clusters
  add_cluster_other n k cfg p h = elim (add_cluster-cases k cfg p) [
    | inl e ↦ rw e refl
    | inr (_, db, e) ↦
        rw e (ground (arith, text_eq_iff k n, lookup-insert k n (managed db) p.clusters))
  ]

  add_cluster_kept :
      (n k : Text) (cfg : ClusterConfig) (p : Pool) (m : ManagedDb)
      → lookup n p.clusters ≡ some m
      → lookup n (add_cluster sql_open k cfg p).clusters ≡ some m
  add_cluster_kept n k cfg p m h = elim (add_cluster-cases k cfg p) [
    | inl e ↦ rw e h
    | inr (missing, db, e) ↦
        rw e (ground (arith, text_eq_iff k n, lookup-insert k n (managed db) p.clusters))
  ]

  add_cluster_new :
      (n : Text) (cfg : ClusterConfig) (p : Pool)
      → lookup n p.clusters ≡ none
      → sql_open (get_dsn cfg) ≡ true
      → (m : ManagedDb) × (lookup n (add_cluster sql_open n cfg p).clusters ≡ some m)
        × IsFreshFor cfg m
  unfolding add_cluster connect
  add_cluster_new n cfg p h opens =
      let db : Db = record {
        id = p.next_db;
        dsn = get_dsn cfg;
        max_open_conns = cfg.max_open_conns;
        max_idle_conns = cfg.max_idle_conns;
        conn_max_lifetime = cfg.conn_max_lifetime;
      } in
      (
        managed db,
        ground (arith, text_eq_refl n, lookup-insert n n (managed db) p.clusters),
        ground arith,
      )

  pub add_missing_kept :
      (cs : ClustersConfig) (p : Pool) (n : Text) (m : ManagedDb)
      → lookup n p.clusters ≡ some m
      → lookup n (add_missing sql_open cs p).clusters ≡ some m
  unfolding add_missing
  add_missing_kept [] p n m h = h
  add_missing_kept ((k, cfg) ∷ cs) p n m h =
      add_missing_kept cs (add_cluster sql_open k cfg p) n m (add_cluster_kept n k cfg p m h)

  pub add_missing_absent :
      (cs : ClustersConfig) (p : Pool) (n : Text)
      → lookup n p.clusters ≡ none
      → lookup n cs ≡ none
      → lookup n (add_missing sql_open cs p).clusters ≡ none
  unfolding add_missing lookup
  add_missing_absent [] p n h g = h
  add_missing_absent ((k, cfg) ∷ cs) p n h g =
      let differs : k ≢ n = (λ e. ground (arith, text_eq_iff k n)) in
      add_missing_absent cs (add_cluster sql_open k cfg p) n
        (add_cluster_other n k cfg p differs ∙ h) (ground (arith, text_eq_iff k n))

  pub add_missing_new :
      (cs : ClustersConfig) (p : Pool) (n : Text) (cfg : ClusterConfig)
      → lookup n p.clusters ≡ none
      → lookup n cs ≡ some cfg
      → sql_open (get_dsn cfg) ≡ true
      → (m : ManagedDb) × (lookup n (add_missing sql_open cs p).clusters ≡ some m)
        × IsFreshFor cfg m
  unfolding add_missing lookup
  add_missing_new [] p n cfg h g opens = absurd (cc)
  add_missing_new ((k, c) ∷ cs) p n cfg h g opens = elim (Bool-cases (text_eq k n)) [
    | inl hit ↦
        let here : k ≡ n = (text_eq_iff k n).0 hit in
        let same : c ≡ cfg = ground arith in
        let (m, found, fresh) = add_cluster_new n cfg p h opens in
        rw (here, same) (m, add_missing_kept cs (add_cluster sql_open n cfg p) n m found, fresh)
    | inr miss ↦
        let differs : k ≢ n = (λ e. ground (arith, text_eq_iff k n)) in
        add_missing_new cs (add_cluster sql_open k c p) n cfg
          (add_cluster_other n k c p differs ∙ h) (ground arith) opens
  ]
