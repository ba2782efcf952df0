-- ===== src/Database/Pool/Interleaved.antt =====
-- internal/database/pool.go, with its calls interleaved. UpdateConfig holds the lock for its first
-- phase and once more for each handle that it closes, so other calls, of UpdateConfig too, run in
-- between. Get has the lock for its look-up alone: its count may be a step of its own.
use safe_my_sqlmcp_server.Base.{
  ℕ, ◌<◌, Text, Map, Bool, [], ◌∷◌, ◌++◌, some, lookup, ◌≡◌, ◌⊎◌, ◌∙◌, inl, inr, sym, ap, subst,
  arith, Option-cases,
}
use safe_my_sqlmcp_server.Config.{ClusterConfig, ClustersConfig}
use safe_my_sqlmcp_server.Database.Pool.{
  Db, ManagedDb, Pool, get, count_in, release, connect, close, to_close, add_cluster, add_missing,
  close_one, start_update,
}
use safe_my_sqlmcp_server.Database.Pool.Entries.{In, In-delete, In-to_close}
use safe_my_sqlmcp_server.Database.Pool.Handles.{
  IsSound, Owns, Keeps, IsSound-keep, Owns-keep, IsSound-add_db, Owns-add_db,
}

-- The pool, and the entries that calls of UpdateConfig are to close.
pub record Moment : Type 0 where
  pub pool : Pool
  pub waiting : Map ManagedDb

pub data Step : Moment → Moment → Type 0 where
  gets : (cluster : Text) (t : Moment) → Step t (record t { pool = (get t.pool cluster).0 })
  -- the count of a call of Get whose look-up was some steps ago
  counts :
      (db : Db) (t : Moment)
      → Step t (record t { pool = record t.pool { clusters = count_in db.id t.pool.clusters } })
  releases : (db : Db) (t : Moment) → Step t (record t { pool = release t.pool db })
  starts :
      (sql_open : Text → Bool) (new : ClustersConfig) (t : Moment)
      → Step t (record {
        pool = start_update sql_open new t.pool;
        waiting = to_close t.pool.configs new t.pool.clusters ++ t.waiting;
      })
  closes :
      (name : Text) (m : ManagedDb) (t : Moment)
      → In name m t.waiting
      → Step t (record t { pool = close_one name m t.pool })
  ends : (t : Moment) → Step t (record t { pool = close t.pool })

pub data Runs (s : Moment) : Moment → Type 0 where
  start : Runs s s
  and_then : (t u : Moment) → Runs s t → Step t u → Runs s u

pub record IsSafe (t : Moment) : Type 0 where
  pub sound : IsSound t.pool
  pub owned : Owns t.pool t.waiting

pub connect-id :
    (sql_open : Text → Bool) (id : ℕ) (cfg : ClusterConfig) (db : Db)
    → connect sql_open id cfg ≡ some db
    → db.id ≡ id
unfolding connect
connect-id sql_open id cfg db e = ground arith

pub IsSafe-keep :
    (t : Moment) (cs : Map ManagedDb)
    → IsSafe t
    → Keeps t.pool cs
    → IsSafe (record t { pool = record t.pool { clusters = cs } })
IsSafe-keep t cs s keep = record {
  sound = IsSound-keep t.pool cs s.sound keep;
  owned = Owns-keep t.pool cs t.waiting s.owned keep;
}

add_cluster-IsSafe :
    (sql_open : Text → Bool) (name : Text) (cfg : ClusterConfig) (t : Moment)
    → IsSafe t
    → IsSafe (record t { pool = add_cluster sql_open name cfg t.pool })
unfolding add_cluster
add_cluster-IsSafe sql_open name cfg t s = elim (Option-cases (lookup name t.pool.clusters)) [
  | inr (m, known) ↦ rw (add_cluster, known) s
  | inl missing ↦ elim (Option-cases (connect sql_open t.pool.next_db cfg)) [
    | inl failed ↦ rw (add_cluster, missing, failed) s
    | inr (db, opened) ↦
        let next = connect-id sql_open t.pool.next_db cfg db opened in
        rw (add_cluster, missing, opened)
          (record {
            sound = IsSound-add_db name db t.pool next s.sound;
            owned = Owns-add_db name db t.pool t.waiting next s.owned;
          })
  ]
]

pub add_missing-IsSafe :
    (sql_open : Text → Bool) (new : ClustersConfig) (t : Moment)
    → IsSafe t
    → IsSafe (record t { pool = add_missing sql_open new t.pool })
unfolding add_missing
add_missing-IsSafe sql_open [] t s = s
add_missing-IsSafe sql_open ((name, cfg) ∷ rest) t s =
    add_missing-IsSafe sql_open rest (record t { pool = add_cluster sql_open name cfg t.pool })
      (add_cluster-IsSafe sql_open name cfg t s)

In-append :
    (k : Text) (m : ManagedDb) (xs ys : Map ManagedDb) → In k m (xs ++ ys) → In k m xs ⊎ In k m ys
In-append k m [] ys h = inr h
In-append k m ((j, w) ∷ xs) ys (inl here) = inl (inl here)
In-append k m ((j, w) ∷ xs) ys (inr later) = elim (In-append k m xs ys later) [
  | inl first ↦ inl (inr first)
  | inr second ↦ inr second
]

-- The entries that a call of UpdateConfig is to close own their handles.
pub Owns-to_close :
    (new : ClustersConfig) (p : Pool) (waiting : Map ManagedDb)
    → IsSound p
    → Owns p waiting
    → Owns p (to_close p.configs new p.clusters ++ waiting)
Owns-to_close new p waiting s owns k m h =
    elim (In-append k m (to_close p.configs new p.clusters) waiting h) [
      | inr older ↦ owns k m older
      | inl stale ↦
          let (o, old, same) = In-to_close p.configs new k m p.clusters stale in
          (
            subst (λ db. db.id < p.next_db) same (s.fresh k o old),
            (λ j n i e. s.single j k n o i old (e ∙ sym (ap (λ db. db.id) same))),
          )
    ]

pub close_one-IsSafe :
    (name : Text) (m : ManagedDb) (t : Moment)
    → In name m t.waiting
    → IsSafe t
    → IsSafe (record t { pool = close_one name m t.pool })
close_one-IsSafe name m t waits s =
    let p = t.pool in
    let (low, only) = s.owned name m waits in
    record {
      sound = record {
        fresh = λ k n h. s.sound.fresh k n (In-delete k name n p.clusters h).0;
        unclosed = λ k n h c.
            let (old, differs) = In-delete k name n p.clusters h in
            elim c [
              | inl now ↦ differs (only k n old (sym now))
              | inr before ↦ s.sound.unclosed k n old before
            ];
        numbered = (low, s.sound.numbered);
        single = λ j k n o h i e.
            s.sound.single j k n o (In-delete j name n p.clusters h).0
              (In-delete k name o p.clusters i).0 e;
      };
      owned = λ k n h.
          let (below, sole) = s.owned k n h in
          (below, (λ j o i e. sole j o (In-delete j name o p.clusters i).0 e));
    }
