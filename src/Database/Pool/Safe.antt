-- ===== src/Database/Pool/Safe.antt =====
-- internal/database/pool.go: the steps of interleaved calls, one after the other.
use safe_my_sqlmcp_server.Base.{
  ℕ, ◌<◌, Text, Map, Bool, [], ◌∷◌, ◌++◌, All, All-append, some, lookup, insert, ◌≡◌, ◌∙◌, inl, inr,
  refl, ap, subst, Bool-cases, Option-cases,
}
use safe_my_sqlmcp_server.Config.{ClustersConfig}
use safe_my_sqlmcp_server.Database.Pool.{
  ManagedDb, Pool, get, count_in, release, connect, add_db, close, ids, open_all, mark_stale,
  to_close, start_update,
}
use safe_my_sqlmcp_server.Database.Pool.Entries.{
  In, lookup-In, In-insert, In-mark_stale, In-count_in, In-release_in,
}
use safe_my_sqlmcp_server.Database.Pool.Handles.{IsSound-add_db}
use safe_my_sqlmcp_server.Database.Pool.Interleaved.{
  Moment, Step, gets, counts, releases, starts, closes, ends, Runs, start, and_then, IsSafe,
  connect-id, IsSafe-keep, add_missing-IsSafe, Owns-to_close, close_one-IsSafe,
}

-- An entry that keeps its handle.
insert-IsSafe :
    (cluster : Text) (m v : ManagedDb) (t : Moment)
    → lookup cluster t.pool.clusters ≡ some m
    → m.db ≡ v.db
    → IsSafe t
    → IsSafe (record t { pool = record t.pool { clusters = insert cluster v t.pool.clusters } })
insert-IsSafe cluster m v t known same s =
    IsSafe-keep t (insert cluster v t.pool.clusters) s (λ k n h.
      elim (In-insert k cluster n v t.pool.clusters h) [
        | inl (here, is) ↦ (
          m,
          subst (λ name. In name m t.pool.clusters) here
              (lookup-In cluster m t.pool.clusters known),
          same ∙ ap (λ o. o.db) is,
        )
        | inr old ↦ (n, old, refl)
      ])

-- A call of Get leaves the pool alone, or counts a user in the entry of the cluster.
get-IsSafe :
    (cluster : Text) (t : Moment) → IsSafe t → IsSafe (record t { pool = (get t.pool cluster).0 })
unfolding get
get-IsSafe cluster t s = elim (Option-cases (lookup cluster t.pool.clusters)) [
  | inl missing ↦ rw (get, missing) s
  | inr (m, known) ↦ elim (Bool-cases m.closing) [
    | inl closing ↦ rw (get, known, closing) s
    | inr serving ↦ rw (get, known, serving) (insert-IsSafe cluster m _ t known refl s)
  ]
]

ids-numbered :
    (n : ℕ) (cs : Map ManagedDb)
    → ((k : Text) (m : ManagedDb) → In k m cs → m.db.id < n)
    → All (λ c. c < n) (ids cs)
ids-numbered n [] h = tt
ids-numbered n ((k, m) ∷ cs) h =
    (h k m (inl (refl, refl)), ids-numbered n cs (λ j o i. h j o (inr i)))

close-IsSafe : (t : Moment) → IsSafe t → IsSafe (record t { pool = close t.pool })
unfolding close
close-IsSafe t s = record {
  sound = record {
    fresh = λ k m h. absurd h;
    unclosed = λ k m h. absurd h;
    numbered =
        All-append (λ c. c < t.pool.next_db) (ids t.pool.clusters) t.pool.closed
          (ids-numbered t.pool.next_db t.pool.clusters s.sound.fresh) s.sound.numbered;
    single = λ j k m n h i e. absurd h;
  };
  owned = λ k m h. ((s.owned k m h).0, (λ j n i e. absurd i));
}

start_update-IsSafe :
    (sql_open : Text → Bool) (new : ClustersConfig) (t : Moment)
    → IsSafe t
    → IsSafe (record t {
      pool = start_update sql_open new t.pool;
      waiting = to_close t.pool.configs new t.pool.clusters ++ t.waiting;
    })
start_update-IsSafe sql_open new t s =
    let p = t.pool in
    let more : Moment = record t { waiting = to_close p.configs new p.clusters ++ t.waiting } in
    let owned = Owns-to_close new p t.waiting s.sound s.owned in
    let marked =
      IsSafe-keep more (mark_stale p.configs new p.clusters)
        (record { sound = s.sound; owned = owned })
        (λ k m h. In-mark_stale p.configs new k m p.clusters h) in
    let added =
      add_missing-IsSafe sql_open new
        (record more { pool = record p { clusters = mark_stale p.configs new p.clusters } })
        marked in
    record {
      sound = record {
        fresh = added.sound.fresh;
        unclosed = added.sound.unclosed;
        numbered = added.sound.numbered;
        single = added.sound.single;
      };
      owned = added.owned;
    }

Step-IsSafe : (t u : Moment) → Step t u → IsSafe t → IsSafe u
unfolding release
Step-IsSafe _ _ (gets cluster t) s = get-IsSafe cluster t s
Step-IsSafe _ _ (counts db t) s =
    IsSafe-keep t (count_in db.id t.pool.clusters) s
      (λ k m h. In-count_in db.id k m t.pool.clusters h)
Step-IsSafe _ _ (releases db t) s =
    IsSafe-keep t (release t.pool db).clusters s
      (λ k m h. In-release_in db.id k m t.pool.clusters h)
Step-IsSafe _ _ (starts sql_open new t) s = start_update-IsSafe sql_open new t s
Step-IsSafe _ _ (closes name m t waits) s = close_one-IsSafe name m t waits s
Step-IsSafe _ _ (ends t) s = close-IsSafe t s

pub Runs-IsSafe : {s t : Moment} → IsSafe s → Runs s t → IsSafe t
Runs-IsSafe h start = h
Runs-IsSafe h (and_then t u run step) = Step-IsSafe t u step (Runs-IsSafe h run)

pub open_all-IsSafe :
    (sql_open : Text → Bool) (clusters : ClustersConfig) (p : Pool)
    → IsSafe (record { pool = p; waiting = [] })
    → IsSafe (record { pool = (open_all sql_open clusters p).0; waiting = [] })
unfolding open_all
open_all-IsSafe sql_open [] p s = s
open_all-IsSafe sql_open ((name, cfg) ∷ rest) p s =
    elim (Option-cases (connect sql_open p.next_db cfg)) [
      | inl failed ↦ rw (open_all, failed) (close-IsSafe (record { pool = p; waiting = [] }) s)
      | inr (db, opened) ↦
          let next = connect-id sql_open p.next_db cfg db opened in
          rw (open_all, opened)
            (open_all-IsSafe sql_open rest (add_db name db p)
              (record { sound = IsSound-add_db name db p next s.sound; owned = λ k m h. absurd h }))
    ]
