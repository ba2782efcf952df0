-- ===== src/Database/Pool.antt =====
-- internal/database/pool.go. A `*sql.DB` is a number, new at each `sql.Open`, with its limit of
-- connections; the map of the pool holds pointers that nobody else writes to, so an entry is a value.
-- `in_use` counts the connections that `db.Conn` has handed out and that were not closed.
-- Connections are opened and closed by the library: whether `sql.Open` accepts a data source is a
-- parameter, and an error of `db.Close`, which is only logged or returned, is left out.
pub mod Loops
pub mod Reload
pub mod Entries
pub mod Handles
pub mod Interleaved
pub mod Safe
pub mod Serving
pub mod Waiting
use safe_my_sqlmcp_server.Base.{
  ℕ, zero, suc, ◌+◌, ◌-◌, ◌%◌, ◌^◌, ℤ, pos, Text, codes, text_eq, Map, lookup, insert, delete, Bool,
  true, false, not, ◌&&◌, ◌||◌, List, [], ◌∷◌, ◌++◌, Option, none, some, if◌then◌else◌, ◌==◌,
  format_ℤ, pos_part, neg_part, ◌⊎◌, inl, inr,
}
use safe_my_sqlmcp_server.Config.{ClusterConfig, ClustersConfig}

-- A `*sql.DB` as `connect` leaves it.
pub record Db : Type 0 where
  pub id : ℕ
  pub dsn : Text
  pub max_open_conns : ℤ
  pub max_idle_conns : ℤ
  pub conn_max_lifetime : ℤ

-- managedDB. The count is an `int32`, kept modulo 2^32.
pub record ManagedDb : Type 0 where
  pub db : Db
  pub ref_count : ℕ
  pub closing : Bool
  pub in_use : ℕ

-- Pool, with the number of the next handle and the handles that were closed.
pub record Pool : Type 0 where
  pub clusters : Map ManagedDb
  pub configs : ClustersConfig
  pub next_db : ℕ
  pub closed : List ℕ

pub data PoolError : Type 0 where
  unknown_cluster being_closed connect_failed : Text → PoolError

-- (*ClusterConfig).GetDSN
unfoldable pub get_dsn : ClusterConfig → Text
unfolding format_ℤ
get_dsn c =
    c.username
    ++ (codes ":"
        ++ (c.password
            ++ (codes "@tcp("
                ++ (c.host
                    ++ (codes ":"
                        ++ (format_ℤ c.port
                            ++ codes ")/?parseTime=true&loc=Local&charset=utf8mb4"))))))

abbrev pub int32_mod : ℕ
int32_mod = 2 ^ 32

-- `atomic.AddInt32(&mdb.refCount, 1)` and `-1`
abbrev pub increment : ManagedDb → ManagedDb
increment m = record m { ref_count = (m.ref_count + 1) % int32_mod }

abbrev pub decrement : ManagedDb → ManagedDb
decrement m = record m { ref_count = (m.ref_count + (int32_mod - 1)) % int32_mod }

-- (*Pool).Get, where nothing runs between its look-up, which has the lock, and its count, which has
-- none. `counts` of Interleaved is the count of a call that was interrupted.
unfoldable pub get : Pool → Text → Pool × (PoolError ⊎ Db)
get p cluster = elim (lookup cluster p.clusters) [
  | none ↦ (p, inl (unknown_cluster cluster))
  | some m ↦
      if m.closing
      then (p, inl (being_closed cluster))
      else (record p { clusters = insert cluster (increment m) p.clusters }, inr m.db)
]

-- `atomic.AddInt32(&mdb.refCount, 1)` of (*Pool).Get, on the entry that the look-up found
unfoldable pub count_in : ℕ → Map ManagedDb → Map ManagedDb
count_in id [] = []
count_in id ((name, m) ∷ ms) = (name, (if m.db.id == id then increment m else m)) ∷ count_in id ms

-- (*Pool).release
unfoldable pub release_in : ℕ → Map ManagedDb → Map ManagedDb
release_in id [] = []
release_in id ((name, m) ∷ ms) =
    (name, (if m.db.id == id then decrement m else m)) ∷ release_in id ms

unfoldable pub release : Pool → Db → Pool
unfolding release_in
release p db = record p { clusters = release_in db.id p.clusters }

module _ (sql_open : Text → Bool) where
  -- (*Pool).connect
  unfoldable pub connect : ℕ → ClusterConfig → Option Db
  unfolding get_dsn
  connect id cfg =
      if sql_open (get_dsn cfg)
      then some (record {
        id = id;
        dsn = get_dsn cfg;
        max_open_conns = cfg.max_open_conns;
        max_idle_conns = cfg.max_idle_conns;
        conn_max_lifetime = cfg.conn_max_lifetime;
      })
      else none

abbrev pub managed : Db → ManagedDb
managed db = record { db = db; ref_count = 0; closing = false; in_use = 0 }

abbrev pub add_db : Text → Db → Pool → Pool
add_db name db p = record p {
  clusters = insert name (managed db) p.clusters;
  next_db = p.next_db + 1;
}

abbrev pub ids : Map ManagedDb → List ℕ
ids [] = []
ids ((name, m) ∷ ms) = m.db.id ∷ ids ms

-- (*Pool).Close
unfoldable pub close : Pool → Pool
close p = record p { clusters = []; closed = ids p.clusters ++ p.closed }

module _ (sql_open : Text → Bool) where
  -- The loop of NewPool; an error closes what was opened, and no pool is returned.
  unfoldable pub open_all : ClustersConfig → Pool → Pool × Option PoolError
  unfolding connect close
  open_all [] p = (p, none)
  open_all ((name, cfg) ∷ rest) p = elim (connect sql_open p.next_db cfg) [
    | none ↦ (close p, some (connect_failed name))
    | some db ↦ open_all rest (add_db name db p)
  ]

  -- NewPool, at a number from which on no handle is taken
  unfoldable pub new_pool : ℕ → ClustersConfig → Pool × Option PoolError
  unfolding open_all
  new_pool id clusters =
      open_all clusters (record { clusters = []; configs = clusters; next_db = id; closed = [] })

-- The zero value that a Go map gives for a missing key.
abbrev pub zero_config : ClusterConfig
zero_config = record {
  host = [];
  port = pos 0;
  username = [];
  password = [];
  max_open_conns = pos 0;
  max_idle_conns = pos 0;
  conn_max_lifetime = pos 0;
}

abbrev pub config_of : ClustersConfig → Text → ClusterConfig
config_of configs name = elim (lookup name configs) [ none ↦ zero_config | some c ↦ c ]

abbrev pub int_eq : ℤ → ℤ → Bool
int_eq a b = (pos_part a == pos_part b) && (neg_part a == neg_part b)

-- The comparison of two configurations of a cluster in UpdateConfig.
unfoldable pub same_connection : ClusterConfig → ClusterConfig → Bool
same_connection old new = not (
    not (text_eq old.host new.host)
    || not (int_eq old.port new.port)
    || not (text_eq old.username new.username)
    || not (text_eq old.password new.password))

-- Whether UpdateConfig closes the handle of a cluster: it is gone, or is reached in another way.
unfoldable pub is_stale : ClustersConfig → ClustersConfig → Text → Bool
unfolding same_connection
is_stale old new name = elim (lookup name new) [
  | none ↦ true
  | some c ↦ not (same_connection (config_of old name) c)
]

abbrev pub mark : ManagedDb → ManagedDb
mark m = record m { closing = true }

-- The first loop of UpdateConfig: the marked entries, and `toClose`.
unfoldable pub mark_stale : ClustersConfig → ClustersConfig → Map ManagedDb → Map ManagedDb
mark_stale old new [] = []
mark_stale old new ((name, m) ∷ ms) =
    (name, (if is_stale old new name then mark m else m)) ∷ mark_stale old new ms

unfoldable pub to_close : ClustersConfig → ClustersConfig → Map ManagedDb → Map ManagedDb
to_close old new [] = []
to_close old new ((name, m) ∷ ms) =
    let rest = to_close old new ms in if is_stale old new name then (name, mark m) ∷ rest else rest

module _ (sql_open : Text → Bool) where
  -- The body of the second loop of UpdateConfig: a cluster that the map does not have is connected.
  -- A failure is only logged.
  unfoldable pub add_cluster : Text → ClusterConfig → Pool → Pool
  add_cluster name cfg p = elim (lookup name p.clusters) [
    | some m ↦ p
    | none ↦ elim (connect sql_open p.next_db cfg) [ none ↦ p | some db ↦ add_db name db p ]
  ]

  unfoldable pub add_missing : ClustersConfig → Pool → Pool
  add_missing [] p = p
  add_missing ((name, cfg) ∷ rest) p = add_missing rest (add_cluster name cfg p)

-- The body of the last loop of UpdateConfig: a handle is closed and its entry deleted, whether or not
-- its users let go of it in time.
abbrev pub close_one : Text → ManagedDb → Pool → Pool
close_one name m p = record p { clusters = delete name p.clusters; closed = m.db.id ∷ p.closed }

unfoldable pub close_all : Map ManagedDb → Pool → Pool
close_all [] p = p
close_all ((name, m) ∷ rest) p = close_all rest (close_one name m p)

-- The first phase of UpdateConfig, under the lock
abbrev pub start_update : (Text → Bool) → ClustersConfig → Pool → Pool
start_update sql_open new p =
    let marked = record p { clusters = mark_stale p.configs new p.clusters } in
    record (add_missing sql_open new marked) { configs = new }

-- (*Pool).UpdateConfig
unfoldable pub update_pool : (Text → Bool) → ClustersConfig → Pool → Pool
update_pool sql_open new p =
    close_all (to_close p.configs new p.clusters) (start_update sql_open new p)
