-- ===== src/Examples/Server.antt =====
-- A server that is set up, reloaded and asked for a database that the reload brought.
use safe_my_sqlmcp_server.Base.{codes, Text, lookup, true, false, [], ◌∷◌, none, inl, ◌≡◌, refl}
use safe_my_sqlmcp_server.Config.{Config}
use safe_my_sqlmcp_server.Database.Router.{unknown_database, query, exec}
use safe_my_sqlmcp_server.Server.{Server, update_server}
use safe_my_sqlmcp_server.Server.Running.{start, and_then, reload, running_keeps_databases}
use safe_my_sqlmcp_server.Examples.Samples.{
  cluster, config, handler, marshal, mkdir, logger, row_answers,
}

abbrev pub secret : Text
secret = codes "0123456789abcdef0123456789abcdef"

abbrev pub started : Server
started = record {
  validator = record { secret = secret };
  handler = handler;
  state = record {
    pool = record {
      clusters =
          (
            codes "main",
            record {
              db = record {
                id = 7;
                dsn = codes "app:pw@tcp(db1:3306)/?parseTime=true&loc=Local&charset=utf8mb4";
                max_open_conns = cluster.max_open_conns;
                max_idle_conns = cluster.max_idle_conns;
                conn_max_lifetime = cluster.conn_max_lifetime;
              };
              ref_count = 0;
              closing = false;
              in_use = 0;
            },
          )
          ∷ [];
      configs = config.clusters;
      next_db = 8;
      closed = [];
    };
    logger = logger;
    sent = [];
    asked = [];
  };
}

abbrev new_config : Config
new_config = record config {
  databases = (codes "shop", record { cluster = codes "main" }) ∷ config.databases;
}

abbrev reloaded : Server
reloaded = update_server (λ dsn. true) marshal mkdir new_config none started

running_keeps_databases_example :
    ((query row_answers reloaded.handler.router reloaded.state.pool
        (codes "shop")
        (codes "SELECT 1")).result
      ≡ inl (unknown_database (codes "shop")))
    × ((query row_answers reloaded.handler.router reloaded.state.pool
          (codes "shop")
          (codes "SELECT 1")).sent
        ≡ [])
    × ((exec row_answers reloaded.handler.router reloaded.state.pool
          (codes "shop")
          (codes "SELECT 1")).result
        ≡ inl (unknown_database (codes "shop")))
    × ((exec row_answers reloaded.handler.router reloaded.state.pool
          (codes "shop")
          (codes "SELECT 1")).sent
        ≡ [])
unfolding lookup
running_keeps_databases_example =
    running_keeps_databases {P = λ o. Unit} row_answers started reloaded (codes "shop")
      (codes "SELECT 1") refl
      (and_then started reloaded start (reload (λ dsn. true) marshal mkdir new_config none started))
