-- ===== src/Config/Defaults.antt =====
-- internal/config/config.go, `setDefaults`: a zero in an optional field becomes its default.
use safe_my_sqlmcp_server.Base.{ℕ, ◌*◌, ℤ, pos, is_zero, Map, [], ◌∷◌, if◌then◌else◌}
use safe_my_sqlmcp_server.Config.{Config, ClusterConfig, ServerConfig, AuditConfig, minute}

-- `if x == 0 { x = d }`
abbrev pub or_default : ℤ → ℕ → ℤ
or_default x d = if is_zero x then pos d else x

unfoldable pub server_defaults : ServerConfig → ServerConfig
server_defaults s = record s { port = or_default s.port 8080 }

-- The body of the loop over the clusters.
unfoldable pub cluster_defaults : ClusterConfig → ClusterConfig
cluster_defaults c = record c {
  port = or_default c.port 3306;
  max_open_conns = or_default c.max_open_conns 10;
  max_idle_conns = or_default c.max_idle_conns 5;
  conn_max_lifetime = or_default c.conn_max_lifetime (5 * minute);
}

unfoldable pub clusters_defaults : Map ClusterConfig → Map ClusterConfig
unfolding cluster_defaults
clusters_defaults [] = []
clusters_defaults ((name, c) ∷ m) = (name, cluster_defaults c) ∷ clusters_defaults m

unfoldable pub audit_defaults : AuditConfig → AuditConfig
audit_defaults a = record a {
  max_sql_length = or_default a.max_sql_length 2000;
  max_size_mb = or_default a.max_size_mb 100;
  max_backups = or_default a.max_backups 10;
  max_age_days = or_default a.max_age_days 30;
}

unfoldable pub set_defaults : Config → Config
unfolding server_defaults clusters_defaults audit_defaults
set_defaults cfg = record cfg {
  server = server_defaults cfg.server;
  clusters = clusters_defaults cfg.clusters;
  audit = audit_defaults cfg.audit;
}
