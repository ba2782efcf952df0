-- ===== src/Examples/Constants.antt =====
-- The constants that are meant for all packages have the values that the packages use.
use safe_my_sqlmcp_server.Base.{pos, ◌≡◌, refl, arith}
use safe_my_sqlmcp_server.Constants
use safe_my_sqlmcp_server.Auth.{min_jwt_secret_length}
use safe_my_sqlmcp_server.Config.{ClusterConfig}
use safe_my_sqlmcp_server.Config.Defaults.{cluster_defaults}
use safe_my_sqlmcp_server.Validation.{max_identifier_length, max_sql_length}
use safe_my_sqlmcp_server.Mcp.Handler.{default_query_timeout, default_max_rows}
use safe_my_sqlmcp_server.Server.{start_server}
use safe_my_sqlmcp_server.Server.RateLimit.{default_rate_limiter_config}
use safe_my_sqlmcp_server.Examples.Server.{started}

limits_test :
    (max_identifier_length ≡ Constants.max_identifier_length)
    × (max_sql_length ≡ Constants.max_sql_length)
    × (default_query_timeout ≡ Constants.default_query_timeout)
    × (default_max_rows ≡ Constants.default_max_rows)
    × (min_jwt_secret_length ≡ Constants.min_jwt_secret_length)
    × (default_rate_limiter_config.requests_per_second ≡ Constants.default_rate_limit)
    × (default_rate_limiter_config.burst ≡ Constants.default_rate_burst)
limits_test = (refl, refl, refl, refl, refl, refl, refl)

timeouts_test :
    ((start_server started).read_timeout ≡ Constants.default_read_timeout)
    × ((start_server started).write_timeout ≡ Constants.default_write_timeout)
    × ((start_server started).idle_timeout ≡ Constants.default_idle_timeout)
unfolding start_server
timeouts_test = (refl, refl, refl)

defaults_test :
    (c : ClusterConfig)
    → c.max_open_conns ≡ pos 0
    → (cluster_defaults c).max_open_conns ≡ pos Constants.default_max_open_conns
unfolding cluster_defaults
defaults_test c unset = ground arith
