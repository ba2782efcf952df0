-- ===== src/Config/Validation.antt =====
-- internal/config/validation.go: the checks of a configuration. An error is a value of `ConfigError`,
-- and `none` is Go's nil error.
use safe_my_sqlmcp_server.Base.{
  ◌*◌, ℤ, pos, ltb_ℤ, leb_ℤ, Text, is_empty, Map, List, [], ◌∷◌, ◌||◌, ◌&&◌, Option, none, some,
  if◌then◌else◌,
}
use safe_my_sqlmcp_server.Config.{Config, ClusterConfig, SecurityRules, is_blocked, second, minute}

pub data ConfigError : Type 0 where
  invalid_server_port : ℤ → ConfigError
  in_cluster : Text → ConfigError → ConfigError
  log_file_required max_size_not_positive : ConfigError
  host_required username_required : ConfigError
  invalid_port : ℤ → ConfigError
  open_conns_not_positive idle_conns_negative lifetime_too_short : ConfigError
  dml_allowed_and_blocked ddl_allowed_and_blocked : Text → ConfigError
  query_timeout_too_long max_rows_too_large auto_limit_too_large : ℤ → ConfigError

-- ClusterConfig.Validate
unfoldable pub validate_cluster : ClusterConfig → Option ConfigError
validate_cluster c =
    if is_empty c.host
    then some host_required
    else if leb_ℤ c.port (pos 0) || ltb_ℤ (pos 65535) c.port
    then some (invalid_port c.port)
    else if is_empty c.username
    then some username_required
    else if leb_ℤ c.max_open_conns (pos 0)
    then some open_conns_not_positive
    else if ltb_ℤ c.max_idle_conns (pos 0)
    then some idle_conns_negative
    else if ltb_ℤ (pos 0) c.conn_max_lifetime && ltb_ℤ c.conn_max_lifetime (pos second)
    then some lifetime_too_short
    else none

-- `for name, cluster := range c.Clusters`, up to the first error
unfoldable pub validate_clusters : Map ClusterConfig → Option ConfigError
unfolding validate_cluster
validate_clusters [] = none
validate_clusters ((name, c) ∷ m) = elim (validate_cluster c) [
  | some e ↦ some (in_cluster name e)
  | none ↦ validate_clusters m
]

-- (*Config).Validate
unfoldable pub validate_config : Config → Option ConfigError
unfolding validate_clusters
validate_config c =
    if ltb_ℤ c.server.port (pos 0) || ltb_ℤ (pos 65535) c.server.port
    then some (invalid_server_port c.server.port)
    else elim (validate_clusters c.clusters) [
      | some e ↦ some e
      | none ↦
          if c.audit.enabled
          then (if is_empty c.audit.log_file
              then some log_file_required
              else if leb_ℤ c.audit.max_size_mb (pos 0)
              then some max_size_not_positive
              else none)
          else none
    ]

-- The first entry of a list that the rules block.
unfoldable pub first_blocked : SecurityRules → List Text → Option Text
first_blocked s [] = none
first_blocked s (op ∷ ops) = if is_blocked s op then some op else first_blocked s ops

-- (*SecurityRules).Validate, its last three checks
unfoldable pub validate_bounds : SecurityRules → Option ConfigError
validate_bounds s =
    if ltb_ℤ (pos (5 * minute)) s.query_timeout
    then some (query_timeout_too_long s.query_timeout)
    else if ltb_ℤ (pos 1_000_000) s.max_rows
    then some (max_rows_too_large s.max_rows)
    else if ltb_ℤ (pos 10_000) s.auto_limit
    then some (auto_limit_too_large s.auto_limit)
    else none

unfoldable pub validate_rules : SecurityRules → Option ConfigError
unfolding first_blocked validate_bounds
validate_rules s = elim (first_blocked s s.allowed_dml) [
  | some dml ↦ some (dml_allowed_and_blocked dml)
  | none ↦ elim (first_blocked s s.allowed_ddl) [
    | some ddl ↦ some (ddl_allowed_and_blocked ddl)
    | none ↦ validate_bounds s
  ]
]
