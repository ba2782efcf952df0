-- ===== src/Constants.antt =====
-- internal/constants/constants.go: the limits and defaults that are meant for all packages. No package
-- uses them: each has a literal of its own. Durations are in nanoseconds, sizes and rates as declared.
use safe_my_sqlmcp_server.Base.{ℕ, ◌*◌}
use safe_my_sqlmcp_server.Config.{second, minute}

-- MaxIdentifierLength
abbrev pub max_identifier_length : ℕ
max_identifier_length = 64

-- MaxTableNameLength
abbrev pub max_table_name_length : ℕ
max_table_name_length = 64

-- DefaultMaxRows
abbrev pub default_max_rows : ℕ
default_max_rows = 10_000

-- MaxRowsLimit
abbrev pub max_rows_limit : ℕ
max_rows_limit = 1_000_000

-- DefaultQueryTimeout
abbrev pub default_query_timeout : ℕ
default_query_timeout = 30 * second

-- MaxQueryTimeout
abbrev pub max_query_timeout : ℕ
max_query_timeout = 5 * minute

-- MaxSQLLength
abbrev pub max_sql_length : ℕ
max_sql_length = 100_000

-- DefaultRateLimit
abbrev pub default_rate_limit : ℕ
default_rate_limit = 10

-- DefaultRateBurst
abbrev pub default_rate_burst : ℕ
default_rate_burst = 20

-- MaxRateLimit
abbrev pub max_rate_limit : ℕ
max_rate_limit = 1_000

-- DefaultMaxOpenConns
abbrev pub default_max_open_conns : ℕ
default_max_open_conns = 10

-- DefaultMaxIdleConns
abbrev pub default_max_idle_conns : ℕ
default_max_idle_conns = 5

-- DefaultConnMaxLifetime
abbrev pub default_conn_max_lifetime : ℕ
default_conn_max_lifetime = 5 * minute

-- MinJWTSecretLength
abbrev pub min_jwt_secret_length : ℕ
min_jwt_secret_length = 32

-- DefaultAutoLimit
abbrev pub default_auto_limit : ℕ
default_auto_limit = 1_000

-- MaxAutoLimit
abbrev pub max_auto_limit : ℕ
max_auto_limit = 10_000

-- DefaultMaxSQLLength
abbrev pub default_max_sql_length : ℕ
default_max_sql_length = 2_000

-- DefaultMaxLogSizeMB
abbrev pub default_max_log_size_mb : ℕ
default_max_log_size_mb = 100

-- DefaultMaxBackups
abbrev pub default_max_backups : ℕ
default_max_backups = 10

-- DefaultMaxAgeDays
abbrev pub default_max_age_days : ℕ
default_max_age_days = 30

-- DefaultReadTimeout
abbrev pub default_read_timeout : ℕ
default_read_timeout = 30 * second

-- DefaultWriteTimeout
abbrev pub default_write_timeout : ℕ
default_write_timeout = 60 * second

-- DefaultIdleTimeout
abbrev pub default_idle_timeout : ℕ
default_idle_timeout = 120 * second
