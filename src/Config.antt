-- ===== src/Config.antt =====
-- internal/config/config.go: the configuration's structs and the queries of the security rules.
-- A pointer to a struct that nobody writes to is the struct; a nil pointer is `none`.
-- Durations are counted in nanoseconds, as `time.Duration` does.
pub mod Rules
pub mod Coherent
pub mod Defaults
pub mod Validation
pub mod Reloadable
pub mod Loading
pub mod Watcher
use safe_my_sqlmcp_server.Base.{ℕ, ◌*◌, ℤ, Text, Map, Bool, List, any, equal_fold, upper}

pub record ServerConfig : Type 0 where
  pub host : Text
  pub port : ℤ
  pub jwt_secret : Text

pub record ClusterConfig : Type 0 where
  pub host : Text
  pub port : ℤ
  pub username : Text
  pub password : Text
  pub max_open_conns : ℤ
  pub max_idle_conns : ℤ
  pub conn_max_lifetime : ℤ

abbrev pub ClustersConfig : Type 0
ClustersConfig = Map ClusterConfig

pub record DatabaseConfig : Type 0 where
  pub cluster : Text

abbrev pub DatabasesConfig : Type 0
DatabasesConfig = Map DatabaseConfig

pub record SecurityRef : Type 0 where
  pub config_file : Text

pub record SecurityRules : Type 0 where
  pub allowed_dml : List Text
  pub allowed_ddl : List Text
  pub blocked : List Text
  pub auto_limit : ℤ
  pub max_limit : ℤ
  pub query_timeout : ℤ
  pub max_rows : ℤ

pub record SecurityConfig : Type 0 where
  pub security : SecurityRules

pub record AuditConfig : Type 0 where
  pub enabled : Bool
  pub log_file : Text
  pub max_sql_length : ℤ
  pub max_size_mb : ℤ
  pub max_backups : ℤ
  pub max_age_days : ℤ
  pub compress : Bool

pub record Config : Type 0 where
  pub server : ServerConfig
  pub clusters : ClustersConfig
  pub databases : DatabasesConfig
  pub security : SecurityRef
  pub audit : AuditConfig

-- `time.Second` and `time.Minute`
abbrev pub second : ℕ
second = 1_000_000_000

abbrev pub minute : ℕ
minute = 60 * second

-- (*SecurityRules).IsBlocked
unfoldable pub is_blocked : SecurityRules → Text → Bool
is_blocked s op = let op_upper = upper op in any (λ blocked. equal_fold blocked op_upper) s.blocked

-- (*SecurityRules).IsDMLAllowed
unfoldable pub is_dml_allowed : SecurityRules → Text → Bool
is_dml_allowed s op =
    let op_upper = upper op in any (λ allowed. equal_fold allowed op_upper) s.allowed_dml

-- (*SecurityRules).IsDDLAllowed
unfoldable pub is_ddl_allowed : SecurityRules → Text → Bool
is_ddl_allowed s op =
    let op_upper = upper op in any (λ allowed. equal_fold allowed op_upper) s.allowed_ddl
