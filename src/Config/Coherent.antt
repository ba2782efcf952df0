-- ===== src/Config/Coherent.antt =====
-- internal/config/validation.go and config.go: which rules and clusters pass validation, and what the
-- defaults do to them.
use safe_my_sqlmcp_server.Base.{
  ◌*◌, ℤ, pos, negsuc, ◌≤ℤ◌, Text, List, [], ◌∷◌, Map, All, none, ◌≡◌, ◌≢◌, ◌↔◌, ◌⊎◌, refl, arith,
  ℕ, zero, suc,
}
use safe_my_sqlmcp_server.Config.{Config, ClusterConfig, SecurityRules, second, minute}
use safe_my_sqlmcp_server.Config.Rules.{Listed, is_blocked_iff}
use safe_my_sqlmcp_server.Config.Validation.{
  validate_cluster, first_blocked, validate_bounds, validate_rules,
}
use safe_my_sqlmcp_server.Config.Defaults.{
  or_default, cluster_defaults, clusters_defaults, audit_defaults, server_defaults, set_defaults,
}

-- None of the operations in a list is blocked.
abbrev pub NoneBlocked : SecurityRules → List Text → Type 0
NoneBlocked s ops = All (λ op. ¬ Listed op s.blocked) ops

first_blocked_iff :
    (s : SecurityRules) (ops : List Text) → (first_blocked s ops ≡ none) ↔ NoneBlocked s ops
unfolding first_blocked
first_blocked_iff s [] = ((λ e. tt), (λ _. refl))
first_blocked_iff s (op ∷ ops) = ground (arith, is_blocked_iff s op, first_blocked_iff s ops)

validate_bounds_iff :
    (s : SecurityRules)
    → (validate_bounds s ≡ none) ↔ (
        (s.query_timeout ≤ℤ pos (5 * minute))
        × (s.max_rows ≤ℤ pos 1_000_000)
        × (s.auto_limit ≤ℤ pos 10_000))
unfolding validate_bounds
validate_bounds_iff s = ground arith

-- Rules pass validation exactly if no operation that they allow is blocked too, in any mixture of
-- cases, the query timeout is at most five minutes, the rows at most a million, and the LIMIT that is
-- added at most ten thousand.
pub validate_rules_iff :
    (s : SecurityRules)
    → (validate_rules s ≡ none) ↔ (
        NoneBlocked s s.allowed_dml
        × NoneBlocked s s.allowed_ddl
        × (s.query_timeout ≤ℤ pos (5 * minute))
        × (s.max_rows ≤ℤ pos 1_000_000)
        × (s.auto_limit ≤ℤ pos 10_000))
unfolding validate_rules
validate_rules_iff s = ground (
  arith,
  first_blocked_iff s s.allowed_dml,
  first_blocked_iff s s.allowed_ddl,
  validate_bounds_iff s,
)

-- With the defaults filled in, a cluster passes validation exactly if it has a host and a user, its
-- port is from 0 to 65535, its numbers of connections are not negative, and its lifetime of a
-- connection is not positive or at least a second: a field that is left at zero never fails it.
pub validate_cluster-cluster_defaults :
    (c : ClusterConfig)
    → (validate_cluster (cluster_defaults c) ≡ none) ↔ (
        (c.host ≢ [])
        × (c.username ≢ [])
        × (pos 0 ≤ℤ c.port)
        × (c.port ≤ℤ pos 65535)
        × (pos 0 ≤ℤ c.max_open_conns)
        × (pos 0 ≤ℤ c.max_idle_conns)
        × ((c.conn_max_lifetime ≤ℤ pos 0) ⊎ (pos second ≤ℤ c.conn_max_lifetime)))
unfolding validate_cluster cluster_defaults
validate_cluster-cluster_defaults c = ground arith

or_default_idem : (x : ℤ) (d : ℕ) → or_default (or_default x d) d ≡ or_default x d
or_default_idem (pos zero) zero = refl
or_default_idem (pos zero) (suc d) = refl
or_default_idem (pos (suc n)) d = refl
or_default_idem (negsuc n) d = refl

cluster_defaults_idem :
    (c : ClusterConfig) → cluster_defaults (cluster_defaults c) ≡ cluster_defaults c
unfolding cluster_defaults
cluster_defaults_idem c = cc (
  or_default_idem c.port 3306,
  or_default_idem c.max_open_conns 10,
  or_default_idem c.max_idle_conns 5,
  or_default_idem c.conn_max_lifetime (5 * minute),
)

clusters_defaults_idem :
    (m : Map ClusterConfig) → clusters_defaults (clusters_defaults m) ≡ clusters_defaults m
unfolding clusters_defaults
clusters_defaults_idem [] = refl
clusters_defaults_idem ((name, c) ∷ m) = rw (cluster_defaults_idem c, clusters_defaults_idem m)

-- Defaults that are filled in once stay: to fill them in again changes nothing.
pub set_defaults_idem : (c : Config) → set_defaults (set_defaults c) ≡ set_defaults c
unfolding set_defaults server_defaults audit_defaults
set_defaults_idem c = cc (
  or_default_idem c.server.port 8080,
  clusters_defaults_idem c.clusters,
  or_default_idem c.audit.max_sql_length 2000,
  or_default_idem c.audit.max_size_mb 100,
  or_default_idem c.audit.max_backups 10,
  or_default_idem c.audit.max_age_days 30,
)
