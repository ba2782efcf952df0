-- ===== src/Examples/Config.antt =====
-- The configuration's validation and defaults on sample values.
use safe_my_sqlmcp_server.Base.{
  ◌*◌, pos, ◌≤ℤ◌, ◌≡◌, ◌↔◌, none, some, codes, refl, to_upper, equal_fold,
}
use safe_my_sqlmcp_server.Config.{ClusterConfig, is_blocked, minute}
use safe_my_sqlmcp_server.Config.Coherent.{NoneBlocked, validate_rules_iff}
use safe_my_sqlmcp_server.Config.Validation.{validate_rules, first_blocked, ddl_allowed_and_blocked}
use safe_my_sqlmcp_server.Examples.Samples.{rules, cluster}

-- DROP is both allowed and blocked.
rules_test : validate_rules rules ≡ some (ddl_allowed_and_blocked (codes "DROP"))
unfolding validate_rules first_blocked is_blocked equal_fold to_upper
rules_test = refl

validate_rules_iff_example : (validate_rules rules ≡ none) ↔ (
    NoneBlocked rules rules.allowed_dml
    × NoneBlocked rules rules.allowed_ddl
    × (rules.query_timeout ≤ℤ pos (5 * minute))
    × (rules.max_rows ≤ℤ pos 1_000_000)
    × (rules.auto_limit ≤ℤ pos 10_000))
validate_rules_iff_example = validate_rules_iff rules

abbrev bare_cluster : ClusterConfig
bare_cluster = record cluster { port = pos 0; max_open_conns = pos 0 }
