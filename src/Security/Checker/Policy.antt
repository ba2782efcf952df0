-- ===== src/Security/Checker/Policy.antt =====
-- internal/security/checker.go: what the checker allows, by the lists of the rules.
use safe_my_sqlmcp_server.Base.{
  ◌≡◌, ◌↔◌, ◌⊎◌, refl, codes, true, false, [], Option, none, some, arith,
}
use safe_my_sqlmcp_server.Config.{SecurityRules, is_dml_allowed}
use safe_my_sqlmcp_server.Config.Rules.{
  Listed, is_blocked_iff, is_dml_allowed_iff, is_ddl_allowed_iff,
}
use safe_my_sqlmcp_server.Security.Parser.{
  SqlType, select, insert, update, delete, create_table, create_index, alter_table, drop, truncate,
  rename, show, explain, other, type_name, ParsedSql,
}
use safe_my_sqlmcp_server.Security.Checker.{Checker, CheckResult, check}

-- What the code reads from the rules: SELECT, INSERT, UPDATE, DELETE, CREATE TABLE, CREATE INDEX and
-- ALTER TABLE are permitted if their allowlist names them, whatever `blocked` names; DROP, TRUNCATE
-- and RENAME if the allowlist names them and `blocked` does not; SHOW and EXPLAIN always.
-- docs/guide/security-config.md and docs/reference/configuration.md have `blocked` win over the
-- allowlists for every operation.
abbrev pub Permits : SecurityRules → SqlType → Type 0
Permits r select = Listed (codes "SELECT") r.allowed_dml
Permits r insert = Listed (codes "INSERT") r.allowed_dml
Permits r update = Listed (codes "UPDATE") r.allowed_dml
Permits r delete = Listed (codes "DELETE") r.allowed_dml
Permits r create_table = Listed (codes "CREATE_TABLE") r.allowed_ddl
Permits r create_index = Listed (codes "CREATE_INDEX") r.allowed_ddl
Permits r alter_table = Listed (codes "ALTER_TABLE") r.allowed_ddl
Permits r drop = Listed (codes "DROP") r.allowed_ddl × ¬ Listed (codes "DROP") r.blocked
Permits r truncate = Listed (codes "TRUNCATE") r.allowed_ddl × ¬ Listed (codes "TRUNCATE") r.blocked
Permits r rename = Listed (codes "RENAME") r.allowed_ddl × ¬ Listed (codes "RENAME") r.blocked
Permits r show = Unit {0}
Permits r explain = Unit {0}
Permits r other = ⊥

-- The result of the checker that has the rules `r`.
abbrev pub verdict : SecurityRules → ParsedSql → CheckResult
verdict r p = check (record { rules = some r }) (some p)

check-Permits_at :
    (r : SecurityRules) (p : ParsedSql) (t : SqlType)
    → p.type ≡ t
    → ((verdict r p).allowed ≡ true) ↔ Permits r t
unfolding check type_name
check-Permits_at r p select e = ground (arith, is_dml_allowed_iff r (codes "SELECT"))
check-Permits_at r p insert e = ground (arith, is_dml_allowed_iff r (codes "INSERT"))
check-Permits_at r p update e = ground (arith, is_dml_allowed_iff r (codes "UPDATE"))
check-Permits_at r p delete e = ground (arith, is_dml_allowed_iff r (codes "DELETE"))
check-Permits_at r p create_table e = ground (arith, is_ddl_allowed_iff r (codes "CREATE_TABLE"))
check-Permits_at r p create_index e = ground (arith, is_ddl_allowed_iff r (codes "CREATE_INDEX"))
check-Permits_at r p alter_table e = ground (arith, is_ddl_allowed_iff r (codes "ALTER_TABLE"))
check-Permits_at r p drop e =
    ground (arith, is_ddl_allowed_iff r (codes "DROP"), is_blocked_iff r (codes "DROP"))
check-Permits_at r p truncate e =
    ground (arith, is_ddl_allowed_iff r (codes "TRUNCATE"), is_blocked_iff r (codes "TRUNCATE"))
check-Permits_at r p rename e =
    ground (arith, is_ddl_allowed_iff r (codes "RENAME"), is_blocked_iff r (codes "RENAME"))
check-Permits_at r p show e = ground arith
check-Permits_at r p explain e = ground arith
check-Permits_at r p other e = ground arith

-- Under rules that are set, the checker allows exactly these statements: SELECT, INSERT, UPDATE and
-- DELETE, CREATE TABLE, CREATE INDEX and ALTER TABLE whose allowlist names them, even if `blocked`
-- names them too, which is not what the documentation says of `blocked`; DROP, TRUNCATE and RENAME
-- that the allowlist names and `blocked` does not; and every SHOW and EXPLAIN.
pub check-Permits :
    (r : SecurityRules) (p : ParsedSql) → ((verdict r p).allowed ≡ true) ↔ Permits r p.type
check-Permits r p = check-Permits_at r p p.type refl

-- With no rules at all, the checker allows every statement but those of the type OTHER.
pub check_without_rules :
    (p : ParsedSql)
    → ((check (record { rules = none }) (some p)).allowed ≡ true) ↔ (¬ (p.type ≡ other))
unfolding check
check_without_rules p = ground arith

-- The list of blocked operations has no bearing on a DML statement, whatever it names: two sets of
-- rules that allow the same DML operations give the same result.
pub blocked_ignores_dml :
    (r s : SecurityRules) (p : ParsedSql)
    → r.allowed_dml ≡ s.allowed_dml
    → (p.type ≡ select) ⊎ (p.type ≡ insert) ⊎ (p.type ≡ update) ⊎ (p.type ≡ delete)
    → verdict r p ≡ verdict s p
unfolding check is_dml_allowed
blocked_ignores_dml r s p same dml = ground arith

-- The checker asks for the rewriter exactly for a permitted UPDATE or DELETE with no WHERE clause.
pub auto_rewrite_iff :
    (r : SecurityRules) (p : ParsedSql)
    → ((verdict r p).auto_rewrite ≡ true)
      ↔ (Permits r p.type × ((p.type ≡ update) ⊎ (p.type ≡ delete)) × (p.has_where ≡ false))
unfolding check
auto_rewrite_iff r p = ground (arith, check-Permits r p)

-- A refusal says why, an acceptance with no rewriting says nothing, and no refusal asks for the
-- rewriter.
pub verdict_shape :
    (c : Checker) (p : Option ParsedSql)
    → (((check c p).allowed ≡ false)
        → (¬ ((check c p).reason ≡ [])) × ((check c p).auto_rewrite ≡ false))
      × (((check c p).allowed ≡ true) × ((check c p).auto_rewrite ≡ false)
          → (check c p).reason ≡ [])
unfolding check
verdict_shape c none = ground arith
verdict_shape c (some p) = ground arith
