-- ===== src/Security/Checker.antt =====
-- internal/security/checker.go: the decision on a parsed statement. The mutex of the source only
-- guards the pointer to the rules; `none` is a nil pointer.
pub mod Policy
use safe_my_sqlmcp_server.Base.{
  Text, codes, Bool, true, false, not, ◌&&◌, ◌||◌, ◌++◌, Option, none, some, [], if◌then◌else◌,
}
use safe_my_sqlmcp_server.Config.{SecurityRules, is_blocked, is_dml_allowed, is_ddl_allowed}
use safe_my_sqlmcp_server.Security.Parser.{
  SqlType, update, delete, drop, truncate, rename, show, explain, type_name, is_dml, is_ddl,
  ParsedSql,
}

pub record Checker : Type 0 where
  pub rules : Option SecurityRules

-- CheckResult
pub record CheckResult : Type 0 where
  pub allowed : Bool
  pub reason : Text
  pub auto_rewrite : Bool

abbrev pub allow : CheckResult
allow = record { allowed = true; reason = []; auto_rewrite = false }

abbrev pub refuse : Text → CheckResult
refuse reason = record { allowed = false; reason = reason; auto_rewrite = false }

-- The map `blockedOps`.
abbrev pub blocked_op : SqlType → Option Text
blocked_op drop = some (codes "DROP")
blocked_op truncate = some (codes "TRUNCATE")
blocked_op rename = some (codes "RENAME")
blocked_op _ = none

-- `parsed.Type == SQLTypeUpdate || parsed.Type == SQLTypeDelete`
abbrev pub is_bulk_write : SqlType → Bool
is_bulk_write update = true
is_bulk_write delete = true
is_bulk_write _ = false

-- `parsed.Type == SQLTypeShow || parsed.Type == SQLTypeExplain`
abbrev pub is_informative : SqlType → Bool
is_informative show = true
is_informative explain = true
is_informative _ = false

-- (*Checker).isBlocked
unfoldable pub is_blocked_stmt : Option SecurityRules → ParsedSql → Bool
is_blocked_stmt none p = false
is_blocked_stmt (some rules) p = elim (blocked_op p.type) [
  | some op ↦ is_blocked rules op
  | none ↦ false
]

-- (*Checker).checkDML
unfoldable pub check_dml : Option SecurityRules → ParsedSql → CheckResult
check_dml none p = allow
check_dml (some rules) p =
    if not (is_dml_allowed rules (type_name p.type))
    then refuse (codes "DML operation " ++ (type_name p.type ++ codes " is not allowed"))
    else if is_bulk_write p.type && not p.has_where
    then record {
      allowed = true;
      reason = codes "auto LIMIT will be added for safety";
      auto_rewrite = true;
    }
    else allow

-- (*Checker).checkDDL
unfoldable pub check_ddl : Option SecurityRules → ParsedSql → CheckResult
check_ddl none p = allow
check_ddl (some rules) p =
    if not (is_ddl_allowed rules (type_name p.type))
    then refuse (codes "DDL operation " ++ (type_name p.type ++ codes " is not allowed"))
    else allow

-- (*Checker).Check
unfoldable pub check : Checker → Option ParsedSql → CheckResult
unfolding is_blocked_stmt check_dml check_ddl
check c none = refuse (codes "empty or invalid SQL")
check c (some p) =
    if is_blocked_stmt c.rules p
    then refuse (codes "operation " ++ (type_name p.type ++ codes " is blocked"))
    else if is_dml p.type
    then check_dml c.rules p
    else if is_ddl p.type
    then check_ddl c.rules p
    else if is_informative p.type
    then allow
    else refuse (codes "unknown operation type: " ++ type_name p.type)

-- (*Checker).UpdateRules
unfoldable pub update_checker : Checker → Option SecurityRules → Checker
update_checker c rules = record c { rules = rules }
