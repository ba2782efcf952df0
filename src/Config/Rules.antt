-- ===== src/Config/Rules.antt =====
-- internal/config/config.go: the queries of the security rules, as membership in a list up to the
-- case of letters.
use safe_my_sqlmcp_server.Base.{
  ◌≡◌, ◌↔◌, true, Text, List, Exists, any_iff, equal_fold, equal_fold_iff, upper, upper_idem, arith,
}
use safe_my_sqlmcp_server.Config.{SecurityRules, is_blocked, is_dml_allowed, is_ddl_allowed}

-- An operation is listed if some entry is its name in some mixture of cases.
abbrev pub Listed : Text → List Text → Type 0
Listed op entries = Exists (λ entry. upper entry ≡ upper op) entries

fold-upper_iff : (op entry : Text) → (equal_fold entry (upper op) ≡ true) ↔ (upper entry ≡ upper op)
fold-upper_iff op entry = ground (arith, equal_fold_iff entry (upper op), upper_idem op)

pub is_blocked_iff :
    (s : SecurityRules) (op : Text) → (is_blocked s op ≡ true) ↔ Listed op s.blocked
unfolding is_blocked
is_blocked_iff s op = any_iff _ _ s.blocked (fold-upper_iff op)

pub is_dml_allowed_iff :
    (s : SecurityRules) (op : Text) → (is_dml_allowed s op ≡ true) ↔ Listed op s.allowed_dml
unfolding is_dml_allowed
is_dml_allowed_iff s op = any_iff _ _ s.allowed_dml (fold-upper_iff op)

pub is_ddl_allowed_iff :
    (s : SecurityRules) (op : Text) → (is_ddl_allowed s op ≡ true) ↔ Listed op s.allowed_ddl
unfolding is_ddl_allowed
is_ddl_allowed_iff s op = any_iff _ _ s.allowed_ddl (fold-upper_iff op)
