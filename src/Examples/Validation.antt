-- ===== src/Examples/Validation.antt =====
-- Names, quotes and patterns on concrete texts.
use safe_my_sqlmcp_server.Base.{codes, ◌++◌, some, ◌≡◌, refl}
use safe_my_sqlmcp_server.Validation.{quote_identifier, escape_like_pattern}
use safe_my_sqlmcp_server.Validation.Quoting.{read_identifier, read_identifier-quote_identifier}
use safe_my_sqlmcp_server.Validation.Like.{Like}

quote_test : quote_identifier (codes "a`b") ≡ codes "`a``b`"
unfolding quote_identifier
quote_test = refl

escape_test : escape_like_pattern (codes "a_b%") ≡ codes "a\\_b\\%"
unfolding escape_like_pattern
escape_test = refl

read_identifier-quote_identifier_example :
    read_identifier (quote_identifier (codes "a`b") ++ codes ".x") ≡ some (codes "a`b", codes ".x")
read_identifier-quote_identifier_example =
    read_identifier-quote_identifier (codes "a`b") (codes ".x") (λ e. cc)
