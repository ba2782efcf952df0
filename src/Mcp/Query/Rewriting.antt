-- ===== src/Mcp/Query/Rewriting.antt =====
-- internal/mcp/tools.go: which text the tool `query` executes.
use safe_my_sqlmcp_server.Base.{
  pos, ltb_ℤ, ◌<ℤ◌, Text, true, false, some, none, Option, inl, inr, Bool-cases, Option-cases, ◌≡◌,
  ◌≢◌, ◌⊎◌, refl, arith, subst, sym, ◌∙◌, ◌≤ℤ◌, [], ◌∷◌,
}
use safe_my_sqlmcp_server.Config.{SecurityRules}
use safe_my_sqlmcp_server.Security.Parser.{update, delete, ParsedSql, TidbResult, parsed, parse}
use safe_my_sqlmcp_server.Security.Parser.Laws.{parse-IsWellFormed}
use safe_my_sqlmcp_server.Security.Checker.{check, check_dml, check_ddl}
use safe_my_sqlmcp_server.Security.Checker.Policy.{Permits, auto_rewrite_iff}
use safe_my_sqlmcp_server.Security.Rewriter.{
  Rewriter, rewrite, rewrite_under, rewrite_select, add_limit,
}
use safe_my_sqlmcp_server.Security.Rewriter.Added.{HasAppended, add_limit-HasAppended}
use safe_my_sqlmcp_server.Mcp.Handler.{Handler, update_security_rules}
use safe_my_sqlmcp_server.Mcp.Query.{sql_to_execute, warnings_of, rewrite_warning}

-- The checker and the rewriter decide by the same rules.
abbrev pub AreInStep : Handler → SecurityRules → Type 0
AreInStep h r = (h.checker.rules ≡ some r) × (h.rewriter.rules ≡ some r)

-- A statement that is neither an UPDATE nor a DELETE is executed as the client sent it. In particular
-- the cap on the LIMIT of a SELECT is never applied, whatever `max_limit` says.
pub select_unchanged :
    (h : Handler) (sql : Text) (p : ParsedSql)
    → p.type ≢ update
    → p.type ≢ delete
    → sql_to_execute h sql p ≡ sql
unfolding check check_dml check_ddl
select_unchanged h sql p u d = ground arith

-- The writes that the rewriter is meant for: no WHERE clause, and allowed by the rules.
abbrev pub IsBulkWrite : SecurityRules → ParsedSql → Type 0
IsBulkWrite r p = Permits r p.type × ((p.type ≡ update) ⊎ (p.type ≡ delete)) × (p.has_where ≡ false)

-- What is to be executed for a statement, under a rewriter that has some rules: the text itself, unless
-- it is an UPDATE or DELETE with no WHERE clause. Of one that has no LIMIT either, with a positive
-- `auto_limit`, it is the text with that limit behind it. A rewriter without rules gives no text.
abbrev pub IsBulk : ParsedSql → Type 0
IsBulk p = ((p.type ≡ update) ⊎ (p.type ≡ delete)) × (p.has_where ≡ false)

abbrev pub OnBulk : Option SecurityRules → ParsedSql → (sql t : Text) → Type 0
OnBulk none p sql t = t ≡ []
OnBulk (some r) p sql t =
    ((p.has_limit ≡ false) × (pos 0 <ℤ r.auto_limit) × HasAppended sql r.auto_limit t)
    ⊎ (((p.has_limit ≡ true) ⊎ (r.auto_limit ≤ℤ pos 0)) × (t ≡ sql))

abbrev pub IsExecuted : Option SecurityRules → ParsedSql → (sql t : Text) → Type 0
IsExecuted w p sql t = (¬ IsBulk p × (t ≡ sql)) ⊎ (IsBulk p × OnBulk w p sql t)

asks_for_rewrite :
    (h : Handler) (r : SecurityRules) (p : ParsedSql)
    → h.checker.rules ≡ some r
    → IsBulkWrite r p
    → (check h.checker (some p)).auto_rewrite ≡ true
asks_for_rewrite h r p set bulk =
    subst (λ rs. (check (record { rules = rs }) (some p)).auto_rewrite ≡ true) (sym set)
      ((auto_rewrite_iff r p).1 bulk)

rewrite_bulk :
    (r : SecurityRules) (p : ParsedSql)
    → IsBulk p
    → ((p.has_limit ≡ false)
        → pos 0 <ℤ r.auto_limit
        → (rewrite_under r p).sql ≡ add_limit p.original r.auto_limit)
      × (((p.has_limit ≡ true) ⊎ (r.auto_limit ≤ℤ pos 0)) → (rewrite_under r p).sql ≡ p.original)
unfolding rewrite_under rewrite_select
rewrite_bulk r p bulk = ground arith

rewrite_under-OnBulk :
    (r : SecurityRules) (p : ParsedSql) (sql : Text)
    → IsBulk p
    → p.original ≡ sql
    → OnBulk (some r) p sql (rewrite_under r p).sql
rewrite_under-OnBulk r p sql bulk source =
    let (limited, unlimited) = rewrite_bulk r p bulk in
    elim (Bool-cases p.has_limit) [
      | inl own ↦ inr (inl own, unlimited (inl own) ∙ source)
      | inr none_yet ↦ elim (Bool-cases (ltb_ℤ (pos 0) r.auto_limit)) [
        | inl more ↦
            let positive : pos 0 <ℤ r.auto_limit = ground arith in
            inl (
              none_yet,
              positive,
              rw (limited none_yet positive, source)
                  (add_limit-HasAppended sql r.auto_limit positive),
            )
        | inr less ↦
            let at_most : r.auto_limit ≤ℤ pos 0 = ground arith in
            inr (inr at_most, unlimited (inr at_most) ∙ source)
      ]
    ]

rewritten-OnBulk :
    (w : Rewriter) (p : ParsedSql) (sql : Text)
    → IsBulk p
    → p.original ≡ sql
    → OnBulk w.rules p sql (rewrite w (some p)).sql
unfolding rewrite
rewritten-OnBulk w p sql bulk source = elim (Option-cases w.rules) [
  | inl unset ↦ rw (rewrite, unset) refl
  | inr (r, set) ↦ rw (rewrite, set) (rewrite_under-OnBulk r p sql bulk source)
]

-- The statement that is executed is the one that is to be.
pub sql_to_execute-IsExecuted :
    (h : Handler) (r : SecurityRules) (sql : Text) (p : ParsedSql)
    → h.checker.rules ≡ some r
    → Permits r p.type
    → p.original ≡ sql
    → IsExecuted h.rewriter.rules p sql (sql_to_execute h sql p)
sql_to_execute-IsExecuted h r sql p set permitted source =
    elim (Bool-cases (check h.checker (some p)).auto_rewrite) [
      | inl asked ↦
          let (_, bulk, no_where) = (auto_rewrite_iff r p).0 (
            subst (λ rs. (check (record { rules = rs }) (some p)).auto_rewrite ≡ true) set asked) in
          rw asked
            (inr ((bulk, no_where), rewritten-OnBulk h.rewriter p sql (bulk, no_where) source))
      | inr plain ↦
          let no_bulk : ¬ IsBulk p = λ bulk.
            let asked = asks_for_rewrite h r p set (permitted, bulk.0, bulk.1) in
            absurd (ground arith) in
          rw plain (inl (no_bulk, refl))
    ]

-- What is executed for an UPDATE or DELETE with no WHERE clause that the rules permit, under a checker
-- and a rewriter that have the same rules. With no LIMIT of its own, and a positive `auto_limit`, it is
-- the client's text, without the white space around it and the semicolons at its end, and behind it
-- ` LIMIT ` with the numeral of `auto_limit`; the text is not parsed again, so behind a comment at its
-- end this is a part of the comment. With a LIMIT of its own, of whatever size, or with an `auto_limit`
-- that is not positive, it is the client's text, although the reply warns that it was rewritten.
pub bulk_write_executes :
    (h : Handler) (r : SecurityRules) (tidb : Text → TidbResult) (sql : Text) (p : ParsedSql)
    → AreInStep h r
    → parse tidb sql ≡ parsed p
    → IsBulkWrite r p
    → (warnings_of h p ≡ rewrite_warning ∷ [])
      × ((p.has_limit ≡ false)
          → pos 0 <ℤ r.auto_limit
          → HasAppended sql r.auto_limit (sql_to_execute h sql p))
      × (((p.has_limit ≡ true) ⊎ (r.auto_limit ≤ℤ pos 0)) → sql_to_execute h sql p ≡ sql)
unfolding rewrite
bulk_write_executes h r tidb sql p (set, set') e bulk =
    let (_, source, _) = parse-IsWellFormed tidb sql p e in
    let asked = asks_for_rewrite h r p set bulk in
    let (limited, unlimited) = rewrite_bulk r p (bulk.1, bulk.2) in
    (
      rw asked refl,
      (λ none_yet positive.
          let executed : sql_to_execute h sql p ≡ add_limit sql r.auto_limit =
            rw (asked, set') (rw (← source) (limited none_yet positive)) in
          rw executed (add_limit-HasAppended sql r.auto_limit positive)),
      (λ bounded. rw (asked, set') (unlimited bounded ∙ source)),
    )

-- After new rules are handed out, the checker and the rewriter have the same rules.
pub update_security_rules-AreInStep :
    (h : Handler) (r : SecurityRules) → AreInStep (update_security_rules (some r) h) r
unfolding update_security_rules
update_security_rules-AreInStep h r = (refl, refl)
