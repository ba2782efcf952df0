-- ===== src/Server/Running/Vetted.antt =====
-- internal/server/http.go: what a running server sends to the clusters, from its start on.
use safe_my_sqlmcp_server.Base.{
  ℕ, Text, codes, true, List, [], ◌++◌, append-nil, append_assoc, none, some, ◌≡◌, ◌∙◌, inl, inr,
  refl, sym, ap, subst,
}
use safe_my_sqlmcp_server.Config.{SecurityRules}
use safe_my_sqlmcp_server.Security.Parser.{TidbResult, ParsedSql, parsed, parse, is_dml}
use safe_my_sqlmcp_server.Security.Checker.Policy.{Permits}
use safe_my_sqlmcp_server.Database.Router.Sends.{Sends}
use safe_my_sqlmcp_server.Mcp.Handler.{Env, State, update_security_rules}
use safe_my_sqlmcp_server.Mcp.Tools.{Outside, env_for}
use safe_my_sqlmcp_server.Mcp.Tools.Effects.{Effect, silent, queries, explains, call_tool-Effect}
use safe_my_sqlmcp_server.Mcp.Query.Rewriting.{IsExecuted}
use safe_my_sqlmcp_server.Mcp.Query.Steps.{sends_only_permitted}
use safe_my_sqlmcp_server.Mcp.Explain.Steps.{explain_sends}
use safe_my_sqlmcp_server.Server.{Server, update_server, apply_security}
use safe_my_sqlmcp_server.Server.Running.{Step, tool_call, reload, Runs, start, and_then}

-- The parser that a call uses is the one of the process.
abbrev pub ParsesBy : (Text → TidbResult) → Outside → Type 0
ParsesBy tidb o = o.env.tidb ≡ tidb

-- The statements that Query and Exec of the router sent in a run, call by call. Each call is of a server
-- `u` of this run, and the texts are read by the one parser.
pub data IsVetted (tidb : Text → TidbResult) (s : Server) : List (ℕ × Text) → Type 0 where
  nothing_sent : IsVetted tidb s []
  by_query :
      (xs ys : List (ℕ × Text)) (u : Server) (rules : SecurityRules) (db sql t : Text)
      (p : ParsedSql)
      → IsVetted tidb s xs
      → Runs (ParsesBy tidb) s u
      → u.handler.checker.rules ≡ some rules
      → parse tidb sql ≡ parsed p
      → Permits rules p.type
      → IsExecuted u.handler.rewriter.rules p sql t
      → Sends db t ys
      → IsVetted tidb s (xs ++ ys)
  by_explain :
      (xs ys : List (ℕ × Text)) (db sql : Text) (p : ParsedSql)
      → IsVetted tidb s xs
      → parse tidb sql ≡ parsed p
      → is_dml p.type ≡ true
      → Sends db (codes "EXPLAIN " ++ sql) ys
      → IsVetted tidb s (xs ++ ys)

-- A server of a run still has rules, and what it sent since the start was vetted.
pub record IsGuarded (tidb : Text → TidbResult) (s t : Server) : Type 0 where
  pub rules : SecurityRules
  pub guarded : t.handler.checker.rules ≡ some rules
  pub added : List (ℕ × Text)
  pub sent : t.state.sent ≡ s.state.sent ++ added
  pub vetted : IsVetted tidb s added

-- A step that sends nothing through the router and leaves rules
quiet :
    {tidb : Text → TidbResult} (s t u : Server) (rules : SecurityRules)
    → IsGuarded tidb s t
    → u.handler.checker.rules ≡ some rules
    → u.state.sent ≡ t.state.sent
    → IsGuarded tidb s u
quiet s t u rules g set same = record {
  rules = rules;
  guarded = set;
  added = g.added;
  sent = same ∙ g.sent;
  vetted = g.vetted;
}

more :
    {tidb : Text → TidbResult} {s t : Server} (g : IsGuarded tidb s t) (sent ys : List (ℕ × Text))
    → sent ≡ t.state.sent ++ ys
    → sent ≡ s.state.sent ++ (g.added ++ ys)
more {tidb} {s} g sent ys e = e ∙ ap (λ xs. xs ++ ys) g.sent ∙ append_assoc s.state.sent g.added ys

Effect-IsGuarded :
    {tidb : Text → TidbResult} (env : Env) (s t : Server) (st : State)
    → env.tidb ≡ tidb
    → Runs (ParsesBy tidb) s t
    → Effect env t.handler t.state st
    → IsGuarded tidb s t
    → IsGuarded tidb s (record t { state = st })
Effect-IsGuarded env s t st one run (silent unsent same) g = quiet s t _ g.rules g g.guarded unsent
Effect-IsGuarded env s t st one run (queries db sql e) g =
    elim (sends_only_permitted env t.handler db sql g.rules t.state g.guarded) [
      | inl unsent ↦ quiet s t _ g.rules g g.guarded (rw e unsent)
      | inr (p, text, permitted, (x, ys, sent, executed, sends)) ↦ record {
        rules = g.rules;
        guarded = g.guarded;
        added = g.added ++ ys;
        sent = more g _ ys (rw e sent);
        vetted =
            by_query g.added ys t g.rules db sql x p g.vetted run g.guarded
              (subst (λ tidb. parse tidb sql ≡ parsed p) one text) permitted executed sends;
      }
    ]
Effect-IsGuarded env s t st one run (explains db sql e) g =
    elim (explain_sends env t.handler db sql t.state).0 [
      | inl unsent ↦ quiet s t _ g.rules g g.guarded (rw e unsent)
      | inr (p, text, dml, (ys, sent, sends)) ↦ record {
        rules = g.rules;
        guarded = g.guarded;
        added = g.added ++ ys;
        sent = more g _ ys (rw e sent);
        vetted =
            by_explain g.added ys db sql p g.vetted
              (subst (λ tidb. parse tidb sql ≡ parsed p) one text) dml sends;
      }
    ]

Step-IsGuarded :
    {tidb : Text → TidbResult} (s t u : Server)
    → Runs (ParsesBy tidb) s t
    → Step (ParsesBy tidb) t u
    → IsGuarded tidb s t
    → IsGuarded tidb s u
unfolding update_server apply_security update_security_rules
Step-IsGuarded s _ _ run (tool_call ctx o c t one) g =
    Effect-IsGuarded (env_for ctx o) s t _ one run (call_tool-Effect ctx o t.handler c t.state) g
Step-IsGuarded s _ _ run (reload sql_open marshal mkdir cfg none t) g =
    quiet s t _ g.rules g g.guarded refl
Step-IsGuarded s _ _ run (reload sql_open marshal mkdir cfg (some c) t) g =
    quiet s t _ c.security g refl refl

-- A server that starts with rules keeps having some, and what it sends from its start on is vetted.
pub running-IsGuarded :
    (tidb : Text → TidbResult) (s t : Server) (rules : SecurityRules)
    → s.handler.checker.rules ≡ some rules
    → Runs (ParsesBy tidb) s t
    → IsGuarded tidb s t
running-IsGuarded tidb s _ rules set start = record {
  rules = rules;
  guarded = set;
  added = [];
  sent = sym (append-nil s.state.sent);
  vetted = nothing_sent;
}
running-IsGuarded tidb s _ rules set (and_then t u run step) =
    Step-IsGuarded s t u run step (running-IsGuarded tidb s t rules set run)
