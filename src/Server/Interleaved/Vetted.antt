-- ===== src/Server/Interleaved/Vetted.antt =====
-- internal/mcp/tools.go and internal/server/http.go: the statements that an interleaved run sends.
use safe_my_sqlmcp_server.Base.{
  ℕ, Text, codes, true, List, [], ◌∷◌, ◌++◌, append_assoc, All, some, ◌≡◌, ◌∙◌, inl, inr, ap, subst,
}
use safe_my_sqlmcp_server.Config.{SecurityRules}
use safe_my_sqlmcp_server.Security.Parser.{TidbResult, ParsedSql, parsed, parse, is_dml}
use safe_my_sqlmcp_server.Security.Checker.{Checker}
use safe_my_sqlmcp_server.Security.Checker.Policy.{Permits}
use safe_my_sqlmcp_server.Security.Rewriter.{Rewriter}
use safe_my_sqlmcp_server.Database.Router.Sends.{Sends}
use safe_my_sqlmcp_server.Mcp.Handler.{Env, State}
use safe_my_sqlmcp_server.Mcp.Query.Rewriting.{IsExecuted}
use safe_my_sqlmcp_server.Mcp.Query.Steps.{sends_only_permitted}
use safe_my_sqlmcp_server.Mcp.Explain.Steps.{explain_sends}
use safe_my_sqlmcp_server.Mcp.Tools.Effects.{Effect, silent, queries, explains}
use safe_my_sqlmcp_server.Server.Interleaved.{
  Phase, parsing, checked, rewritten, Job, seen_by, finish, Live, Step, Runs, start, and_then,
}

-- A checker that has rules, as the server had it at a moment `u` of the run
abbrev pub SawChecker : (Text → TidbResult) → Live → Live → Checker → Type 0
SawChecker tidb k u c =
    (rules : SecurityRules) × Runs tidb k u
    × (u.server.handler.checker ≡ c)
    × (c.rules ≡ some rules)

-- What a call has seen by the moment `l`: the rewriter no earlier than the checker
abbrev pub SawPhase : (Text → TidbResult) → Live → Live → Phase → Type 0
SawPhase tidb k l parsing = Unit
SawPhase tidb k l (checked c) = (u : Live) × SawChecker tidb k u c × Runs tidb u l
SawPhase tidb k l (rewritten c w) =
    (u : Live) × (v : Live) × SawChecker tidb k u c
    × Runs tidb u v
    × (v.server.handler.rewriter ≡ w)

abbrev pub Saw : (Text → TidbResult) → Live → Live → Job → Type 0
Saw tidb k l j = (j.env.tidb ≡ tidb) × SawPhase tidb k l j.phase

SawPhase-step :
    {tidb : Text → TidbResult} (k l m : Live)
    → Step tidb l m
    → (p : Phase) → SawPhase tidb k l p
    → SawPhase tidb k m p
SawPhase-step k l m step parsing saw = saw
SawPhase-step k l m step (checked c) (u, saw, run) = (u, saw, and_then l m run step)
SawPhase-step k l m step (rewritten c w) saw = saw

pub All-Saw-step :
    {tidb : Text → TidbResult} (k l m : Live)
    → Step tidb l m
    → (js : List Job) → All (Saw tidb k l) js
    → All (Saw tidb k m) js
All-Saw-step k l m step [] h = tt
All-Saw-step k l m step (j ∷ js) ((one, saw), h) =
    ((one, SawPhase-step k l m step j.phase saw), All-Saw-step k l m step js h)

-- The statements that Query and Exec of the router sent in a run, call by call: the checker has
-- permitted the statement at a moment of the run, and the rewriter was asked at the same moment or a
-- later one.
pub data IsVetted (tidb : Text → TidbResult) (k : Live) : List (ℕ × Text) → Type 0 where
  nothing_sent : IsVetted tidb k []
  by_query :
      (xs ys : List (ℕ × Text)) (u v : Live) (rules : SecurityRules) (db sql t : Text)
      (p : ParsedSql)
      → IsVetted tidb k xs
      → Runs tidb k u
      → Runs tidb u v
      → u.server.handler.checker.rules ≡ some rules
      → parse tidb sql ≡ parsed p
      → Permits rules p.type
      → IsExecuted v.server.handler.rewriter.rules p sql t
      → Sends db t ys
      → IsVetted tidb k (xs ++ ys)
  by_explain :
      (xs ys : List (ℕ × Text)) (db sql : Text) (p : ParsedSql)
      → IsVetted tidb k xs
      → parse tidb sql ≡ parsed p
      → is_dml p.type ≡ true
      → Sends db (codes "EXPLAIN " ++ sql) ys
      → IsVetted tidb k (xs ++ ys)

-- What was sent, and what had been sent before; what was added was vetted.
abbrev pub SentVetted : (Text → TidbResult) → Live → List (ℕ × Text) → List (ℕ × Text) → Type 0
SentVetted tidb k before all =
    (added : List (ℕ × Text)) × (all ≡ before ++ added) × IsVetted tidb k added

pub record IsGuarded (tidb : Text → TidbResult) (k l : Live) : Type 0 where
  pub rules : SecurityRules
  pub guarded : l.server.handler.checker.rules ≡ some rules
  pub sent : SentVetted tidb k k.server.state.sent l.server.state.sent

SentVetted-more :
    {tidb : Text → TidbResult} (k : Live) (before mid all ys : List (ℕ × Text))
    → all ≡ mid ++ ys
    → (v : SentVetted tidb k before mid) → IsVetted tidb k (v.0 ++ ys)
    → SentVetted tidb k before all
SentVetted-more k before mid all ys e (added, sent, vetted) more =
    (added ++ ys, e ∙ ap (λ xs. xs ++ ys) sent ∙ append_assoc before added ys, more)

SentVetted-same :
    {tidb : Text → TidbResult} (k : Live) (before mid all : List (ℕ × Text))
    → all ≡ mid
    → SentVetted tidb k before mid
    → SentVetted tidb k before all
SentVetted-same k before mid all e (added, sent, vetted) = (added, e ∙ sent, vetted)

-- What a job leaves that has seen a checker and a rewriter of the run
pub finish-SentVetted :
    {tidb : Text → TidbResult} (k l : Live) (j : Job) (c : Checker) (w : Rewriter)
    → j.env.tidb ≡ tidb
    → SawPhase tidb k l (rewritten c w)
    → SentVetted tidb k k.server.state.sent l.server.state.sent
    → SentVetted tidb k k.server.state.sent (finish j c w l.server).state.sent
unfolding finish
finish-SentVetted k l j c w one (u, v, (rules, run, is_c, set), run', is_w) sent =
    let h = seen_by c w l.server.handler in
    elim (sends_only_permitted j.env h j.database j.sql rules l.server.state set) [
      | inl unsent ↦ SentVetted-same k k.server.state.sent l.server.state.sent _ unsent sent
      | inr (p, text, permitted, (t, ys, more, executed, sends)) ↦
          SentVetted-more k k.server.state.sent l.server.state.sent _ ys more sent (
            by_query sent.0 ys u v rules j.database j.sql t p sent.2 run run'
              (ap (λ (x : Checker). x.rules) is_c ∙ set)
              (subst (λ tidb. parse tidb j.sql ≡ parsed p) one text) permitted (rw is_w executed)
              sends)
    ]

pub Effect-SentVetted :
    {tidb : Text → TidbResult} (k l : Live) (env : Env) (st : State) (rules : SecurityRules)
    → env.tidb ≡ tidb
    → Runs tidb k l
    → l.server.handler.checker.rules ≡ some rules
    → Effect env l.server.handler l.server.state st
    → SentVetted tidb k k.server.state.sent l.server.state.sent
    → SentVetted tidb k k.server.state.sent st.sent
Effect-SentVetted k l env st rules one run set (silent unsent same) sent =
    SentVetted-same k k.server.state.sent l.server.state.sent st.sent unsent sent
Effect-SentVetted k l env st rules one run set (queries db sql e) sent =
    elim (sends_only_permitted env l.server.handler db sql rules l.server.state set) [
      | inl unsent ↦
          SentVetted-same k k.server.state.sent l.server.state.sent st.sent (rw e unsent) sent
      | inr (p, text, permitted, (t, ys, more, executed, sends)) ↦
          SentVetted-more k k.server.state.sent l.server.state.sent st.sent ys (rw e more) sent (
            by_query sent.0 ys l l rules db sql t p sent.2 run start set
              (subst (λ tidb. parse tidb sql ≡ parsed p) one text) permitted executed sends)
    ]
Effect-SentVetted k l env st rules one run set (explains db sql e) sent =
    elim (explain_sends env l.server.handler db sql l.server.state).0 [
      | inl unsent ↦
          SentVetted-same k k.server.state.sent l.server.state.sent st.sent (rw e unsent) sent
      | inr (p, text, dml, (ys, more, sends)) ↦
          SentVetted-more k k.server.state.sent l.server.state.sent st.sent ys (rw e more) sent (
            by_explain sent.0 ys db sql p sent.2
              (subst (λ tidb. parse tidb sql ≡ parsed p) one text) dml sends)
    ]
