-- ===== src/Server/Running.antt =====
-- internal/server/http.go: what stays true while the server runs. A run is any sequence of calls of the
-- tools and of reloads.
pub mod Vetted
use safe_my_sqlmcp_server.Base.{
  ℕ, Text, Bool, Option, none, some, ◌≡◌, ◌⊎◌, ◌∙◌, inl, inr, refl, subst, sym, arith, [],
  Sum-cases, Option-cases, lookup,
}
use safe_my_sqlmcp_server.Config.{Config, SecurityConfig, SecurityRules}
use safe_my_sqlmcp_server.Config.Reloadable.{ReloadableConfig, get_security, update_config}
use safe_my_sqlmcp_server.Auth.{Validator, new_validator_from_env}
use safe_my_sqlmcp_server.Audit.{Entry, new_logger}
use safe_my_sqlmcp_server.Audit.Laws.{IsReady, log-IsReady, loggers-IsReady}
use safe_my_sqlmcp_server.Database.Pool.{Pool, new_pool}
use safe_my_sqlmcp_server.Database.Router.{
  unknown_database, Answers, get_db, run_behind, run_statement, query, exec,
}
use safe_my_sqlmcp_server.Mcp.Handler.{Env, Handler, State, update_security_rules}
use safe_my_sqlmcp_server.Mcp.Query.{execute_query}
use safe_my_sqlmcp_server.Mcp.Query.Audited.{execute_query-Audited}
use safe_my_sqlmcp_server.Auth.Context.{Context}
use safe_my_sqlmcp_server.Mcp.Tools.{Call, Outside, env_for}
use safe_my_sqlmcp_server.Mcp.Tools.Effects.{Effect, silent, queries, explains, call_tool-Effect}
use safe_my_sqlmcp_server.Mcp.Explain.Steps.{explain_sends}
use safe_my_sqlmcp_server.Server.{
  Server, ServerError, new_server, new_with, update_server, apply_security, call_on,
}

-- One call of a tool, in any context and with any answers of the database that have a property `P`, or
-- one reload.
pub data Step (P : Outside → Type 0) : Server → Server → Type 0 where
  tool_call :
      (ctx : Context) (o : Outside) (c : Call) (s : Server) → P o → Step P s (call_on ctx o c s)
  reload :
      (sql_open : Text → Bool) (marshal : Entry → Option Text) (mkdir : Text → Bool) (cfg : Config)
      (security : Option SecurityConfig) (s : Server)
      → Step P s (update_server sql_open marshal mkdir cfg security s)

pub data Runs (P : Outside → Type 0) (s : Server) : Server → Type 0 where
  start : Runs P s s
  and_then : (t u : Server) → Runs P s t → Step P t u → Runs P s u

-- The checker and the rewriter have the same rules, which are those of the configuration if it has
-- any; and the audit logger has a writer if it is enabled.
pub record IsSteady (s : Server) : Type 0 where
  pub alike : s.handler.checker.rules ≡ s.handler.rewriter.rules
  pub loaded :
      (r : SecurityRules)
      → get_security s.handler.config ≡ some r
      → s.handler.checker.rules ≡ some r
  pub ready : IsReady s.state.logger

new_with-IsSteady :
    (sql_open : Text → Bool) (marshal : Entry → Option Text) (mkdir : Text → Bool)
    (rc : ReloadableConfig) (v : Validator) (p : Pool) (s : Server)
    → new_with sql_open marshal mkdir rc v p ≡ inr s
    → IsSteady s
unfolding new_with
new_with-IsSteady sql_open marshal mkdir rc v p s e =
    elim (Option-cases (new_logger marshal mkdir rc.config.audit)) [
      | inl failed ↦ absurd (cc (rw (new_with, failed) at e))
      | inr (logger, made) ↦ subst IsSteady (inr-injective (rw (new_with, made) at e)) (record {
        alike = refl;
        loaded = λ r set. set;
        ready = (loggers-IsReady marshal mkdir rc.config.audit logger).0 made;
      })
    ]
  where
    inr-injective : {a b : Server} → ◌≡◌ {A = ServerError ⊎ Server} (inr a) (inr b) → a ≡ b
    inr-injective e = cc e

new_server-IsSteady :
    (sql_open : Text → Bool) (marshal : Entry → Option Text) (mkdir : Text → Bool)
    (env_secret : Text) (id : ℕ) (rc : ReloadableConfig) (s : Server)
    → new_server sql_open marshal mkdir env_secret id rc ≡ inr s
    → IsSteady s
unfolding new_server
new_server-IsSteady sql_open marshal mkdir env_secret id rc s e =
    elim (Sum-cases (new_validator_from_env env_secret rc.config.server.jwt_secret)) [
      | inl (bad, refused) ↦ absurd (cc (rw (new_server, refused) at e))
      | inr (v, valid) ↦ elim (Option-cases (new_pool sql_open id rc.config.clusters).1) [
        | inl opened ↦
            new_with-IsSteady sql_open marshal mkdir rc v
              (new_pool sql_open id rc.config.clusters).0 s (rw (new_server, valid, opened) at e)
        | inr (bad, failed) ↦ absurd (cc (rw (new_server, valid, failed) at e))
      ]
    ]

update_server-IsSteady :
    (sql_open : Text → Bool) (marshal : Entry → Option Text) (mkdir : Text → Bool) (cfg : Config)
    (security : Option SecurityConfig) (s : Server)
    → IsSteady s
    → IsSteady (update_server sql_open marshal mkdir cfg security s)
unfolding update_server apply_security update_config get_security update_security_rules
update_server-IsSteady sql_open marshal mkdir cfg none s h = record {
  alike = h.alike;
  loaded = λ r e. absurd (cc e);
  ready = ((loggers-IsReady marshal mkdir cfg.audit s.state.logger).1 h.ready).1;
}
update_server-IsSteady sql_open marshal mkdir cfg (some c) s h = record {
  alike = refl;
  loaded = λ r e. e;
  ready = ((loggers-IsReady marshal mkdir cfg.audit s.state.logger).1 h.ready).1;
}

execute_query-IsReady :
    (env : Env) (h : Handler) (db sql : Text) (st : State)
    → IsReady st.logger
    → IsReady (execute_query env h db sql st).0.logger
execute_query-IsReady env h db sql st ready = elim (execute_query-Audited env h db sql st) [
  | inl (e, named, told, logged) ↦
      subst IsReady (sym logged) (log-IsReady env.marshal env.mkdir env.now e st.logger ready)
  | inr (unlogged, same) ↦ subst IsReady (sym same) ready
]

Effect-IsReady :
    (env : Env) (h : Handler) (st st' : State)
    → Effect env h st st'
    → IsReady st.logger
    → IsReady st'.logger
Effect-IsReady env h st st' (silent unsent same) ready = subst IsReady (sym same) ready
Effect-IsReady env h st st' (queries db sql e) ready =
    rw e (execute_query-IsReady env h db sql st ready)
Effect-IsReady env h st st' (explains db sql e) ready =
    rw (e, (explain_sends env h db sql st).1) ready

Step-IsSteady : {P : Outside → Type 0} (s t : Server) → Step P s t → IsSteady s → IsSteady t
Step-IsSteady _ _ (tool_call ctx o c s ok) h = record {
  alike = h.alike;
  loaded = h.loaded;
  ready =
      Effect-IsReady (env_for ctx o) s.handler s.state _
        (call_tool-Effect ctx o s.handler c s.state) h.ready;
}
Step-IsSteady _ _ (reload sql_open marshal mkdir cfg security s) h =
    update_server-IsSteady sql_open marshal mkdir cfg security s h

Runs-IsSteady : {P : Outside → Type 0} {s t : Server} → IsSteady s → Runs P s t → IsSteady t
Runs-IsSteady h start = h
Runs-IsSteady h (and_then t u run step) = Step-IsSteady t u step (Runs-IsSteady h run)

-- After any sequence of reloads and of calls of the tools, of a server that was set up, the checker
-- and the rewriter have the same rules, these are the rules of the configuration whenever it has
-- any, and the audit logger has a writer whenever it is enabled.
pub running-IsSteady :
    (sql_open : Text → Bool) (marshal : Entry → Option Text) (mkdir : Text → Bool)
    (env_secret : Text) (id : ℕ) (rc : ReloadableConfig) {P : Outside → Type 0} (s t : Server)
    → new_server sql_open marshal mkdir env_secret id rc ≡ inr s
    → Runs P s t
    → IsSteady t
running-IsSteady sql_open marshal mkdir env_secret id rc s t e run =
    Runs-IsSteady (new_server-IsSteady sql_open marshal mkdir env_secret id rc s e) run

Step-router :
    {P : Outside → Type 0} (s t : Server) → Step P s t → t.handler.router ≡ s.handler.router
unfolding update_server apply_security update_security_rules
Step-router _ _ (tool_call ctx o c s ok) = refl
Step-router _ _ (reload sql_open marshal mkdir cfg none s) = refl
Step-router _ _ (reload sql_open marshal mkdir cfg (some c) s) = refl

Runs-router :
    {P : Outside → Type 0} {s t : Server} → Runs P s t → t.handler.router ≡ s.handler.router
Runs-router start = refl
Runs-router (and_then t u run step) = Step-router t u step ∙ Runs-router run

Step-validator : {P : Outside → Type 0} (s t : Server) → Step P s t → t.validator ≡ s.validator
unfolding update_server
Step-validator _ _ (tool_call ctx o c s ok) = refl
Step-validator _ _ (reload sql_open marshal mkdir cfg security s) = refl

pub Runs-validator : {P : Outside → Type 0} {s t : Server} → Runs P s t → t.validator ≡ s.validator
Runs-validator start = refl
Runs-validator (and_then t u run step) = Step-validator t u step ∙ Runs-validator run

-- A database that a server does not know stays unknown: after any sequence of reloads and of calls of
-- the tools, whatever databases were loaded, every statement for it is refused by
-- the router, and nothing of it is sent.
pub running_keeps_databases {ℓ} :
    {R : Type ℓ} {P : Outside → Type 0} (answers : Answers R) (s t : Server) (database sql : Text)
    → lookup database s.handler.router.databases ≡ none
    → Runs P s t
    → ((query answers t.handler.router t.state.pool database sql).result
        ≡ inl (unknown_database database))
      × ((query answers t.handler.router t.state.pool database sql).sent ≡ [])
      × ((exec answers t.handler.router t.state.pool database sql).result
          ≡ inl (unknown_database database))
      × ((exec answers t.handler.router t.state.pool database sql).sent ≡ [])
unfolding query exec run_statement run_behind get_db
running_keeps_databases answers s t database sql unknown run =
    let same = Runs-router run in
    let absent : lookup database t.handler.router.databases ≡ none = rw same unknown in ground arith
