-- ===== src/Server/Interleaved.antt =====
-- internal/mcp/tools.go and internal/server/http.go, with the calls of the tool `query` and of
-- UpdateConfig interleaved. Only the single reads and updates of the rules are under a mutex: a call
-- that is checked by some rules may be rewritten by others, and a reload replaces the
-- configuration, the rules of the checker, those of the rewriter, the pool and the log one after
-- the other, while calls and other reloads run.
pub mod Vetted
pub mod Guarded
pub mod Overlap
use safe_my_sqlmcp_server.Base.{Text, Bool, List, [], ◌∷◌, ◌++◌, Option, none, some, ◌≡◌, refl}
use safe_my_sqlmcp_server.Config.{Config, SecurityConfig, SecurityRules}
use safe_my_sqlmcp_server.Config.Reloadable.{update_config}
use safe_my_sqlmcp_server.Security.Checker.{Checker, update_checker}
use safe_my_sqlmcp_server.Security.Rewriter.{Rewriter, update_rewriter}
use safe_my_sqlmcp_server.Security.Parser.{TidbResult}
use safe_my_sqlmcp_server.Audit.{Entry, update_logger}
use safe_my_sqlmcp_server.Database.Pool.{update_pool}
use safe_my_sqlmcp_server.Mcp.Handler.{Env, Handler, update_security_rules}
use safe_my_sqlmcp_server.Mcp.Query.{execute_query}
use safe_my_sqlmcp_server.Server.{Server, apply_security, update_server, call_on}
use safe_my_sqlmcp_server.Auth.Context.{Context}
use safe_my_sqlmcp_server.Mcp.Tools.{Call, Outside}

-- How far a call of executeQuery has come: it has not asked the checker yet, it has, or it has
-- asked the rewriter too. What it asked is kept as it was then.
pub data Phase : Type 0 where
  parsing : Phase
  checked : Checker → Phase
  rewritten : Checker → Rewriter → Phase

pub record Job : Type 0 where
  pub env : Env
  pub database : Text
  pub sql : Text
  pub phase : Phase

-- What a call asks next
unfoldable pub ask_next : Handler → Phase → Phase
ask_next h parsing = checked h.checker
ask_next h (checked c) = rewritten c h.rewriter
ask_next h (rewritten c w) = rewritten c w

abbrev pub advance : Handler → Job → Job
advance h j = record j { phase = ask_next h j.phase }

-- The handler as a call has seen it
abbrev pub seen_by : Checker → Rewriter → Handler → Handler
seen_by c w h = record h { checker = c; rewriter = w }

-- The rest of a call: it runs the statement that was checked and rewritten, and logs it.
unfoldable pub finish : Job → Checker → Rewriter → Server → Server
finish j c w s = record s {
  state = (execute_query j.env (seen_by c w s.handler) j.database j.sql s.state).0;
}

-- The updates that UpdateConfig consists of
pub data Update : Type 0 where
  set_config : Config → Option SecurityConfig → Update
  set_checker set_rewriter : SecurityRules → Update
  set_pool set_log : Config → Update

module _ (sql_open : Text → Bool) (marshal : Entry → Option Text) (mkdir : Text → Bool) where
  unfoldable pub apply_update : Update → Server → Server
  apply_update (set_config cfg security) s = record s {
    handler = record s.handler { config = update_config cfg security s.handler.config };
  }
  apply_update (set_checker r) s = record s {
    handler = record s.handler { checker = update_checker s.handler.checker (some r) };
  }
  apply_update (set_rewriter r) s = record s {
    handler = record s.handler { rewriter = update_rewriter s.handler.rewriter (some r) };
  }
  apply_update (set_pool cfg) s = record s {
    state = record s.state { pool = update_pool sql_open cfg.clusters s.state.pool };
  }
  apply_update (set_log cfg) s = record s {
    state = record s.state { logger = (update_logger marshal mkdir cfg.audit s.state.logger).0 };
  }

  unfoldable pub apply_updates : List Update → Server → Server
  unfolding apply_update
  apply_updates [] s = s
  apply_updates (a ∷ rest) s = apply_updates rest (apply_update a s)

-- `if security != nil { s.handler.UpdateSecurityRules(&security.Security) }`
abbrev pub rule_updates : Option SecurityConfig → List Update
rule_updates none = []
rule_updates (some c) = set_checker c.security ∷ set_rewriter c.security ∷ []

-- (*Server).UpdateConfig
unfoldable pub updates_of : Config → Option SecurityConfig → List Update
updates_of cfg security =
    set_config cfg security ∷ (rule_updates security ++ set_pool cfg ∷ set_log cfg ∷ [])

-- The updates, with nothing in between, are UpdateConfig.
pub apply_updates_of :
    (sql_open : Text → Bool) (marshal : Entry → Option Text) (mkdir : Text → Bool) (cfg : Config)
    (security : Option SecurityConfig) (s : Server)
    → apply_updates sql_open marshal mkdir (updates_of cfg security) s
      ≡ update_server sql_open marshal mkdir cfg security s
unfolding apply_updates updates_of update_server apply_security update_security_rules
apply_updates_of sql_open marshal mkdir cfg none s = refl
apply_updates_of sql_open marshal mkdir cfg (some c) s = refl

-- The phases of a call, with nothing in between, are executeQuery.
pub finish_alone :
    (j : Job) (s : Server)
    → finish j s.handler.checker s.handler.rewriter s
      ≡ record s { state = (execute_query j.env s.handler j.database j.sql s.state).0 }
unfolding finish
finish_alone j s = refl

-- A server, the calls of `query` that it runs, and what its reloads have still to update.
pub record Live : Type 0 where
  pub server : Server
  pub jobs : List Job
  pub reloads : List (List Update)

-- A step, in a process whose texts are read by one parser.
pub data Step (tidb : Text → TidbResult) : Live → Live → Type 0 where
  begins :
      (env : Env) (database sql : Text) (l : Live)
      → env.tidb ≡ tidb
      → Step tidb l (record l {
        jobs = record { env = env; database = database; sql = sql; phase = parsing } ∷ l.jobs;
      })
  asks :
      (xs ys : List Job) (j : Job) (l : Live)
      → l.jobs ≡ xs ++ j ∷ ys
      → Step tidb l (record l { jobs = xs ++ advance l.server.handler j ∷ ys })
  finishes :
      (xs ys : List Job) (j : Job) (c : Checker) (w : Rewriter) (l : Live)
      → l.jobs ≡ xs ++ j ∷ ys
      → j.phase ≡ rewritten c w
      → Step tidb l (record l { server = finish j c w l.server; jobs = xs ++ ys })
  reloads :
      (cfg : Config) (security : Option SecurityConfig) (l : Live)
      → Step tidb l (record l { reloads = updates_of cfg security ∷ l.reloads })
  updates :
      (sql_open : Text → Bool) (marshal : Entry → Option Text) (mkdir : Text → Bool)
      (xs ys : List (List Update)) (a : Update) (rest : List Update) (l : Live)
      → l.reloads ≡ xs ++ (a ∷ rest) ∷ ys
      → Step tidb l (record l {
        server = apply_update sql_open marshal mkdir a l.server;
        reloads = xs ++ rest ∷ ys;
      })
  -- A call of another tool, or one of `query` with nothing in between
  calls :
      (ctx : Context) (o : Outside) (c : Call) (l : Live)
      → o.env.tidb ≡ tidb
      → Step tidb l (record l { server = call_on ctx o c l.server })

pub data Runs (tidb : Text → TidbResult) (k : Live) : Live → Type 0 where
  start : Runs tidb k k
  and_then : (l m : Live) → Runs tidb k l → Step tidb l m → Runs tidb k m
