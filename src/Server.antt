-- ===== src/Server.antt =====
-- internal/server/http.go: how the server is put together, and what a reload of the configuration
-- replaces while it runs.
pub mod Running
pub mod RateLimit
pub mod Main
pub mod Serving
pub mod Requests
pub mod Interleaved
use safe_my_sqlmcp_server.Base.{
  ℕ, ◌*◌, Text, codes, format_ℤ, ◌++◌, Bool, true, List, [], Option, none, some, ◌⊎◌, inl, inr,
}
use safe_my_sqlmcp_server.Config.{Config, SecurityConfig, second}
use safe_my_sqlmcp_server.Config.Reloadable.{ReloadableConfig, get_security, update_config}
use safe_my_sqlmcp_server.Auth.{AuthError, Validator, new_validator_from_env}
use safe_my_sqlmcp_server.Audit.{Entry, new_logger, update_logger, close_logger}
use safe_my_sqlmcp_server.Database.Pool.{Pool, PoolError, new_pool, update_pool, close}
use safe_my_sqlmcp_server.Auth.Context.{Context}
use safe_my_sqlmcp_server.Mcp.Handler.{Handler, State, update_security_rules}
use safe_my_sqlmcp_server.Mcp.Tools.{Call, Outside, call_tool}

-- Server. The reloadable configuration is the one that the handler points to, and the state has the
-- pool and the audit logger.
pub record Server : Type 0 where
  pub validator : Validator
  pub handler : Handler
  pub state : State

pub data ServerError : Type 0 where
  no_validator : AuthError → ServerError
  no_pool : PoolError → ServerError
  no_logger : ServerError

-- `if security != nil { s.handler.UpdateSecurityRules(&security.Security) }`
unfoldable pub apply_security : Option SecurityConfig → Handler → Handler
apply_security none h = h
apply_security (some c) h = update_security_rules (some c.security) h

module _ (sql_open : Text → Bool) (marshal : Entry → Option Text) (mkdir : Text → Bool) where
  -- The end of New, with the pool that was opened
  unfoldable pub new_with : ReloadableConfig → Validator → Pool → ServerError ⊎ Server
  new_with rc validator pool = elim (new_logger marshal mkdir rc.config.audit) [
    | none ↦ inl no_logger
    | some logger ↦ inr (record {
      validator = validator;
      handler = record {
        router = record { databases = rc.config.databases };
        checker = record { rules = get_security rc };
        rewriter = record { rules = get_security rc };
        config = rc;
      };
      state = record { pool = pool; logger = logger; sent = []; asked = [] };
    })
  ]

  -- New, with the value of the environment variable of the secret and the number of the first handle
  unfoldable pub new_server : Text → ℕ → ReloadableConfig → ServerError ⊎ Server
  new_server env_secret id rc =
      elim (new_validator_from_env env_secret rc.config.server.jwt_secret) [
        | inl e ↦ inl (no_validator e)
        | inr validator ↦
            let (pool, failure) = new_pool sql_open id rc.config.clusters in
            elim failure [ some e ↦ inl (no_pool e) | none ↦ new_with rc validator pool ]
      ]

  -- (*Server).UpdateConfig, where no call and no other reload runs in between: the updates that it
  -- consists of are `updates_of` of Server/Interleaved, where they are steps.
  unfoldable pub update_server : Config → Option SecurityConfig → Server → Server
  update_server cfg security s = record s {
    handler =
        apply_security security
          (record s.handler { config = update_config cfg security s.handler.config });
    state = record s.state {
      pool = update_pool sql_open cfg.clusters s.state.pool;
      logger = (update_logger marshal mkdir cfg.audit s.state.logger).0;
    };
  }

-- http.Server, as Start sets it up, with durations in nanoseconds
pub record HttpServer : Type 0 where
  pub address : Text
  pub read_timeout : ℕ
  pub write_timeout : ℕ
  pub idle_timeout : ℕ

-- The server that Start makes and listens on
unfoldable pub start_server : Server → HttpServer
start_server s =
    let cfg = s.handler.config.config in
    record {
      address = cfg.server.host ++ (codes ":" ++ format_ℤ cfg.server.port);
      read_timeout = 30 * second;
      write_timeout = 60 * second;
      idle_timeout = 120 * second;
    }

-- The server behind a call of a tool
abbrev pub call_on : Context → Outside → Call → Server → Server
call_on ctx o c s = record s { state = (call_tool ctx o s.handler c s.state).0 }

-- (*Server).Shutdown, once the HTTP server has stopped. Its errors are only reported.
unfoldable pub shutdown : Server → Server
shutdown s = record s {
  state = record s.state { pool = close s.state.pool; logger = close_logger s.state.logger };
}
