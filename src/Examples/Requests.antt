-- ===== src/Examples/Requests.antt =====
-- Requests to a process that was started with rules, and calls of its tools.
use safe_my_sqlmcp_server.Examples.Tokens.{signed}
use safe_my_sqlmcp_server.Base.{
  ◌++◌, none, All, ℕ, codes, insert, format_ℤ, true, List, [], ◌∷◌, ◌≡◌, ◌↔◌, refl,
}
use safe_my_sqlmcp_server.Config.Reloadable.{get_security}
use safe_my_sqlmcp_server.Config.Loading.{new_reloadable, load, load_rules, load_security}
use safe_my_sqlmcp_server.Auth.{new_validator_from_env}
use safe_my_sqlmcp_server.Audit.{new_logger}
use safe_my_sqlmcp_server.Database.Pool.{new_pool, get_dsn}
use safe_my_sqlmcp_server.Mcp.Tools.{query_call, told, panics, call_tool}
use safe_my_sqlmcp_server.Mcp.Tools.Panics.{IsEmptyCall, panics_iff}
use safe_my_sqlmcp_server.Server.{new_server, new_with}
use safe_my_sqlmcp_server.Server.Serving.{Front, reply, HttpRequest}
use safe_my_sqlmcp_server.Server.Main.{Process, start}
use safe_my_sqlmcp_server.Server.Requests.{
  Exchange, Event, request, watcher_round, cleanup_round, serve_events,
}
use safe_my_sqlmcp_server.Server.Requests.Trace.{Trace}
use safe_my_sqlmcp_server.Server.Requests.Attested.{IsAttested}
use safe_my_sqlmcp_server.Server.Requests.Trail.{audit_trail}
use safe_my_sqlmcp_server.Audit.Laws.{lines_of}
use safe_my_sqlmcp_server.Examples.RateLimit.{count_down, host_of}
use safe_my_sqlmcp_server.Examples.Auth.{Verifies, jwt, jwt-IsSound}
use safe_my_sqlmcp_server.Examples.Samples.{marshal, mkdir, handler, state, remark}
use safe_my_sqlmcp_server.Examples.Server.{secret, started}
use safe_my_sqlmcp_server.Examples.Serving.{post, anonymous}
use safe_my_sqlmcp_server.Examples.Tools.{caller, outside, app_query}
use safe_my_sqlmcp_server.Examples.Watching.{guarded_files, guarded, path, signal}

abbrev exchange : Exchange
exchange = record {
  calls = query_call app_query ∷ [];
  outside = outside;
  respond = λ results. reply 200;
}

abbrev events : List Event
events =
    request anonymous exchange
    ∷ request post exchange
    ∷ watcher_round signal
    ∷ cleanup_round 400_000_000_000
    ∷ request post exchange
    ∷ []

abbrev front : Front ℕ Process
front = record { limiters = []; inner = guarded; calls = [] }

audit_trail_example :
    let w' = serve_events (λ ip. true) host_of 4 count_down (λ now. jwt) events front in
    All
      (IsAttested marshal Verifies (λ now. jwt) guarded.server.validator)
      (lines_of w'.inner.server.state.logger)
unfolding start new_reloadable load load_rules load_security new_server new_with
    new_validator_from_env new_pool get_dsn get_security new_logger insert format_ℤ
audit_trail_example =
    audit_trail (λ dsn. true) marshal mkdir Verifies (λ now. jwt) (λ ip. true) host_of 4 count_down
      guarded_files secret true 7 path events front (refl, (refl, (tt, (tt, (refl, tt)))))
      (λ now. jwt-IsSound) refl

panics_iff_example :
    ((told
          (call_tool caller outside handler
            (query_call (record { database = codes "app"; sql = remark }))
            state).1
        ≡ panics)
      ↔ IsEmptyCall outside.env (query_call (record { database = codes "app"; sql = remark })))
    × (IsEmptyCall outside.env (query_call (record { database = codes "app"; sql = remark }))
        → (call_tool caller outside handler
            (query_call (record { database = codes "app"; sql = remark }))
            state).0
          ≡ state)
panics_iff_example =
    panics_iff caller outside handler (query_call (record { database = codes "app"; sql = remark }))
      state

-- A process that has served nobody, and a request with a token that it has made
abbrev ready : Front ℕ Process
ready = record {
  limiters = [];
  inner = record { server = record started { state = state }; watcher = none };
  calls = [];
}

abbrev signed_post : HttpRequest
signed_post = record post { authorization = codes "Bearer " ++ signed }
