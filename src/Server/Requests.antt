-- ===== src/Server/Requests.antt =====
-- internal/server/http.go, ratelimit.go and cmd/server/main.go together: requests that go through the
-- middleware to the tools of a process, rounds of its watcher, and rounds of the limiter's cleanup, in
-- any order. What the MCP SDK makes of a request to /mcp, the calls of the tools and the response, is
-- part of the event, and so is what the calls find outside.
pub mod Trace
pub mod Traced
pub mod Attested
pub mod Trail
pub mod Answered
use safe_my_sqlmcp_server.Base.{ℕ, Text, Bool, true, false, List, [], ◌∷◌, Option, if◌then◌else◌}
use safe_my_sqlmcp_server.Config.Watcher.{Round}
use safe_my_sqlmcp_server.Auth.{Jwt}
use safe_my_sqlmcp_server.Auth.Context.{Context}
use safe_my_sqlmcp_server.Mcp.Tools.{Call, Outside, Result, Told, panics, told, call_tool}
use safe_my_sqlmcp_server.Server.RateLimit.{cleanup}
use safe_my_sqlmcp_server.Server.Serving.{HttpRequest, Reply, Front, serve}
use safe_my_sqlmcp_server.Server.Main.{Process, tool_call, round, happen}

-- What the SDK does with a request: the calls of the tools that it makes with the context of this
-- request, and its response to their results
pub record Exchange : Type 0 where
  pub calls : List Call
  pub outside : Outside
  pub respond : List Result → Reply

pub data Event : Type 0 where
  request : HttpRequest → Exchange → Event
  watcher_round : Round → Event
  cleanup_round : ℕ → Event

abbrev pub is_panic : Told → Bool
is_panic panics = true
is_panic _ = false

-- The calls of one request, up to the first that panics
unfoldable pub call_tools : Context → Outside → List Call → Process → Process × List Result
unfolding happen
call_tools ctx o [] m = (m, [])
call_tools ctx o (c ∷ cs) m =
    let result = (call_tool ctx o m.server.handler c m.server.state).1 in
    let m' = happen (tool_call ctx o c) m in
    let (end, results) = call_tools ctx o cs m' in
    if is_panic (told result) then (m', result ∷ []) else (end, result ∷ results)

-- The handler of the SDK behind the authentication. The calls are those that the SDK makes with the
-- context of this request: where a session keeps the context of the request that created it, the
-- calls of its later requests are calls of that one here.
unfoldable pub handle_exchange : Exchange → Context → Process → Process × Reply
unfolding call_tools
handle_exchange x ctx m =
    let (m', results) = call_tools ctx x.outside x.calls m in (m', x.respond results)

module _ {ℓ} {L : Type ℓ} (parse_ip : Text → Bool) (host_of : Text → Option Text) (new : L)
    (allow : ℕ → L → L × Bool) (jwt : ℕ → Jwt) where
  -- One event. The jwt library reads a token at the time of the request.
  unfoldable pub serve_event : Event → Front L Process → Front L Process
  unfolding serve handle_exchange
  serve_event (request r x) w =
      (serve parse_ip host_of new allow (jwt r.now) w.inner.server.validator (handle_exchange x) r
        w).0
  serve_event (watcher_round r) w = record w { inner = happen (round r) w.inner }
  serve_event (cleanup_round now) w = record w { limiters = cleanup now w.limiters w.limiters }

  unfoldable pub serve_events : List Event → Front L Process → Front L Process
  unfolding serve_event
  serve_events [] w = w
  serve_events (e ∷ es) w = serve_events es (serve_event e w)
