-- ===== src/Server/Serving/Reached.antt =====
-- internal/server/http.go: what a request gets that passes the whole chain of middleware.
use safe_my_sqlmcp_server.Base.{ℕ, Text, codes, Bool, true, [], ◌∷◌, Option, ◌≡◌, ◌∙◌, ap}
use safe_my_sqlmcp_server.Auth.{Validator, Jwt, admitted, authenticate}
use safe_my_sqlmcp_server.Auth.Context.{Context, context_with_user}
use safe_my_sqlmcp_server.Metrics.{requests_active, inc, call, record_auth_attempt}
use safe_my_sqlmcp_server.Server.RateLimit.{rate_limit}
use safe_my_sqlmcp_server.Server.Serving.{
  path_of, mcp, HttpRequest, Reply, Front, note, finish, metrics_middleware, rate_limit_middleware,
  auth_middleware, serve_tools, endpoint_handler, serve,
}
use safe_my_sqlmcp_server.Server.Serving.Behind.{note-leaves}

module _ {ℓ κ} {L : Type ℓ} {S : Type κ} (parse_ip : Text → Bool) (host_of : Text → Option Text)
    (new : L) (allow : ℕ → L → L × Bool) (jwt : Jwt) (v : Validator)
    (tools : Context → S → S × Reply) where
  -- The tools have served a user: the response is theirs, and what is behind is as they left it.
  abbrev pub Serves : (id email : Text) → S → Front L S × Reply → Type κ
  Serves id email s o =
      (o.1 ≡ (tools (context_with_user [] id email) s).1)
      × (o.0.inner ≡ (tools (context_with_user [] id email) s).0)

  auth-Serves :
      (r : HttpRequest) (id email : Text) (w : Front L S)
      → authenticate jwt v r.authorization ≡ admitted id email
      → Serves id email w.inner (endpoint_handler parse_ip host_of new allow jwt v tools r mcp w)
  unfolding endpoint_handler auth_middleware serve_tools
  auth-Serves r id email w passed =
      let noted = note-leaves (record_auth_attempt (codes "jwt") true) w in
      rw (endpoint_handler, auth_middleware, passed)
        (
          ap (λ s. (tools (context_with_user [] id email) s).1) noted.0,
          ap (λ s. (tools (context_with_user [] id email) s).0) noted.0,
        )

  limited-Serves :
      (r : HttpRequest) (id email : Text) (w : Front L S)
      → (rate_limit parse_ip host_of new allow r.now r.origin w.limiters).1 ≡ true
      → authenticate jwt v r.authorization ≡ admitted id email
      → Serves id email w.inner (
          rate_limit_middleware parse_ip host_of new allow jwt v tools r
            (endpoint_handler parse_ip host_of new allow jwt v tools r mcp)
            w)
  unfolding rate_limit_middleware
  limited-Serves r id email w room passed =
      let limiters = (rate_limit parse_ip host_of new allow r.now r.origin w.limiters).0 in
      rw (rate_limit_middleware, room)
        (auth-Serves r id email (record w { limiters = limiters }) passed)

  -- A request to /mcp for which its limiter has room, and whose user is admitted
  pub serve-Serves :
      (r : HttpRequest) (id email : Text) (w : Front L S)
      → r.endpoint ≡ mcp
      → (rate_limit parse_ip host_of new allow r.now r.origin w.limiters).1 ≡ true
      → authenticate jwt v r.authorization ≡ admitted id email
      → Serves id email w.inner (serve parse_ip host_of new allow jwt v tools r w)
  unfolding serve metrics_middleware note
  serve-Serves r id email w to room passed =
      let begun = record w { calls = call requests_active [] inc ∷ w.calls } in
      let o =
        rate_limit_middleware parse_ip host_of new allow jwt v tools r
          (endpoint_handler parse_ip host_of new allow jwt v tools r mcp) begun in
      let noted = note-leaves (finish (path_of mcp) r.method r.duration o.1) o.0 in
      let served = limited-Serves r id email begun room passed in
      rw (serve, to) (served.0, noted.0 ∙ served.1)
