-- ===== src/Server/Serving.antt =====
-- internal/server/http.go and ratelimit.go: the chain of middleware that a request passes, the metrics
-- outside, then the rate limiter, then the authentication, and the endpoints behind it. The handler of
-- the MCP SDK, which calls the tools, is a parameter, and so are the limiters and the jwt library.
pub mod Fates
pub mod Behind
pub mod Reached
pub mod Counting
pub mod Counters
use safe_my_sqlmcp_server.Base.{
  ℕ, Option, Text, codes, format_ℕ, Map, Bool, true, false, List, [], ◌∷◌, if◌then◌else◌,
}
use safe_my_sqlmcp_server.Auth.{Validator, Jwt, refused, admitted, authenticate}
use safe_my_sqlmcp_server.Auth.Context.{Context, context_with_user}
use safe_my_sqlmcp_server.Metrics.{
  Series, requests_total, request_duration, requests_active, inc, dec, observe_duration, Call, call,
  record_auth_attempt, record_rate_limit_exceeded,
}
use safe_my_sqlmcp_server.Server.RateLimit.{IpEntry, Request, get_real_ip, rate_limit}

-- The paths of the mux, but for /metrics, whose handler is the library's
pub data Endpoint : Type 0 where
  mcp health : Endpoint

abbrev pub path_of : Endpoint → Text
path_of mcp = codes "/mcp"
path_of health = codes "/health"

-- A request, with the time at which the limiter sees it and how long it takes
pub record HttpRequest : Type 0 where
  pub endpoint : Endpoint
  pub method : Text
  pub authorization : Text
  pub origin : Request
  pub now : ℕ
  pub duration : ℕ

-- What a handler does with the response: the statuses that it gives to `WriteHeader`, and whether it
-- ends in a panic.
pub record Reply : Type 0 where
  pub written : List ℕ
  pub panicked : Bool

abbrev pub reply : ℕ → Reply
reply status = record { written = status ∷ []; panicked = false }

-- The status of a responseWriter after some calls of `WriteHeader`
unfoldable pub status_after : ℕ → List ℕ → ℕ
status_after status [] = status
status_after status (s ∷ written) = status_after s written

-- What metricsMiddleware calls behind the next handler: the deferred call is made in any case, the
-- others not if the handler panics.
unfoldable pub finish : Text → Text → ℕ → Reply → List Call
unfolding status_after
finish path method duration r =
    if r.panicked
    then call requests_active [] dec ∷ []
    else call requests_total (method ∷ path ∷ format_ℕ (status_after 200 r.written) ∷ []) inc
      ∷ call request_duration (method ∷ path ∷ []) (observe_duration duration)
      ∷ call requests_active [] dec
      ∷ []

-- What the handlers share: the limiters, what is behind the handler of the SDK, and the calls of the
-- metrics library so far, the latest first.
pub record Front {ℓ κ} (L : Type ℓ) (S : Type κ) : Type (ℓ ⊔ κ) where
  pub limiters : Map (IpEntry L)
  pub inner : S
  pub calls : List Call

module _ {ℓ κ} {L : Type ℓ} {S : Type κ} where
  -- More calls of the metrics library
  unfoldable pub note : List Call → Front L S → Front L S
  note [] w = w
  note (c ∷ cs) w = note cs (record w { calls = c ∷ w.calls })

  -- (*Server).handleHealth
  unfoldable pub handle_health : Front L S → Front L S × Reply
  handle_health w = (w, reply 200)

  -- (*Server).metricsMiddleware
  unfoldable pub metrics_middleware :
      Text → Text → ℕ → (Front L S → Front L S × Reply) → Front L S → Front L S × Reply
  unfolding note finish
  metrics_middleware path method duration next w =
      let (w', r) = next (note (call requests_active [] inc ∷ []) w) in
      (note (finish path method duration r) w', r)

  module _ (parse_ip : Text → Bool) (host_of : Text → Option Text) (new : L)
      (allow : ℕ → L → L × Bool) (jwt : Jwt) (v : Validator) (tools : Context → S → S × Reply) where
    -- (*Server).rateLimitMiddleware
    unfoldable pub rate_limit_middleware :
        HttpRequest → (Front L S → Front L S × Reply) → Front L S → Front L S × Reply
    unfolding note record_rate_limit_exceeded
    rate_limit_middleware r next w =
        let (limiters, allowed) = rate_limit parse_ip host_of new allow r.now r.origin w.limiters in
        let seen = record w { limiters = limiters } in
        elim allowed [
          | true ↦ next seen
          | false ↦ (
            note (record_rate_limit_exceeded (get_real_ip parse_ip host_of r.origin)) seen,
            reply 429,
          )
        ]

    -- (*Server).authMiddleware, for a handler that gets the context of the request
    unfoldable pub auth_middleware :
        HttpRequest → (Context → Front L S → Front L S × Reply) → Front L S → Front L S × Reply
    unfolding note record_auth_attempt
    auth_middleware r next w = elim (authenticate jwt v r.authorization) [
      | refused e ↦ (note (record_auth_attempt (codes "jwt") false) w, reply 401)
      | admitted id email ↦
          next (context_with_user [] id email) (note (record_auth_attempt (codes "jwt") true) w)
    ]

    -- The handler of the SDK
    unfoldable pub serve_tools : Context → Front L S → Front L S × Reply
    serve_tools ctx w = let (inner, r) = tools ctx w.inner in (record w { inner = inner }, r)

    -- What is behind the rate limiter at a path
    unfoldable pub endpoint_handler : HttpRequest → Endpoint → Front L S → Front L S × Reply
    unfolding auth_middleware serve_tools handle_health
    endpoint_handler r mcp = auth_middleware r serve_tools
    endpoint_handler r health = handle_health

    -- (*Server).Handler, on a request
    unfoldable pub serve : HttpRequest → Front L S → Front L S × Reply
    unfolding metrics_middleware rate_limit_middleware endpoint_handler
    serve r w =
        metrics_middleware (path_of r.endpoint) r.method r.duration
          (rate_limit_middleware r (endpoint_handler r r.endpoint)) w

    -- Requests, one after the other, and the replies to them
    unfoldable pub serve_all : List HttpRequest → Front L S → Front L S × List Reply
    unfolding serve
    serve_all [] w = (w, [])
    serve_all (r ∷ rs) w =
        let (w', answer) = serve r w in
        let (end, answers) = serve_all rs w' in (end, answer ∷ answers)
