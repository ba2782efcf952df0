-- ===== src/Server/Serving/Behind.antt =====
-- internal/server/http.go: what a request changes behind the chain of middleware.
use safe_my_sqlmcp_server.Base.{
  ℕ, Text, codes, Bool, false, true, List, [], ◌∷◌, Option, ◌≡◌, ◌∙◌, ◌⊎◌, inl, inr, refl, ap,
  Bool-cases,
}
use safe_my_sqlmcp_server.Auth.{Validator, Jwt, admitted, authenticate}
use safe_my_sqlmcp_server.Auth.Context.{Context, context_with_user}
use safe_my_sqlmcp_server.Metrics.{
  requests_active, inc, Call, call, record_auth_attempt, record_rate_limit_exceeded,
}
use safe_my_sqlmcp_server.Server.RateLimit.{get_real_ip, rate_limit}
use safe_my_sqlmcp_server.Server.Serving.{
  path_of, Endpoint, mcp, health, HttpRequest, Reply, Front, note, finish, handle_health,
  metrics_middleware, rate_limit_middleware, auth_middleware, serve_tools, endpoint_handler, serve,
}
use safe_my_sqlmcp_server.Server.Serving.Fates.{Fate, reached_tools, is_reached, fate_behind, fate}
use safe_my_sqlmcp_server.Server.Serving.Counting.{Admission-cases}

module _ {ℓ κ} {L : Type ℓ} {S : Type κ} where
  pub note-leaves :
      (cs : List Call) (w : Front L S)
      → ((note cs w).inner ≡ w.inner) × ((note cs w).limiters ≡ w.limiters)
  unfolding note
  note-leaves [] w = (refl, refl)
  note-leaves (c ∷ cs) w = note-leaves cs (record w { calls = c ∷ w.calls })

  module _ (parse_ip : Text → Bool) (host_of : Text → Option Text) (new : L)
      (allow : ℕ → L → L × Bool) (jwt : Jwt) (v : Validator) (tools : Context → S → S × Reply) where
    -- What a request with some fate leaves: what is behind the handlers is as it was, or the request
    -- reached the tools, its user was admitted, and the tools did it.
    abbrev pub Leaves : HttpRequest → Fate → S → S → Type κ
    Leaves r f s s' =
        ((is_reached f ≡ false) × (s' ≡ s))
        ⊎ ((id : Text) × (email : Text) × (f ≡ reached_tools)
            × (authenticate jwt v r.authorization ≡ admitted id email)
            × (s' ≡ (tools (context_with_user [] id email) s).0))

    endpoint-Leaves :
        (r : HttpRequest) (p : Endpoint) (w : Front L S)
        → let w' = (endpoint_handler parse_ip host_of new allow jwt v tools r p w).0 in
          Leaves r (fate_behind jwt v r p) w.inner w'.inner × (w'.limiters ≡ w.limiters)
    unfolding endpoint_handler auth_middleware serve_tools handle_health
    endpoint-Leaves r health w = (inl (refl, refl), refl)
    endpoint-Leaves r mcp w = elim (Admission-cases (authenticate jwt v r.authorization)) [
      | inl (e, bad) ↦
          let noted = note-leaves (record_auth_attempt (codes "jwt") false) w in
          rw (endpoint_handler, auth_middleware, bad) (inl (refl, noted.0), noted.1)
      | inr (id, email, good) ↦
          let noted = note-leaves (record_auth_attempt (codes "jwt") true) w in
          rw (endpoint_handler, auth_middleware, good)
            (
              inr (
                id,
                email,
                refl,
                refl,
                ap (λ s. (tools (context_with_user [] id email) s).0) noted.0,
              ),
              noted.1,
            )
    ]

    limited-Leaves :
        (r : HttpRequest) (w : Front L S)
        → let w' =
            (rate_limit_middleware parse_ip host_of new allow jwt v tools r
              (endpoint_handler parse_ip host_of new allow jwt v tools r r.endpoint)
              w).0 in
          Leaves r (fate parse_ip host_of new allow jwt v r w.limiters) w.inner w'.inner
          × (w'.limiters ≡ (rate_limit parse_ip host_of new allow r.now r.origin w.limiters).0)
    unfolding rate_limit_middleware
    limited-Leaves r w =
        let limiter = rate_limit parse_ip host_of new allow r.now r.origin w.limiters in
        let seen = record w { limiters = limiter.0 } in
        elim (Bool-cases limiter.1) [
          | inl allowed ↦ rw (rate_limit_middleware, allowed) (endpoint-Leaves r r.endpoint seen)
          | inr over ↦
              let ip = get_real_ip parse_ip host_of r.origin in
              let noted = note-leaves (record_rate_limit_exceeded ip) seen in
              rw (rate_limit_middleware, over) (inl (refl, noted.0), noted.1)
        ]

    -- A request leaves the limiters as its limiter leaves them, and what is behind as its fate says.
    pub serve-Leaves :
        (r : HttpRequest) (w : Front L S)
        → let w' = (serve parse_ip host_of new allow jwt v tools r w).0 in
          Leaves r (fate parse_ip host_of new allow jwt v r w.limiters) w.inner w'.inner
          × (w'.limiters ≡ (rate_limit parse_ip host_of new allow r.now r.origin w.limiters).0)
    unfolding serve metrics_middleware note
    serve-Leaves r w =
        let begun = record w { calls = call requests_active [] inc ∷ w.calls } in
        let next = endpoint_handler parse_ip host_of new allow jwt v tools r r.endpoint in
        let o = rate_limit_middleware parse_ip host_of new allow jwt v tools r next begun in
        let noted = note-leaves (finish (path_of r.endpoint) r.method r.duration o.1) o.0 in
        let behind = limited-Leaves r begun in (rw (noted.0) behind.0, noted.1 ∙ behind.1)
