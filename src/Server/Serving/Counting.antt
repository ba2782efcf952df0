-- ===== src/Server/Serving/Counting.antt =====
-- internal/server/http.go: what one request adds to the counters of the metrics.
use safe_my_sqlmcp_server.Base.{
  ℕ, suc, Text, Bool, ◌&&◌, List, [], ◌∷◌, Option, ◌≡◌, ◌⊎◌, inl, inr, ap, ◌∙◌, not, codes,
  format_ℕ, refl, Bool-cases,
}
use safe_my_sqlmcp_server.Auth.{
  AuthError, Validator, Jwt, Admission, refused, admitted, authenticate,
}
use safe_my_sqlmcp_server.Auth.Context.{Context}
use safe_my_sqlmcp_server.Metrics.{
  Series, requests_total, requests_active, request_duration, observe_duration, call,
  rate_limit_exceeded, auth_attempts, auth_failures, Op, inc, dec, Call, record_auth_attempt,
  record_rate_limit_exceeded,
}
use safe_my_sqlmcp_server.Server.RateLimit.{get_real_ip, rate_limit}
use safe_my_sqlmcp_server.Server.Serving.Fates.{
  bump, is_inc, is_dec, is_total, is_active, is_limit, is_attempt, is_failure, times, is_limited,
  is_rejected, is_checked, fate_behind, fate,
}
use safe_my_sqlmcp_server.Server.Serving.{
  Endpoint, path_of, mcp, health, HttpRequest, Reply, status_after, Front, note, handle_health,
  finish, metrics_middleware, rate_limit_middleware, auth_middleware, serve_tools, endpoint_handler,
  serve,
}

pub Admission-cases :
    (a : Admission)
    → ((e : AuthError) × (a ≡ refused e)) ⊎ ((id : Text) × (email : Text) × (a ≡ admitted id email))
Admission-cases (refused e) = inl (e, refl)
Admission-cases (admitted id email) = inr (id, email, refl)

-- The counters, as they stand after some calls: the two of the gauge of active requests, the requests
-- in all, those over the limit, and the failures and attempts of the authentication
pub record Counts (calls : List Call) (started ended totals limits failures attempts : ℕ)
    : Type 0 where
  pub starts : times is_active is_inc calls ≡ started
  pub ends : times is_active is_dec calls ≡ ended
  pub all : times is_total is_inc calls ≡ totals
  pub over_limit : times is_limit is_inc calls ≡ limits
  pub failed : times is_failure is_inc calls ≡ failures
  pub tried : times is_attempt is_inc calls ≡ attempts

abbrev adds : (Series → Bool) → (Op → Bool) → Call → ℕ → ℕ
adds s o c n = bump (s c.series && o c.op) n

Counts-call :
    {calls : List Call} {st e t l f a : ℕ} (c : Call)
    → Counts calls st e t l f a
    → Counts
        (c ∷ calls)
        (adds is_active is_inc c st)
        (adds is_active is_dec c e)
        (adds is_total is_inc c t)
        (adds is_limit is_inc c l)
        (adds is_failure is_inc c f)
        (adds is_attempt is_inc c a)
Counts-call c h = record {
  starts = ap (adds is_active is_inc c) h.starts;
  ends = ap (adds is_active is_dec c) h.ends;
  all = ap (adds is_total is_inc c) h.all;
  over_limit = ap (adds is_limit is_inc c) h.over_limit;
  failed = ap (adds is_failure is_inc c) h.failed;
  tried = ap (adds is_attempt is_inc c) h.tried;
}

finish-Counts {ℓ κ} :
    {L : Type ℓ} {S : Type κ} (path method : Text) (duration : ℕ) (answer : Reply) (w : Front L S)
    {st e t l f a : ℕ}
    → Counts w.calls st e t l f a
    → ((note (finish path method duration answer) w).limiters ≡ w.limiters)
      × Counts
          (note (finish path method duration answer) w).calls
          st
          (suc e)
          (bump (not answer.panicked) t)
          l
          f
          a
unfolding note finish
finish-Counts path method duration answer w h = elim (Bool-cases answer.panicked) [
  | inl panicked ↦ rw (finish, panicked) (refl, Counts-call (call requests_active [] dec) h)
  | inr returned ↦
      rw (finish, returned)
        (
          refl,
          Counts-call (call requests_active [] dec) (
              Counts-call (call request_duration (method ∷ path ∷ []) (observe_duration duration)) (
                Counts-call
                  (call requests_total
                    (method ∷ path ∷ format_ℕ (status_after 200 answer.written) ∷ []) inc)
                  h)),
        )
]

module _ {ℓ κ} {L : Type ℓ} {S : Type κ} (parse_ip : Text → Bool) (host_of : Text → Option Text)
    (new : L) (allow : ℕ → L → L × Bool) (jwt : Jwt) (v : Validator)
    (tools : Context → S → S × Reply) where
  -- What is behind the limiter keeps the limiters, and counts what the fate says.
  behind-Counts :
      (r : HttpRequest) (p : Endpoint) (w : Front L S) {st e t l f a : ℕ}
      → Counts w.calls st e t l f a
      → let o = endpoint_handler parse_ip host_of new allow jwt v tools r p w in
        let g = fate_behind jwt v r p in
        (o.0.limiters ≡ w.limiters)
        × Counts o.0.calls st e t
            (bump (is_limited g) l)
            (bump (is_rejected g) f)
            (bump (is_checked g) a)
  unfolding endpoint_handler auth_middleware serve_tools handle_health note record_auth_attempt
  behind-Counts r health w h = (refl, h)
  behind-Counts r mcp w h = elim (Admission-cases (authenticate jwt v r.authorization)) [
    | inl (e, bad) ↦
        rw (endpoint_handler, auth_middleware, bad)
          (
            refl,
            Counts-call (call auth_failures (codes "jwt" ∷ codes "invalid" ∷ []) inc)
                (Counts-call (call auth_attempts (codes "jwt" ∷ []) inc) h),
          )
    | inr (id, email, good) ↦
        rw (endpoint_handler, auth_middleware, good)
          (refl, Counts-call (call auth_attempts (codes "jwt" ∷ []) inc) h)
  ]

  limited-Counts :
      (r : HttpRequest) (w : Front L S) {st e t l f a : ℕ}
      → Counts w.calls st e t l f a
      → let o =
          rate_limit_middleware parse_ip host_of new allow jwt v tools r
            (endpoint_handler parse_ip host_of new allow jwt v tools r r.endpoint)
            w in
        let g = fate parse_ip host_of new allow jwt v r w.limiters in
        (o.0.limiters ≡ (rate_limit parse_ip host_of new allow r.now r.origin w.limiters).0)
        × Counts o.0.calls st e t
            (bump (is_limited g) l)
            (bump (is_rejected g) f)
            (bump (is_checked g) a)
  unfolding rate_limit_middleware note record_rate_limit_exceeded
  limited-Counts r w h =
      let limiter = rate_limit parse_ip host_of new allow r.now r.origin w.limiters in
      let ip = get_real_ip parse_ip host_of r.origin in
      elim (Bool-cases limiter.1) [
        | inl allowed ↦
            rw (rate_limit_middleware, allowed)
              (behind-Counts r r.endpoint (record w { limiters = limiter.0 }) h)
        | inr over ↦
            rw (rate_limit_middleware, over)
              (refl, Counts-call (call rate_limit_exceeded (ip ∷ []) inc) h)
      ]

  pub serve-Counts :
      (r : HttpRequest) (w : Front L S) {n t l f a : ℕ}
      → Counts w.calls n n t l f a
      → let o = serve parse_ip host_of new allow jwt v tools r w in
        let g = fate parse_ip host_of new allow jwt v r w.limiters in
        (o.0.limiters ≡ (rate_limit parse_ip host_of new allow r.now r.origin w.limiters).0)
        × Counts o.0.calls
            (suc n)
            (suc n)
            (bump (not o.1.panicked) t)
            (bump (is_limited g) l)
            (bump (is_rejected g) f)
            (bump (is_checked g) a)
  unfolding serve metrics_middleware note
  serve-Counts r w h =
      let begun = record w { calls = call requests_active [] inc ∷ w.calls } in
      let next = endpoint_handler parse_ip host_of new allow jwt v tools r r.endpoint in
      let o = rate_limit_middleware parse_ip host_of new allow jwt v tools r next begun in
      let (kept, counted) = limited-Counts r begun (Counts-call (call requests_active [] inc) h) in
      let (same, finished) =
        finish-Counts (path_of r.endpoint) r.method r.duration o.1 o.0 counted in
      (same ∙ kept, finished)
