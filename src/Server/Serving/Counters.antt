-- ===== src/Server/Serving/Counters.antt =====
-- internal/server/http.go: what the counters of the metrics say about the requests that were served.
use safe_my_sqlmcp_server.Base.{
  ℕ, ◌+◌, Text, length, Bool, List, [], ◌∷◌, Option, ◌≡◌, ◌∙◌, not, refl, arith,
}
use safe_my_sqlmcp_server.Auth.{Validator, Jwt}
use safe_my_sqlmcp_server.Auth.Context.{Context}
use safe_my_sqlmcp_server.Server.Serving.Fates.{
  number, is_inc, is_dec, is_total, is_active, is_limit, is_attempt, is_failure, times, is_limited,
  is_rejected, is_reached, is_checked, bump-swap, number-is_checked, fate, fates,
}
use safe_my_sqlmcp_server.Server.Serving.{HttpRequest, Reply, Front, serve, serve_all}
use safe_my_sqlmcp_server.Server.Serving.Counting.{Counts, serve-Counts}

module _ {ℓ κ} {L : Type ℓ} {S : Type κ} (parse_ip : Text → Bool) (host_of : Text → Option Text)
    (new : L) (allow : ℕ → L → L × Bool) (jwt : Jwt) (v : Validator)
    (tools : Context → S → S × Reply) where
  serve_all-Counts :
      (rs : List HttpRequest) (w : Front L S) {n t l f a : ℕ}
      → Counts w.calls n n t l f a
      → let (w', answers) = serve_all parse_ip host_of new allow jwt v tools rs w in
        let gs = fates parse_ip host_of new allow jwt v rs w.limiters in
        Counts w'.calls
          (length rs + n)
          (length rs + n)
          (number (λ x. not x.panicked) answers + t)
          (number is_limited gs + l)
          (number is_rejected gs + f)
          (number is_checked gs + a)
  unfolding serve_all
  serve_all-Counts [] w h = record {
    starts = omega (arith, h.starts);
    ends = omega (arith, h.ends);
    all = omega (arith, h.all);
    over_limit = omega (arith, h.over_limit);
    failed = omega (arith, h.failed);
    tried = omega (arith, h.tried);
  }
  serve_all-Counts (r ∷ rs) w {n} {t} {l} {f} {a} h =
      let o = serve parse_ip host_of new allow jwt v tools r w in
      let (kept, counted) = serve-Counts parse_ip host_of new allow jwt v tools r w h in
      let g = fate parse_ip host_of new allow jwt v r w.limiters in
      let gs = fates parse_ip host_of new allow jwt v rs o.0.limiters in
      let rest = serve_all-Counts rs o.0 counted in
      let answers = (serve_all parse_ip host_of new allow jwt v tools rs o.0).1 in
      rw (← kept) (record {
        starts = rest.starts ∙ omega arith;
        ends = rest.ends ∙ omega arith;
        all = rest.all ∙ bump-swap (not o.1.panicked) (number (λ x. not x.panicked) answers) t;
        over_limit = rest.over_limit ∙ bump-swap (is_limited g) (number is_limited gs) l;
        failed = rest.failed ∙ bump-swap (is_rejected g) (number is_rejected gs) f;
        tried = rest.tried ∙ bump-swap (is_checked g) (number is_checked gs) a;
      })

  -- After any requests to /mcp and /health, one after the other, of a server whose metrics were empty:
  -- the gauge of active requests was raised and lowered once for each request, also if its handler
  -- panicked; the counter of requests has those that ended without a panic; the counter of the limiter
  -- has the requests that the limiter refused; the failures of the authentication are the requests that
  -- passed the limiter and were refused for their token; and its attempts are these and the requests
  -- that reached the tools, while a health check is no attempt.
  pub counters_add_up :
      (rs : List HttpRequest) (w : Front L S)
      → w.calls ≡ []
      → let (w', answers) = serve_all parse_ip host_of new allow jwt v tools rs w in
        let gs = fates parse_ip host_of new allow jwt v rs w.limiters in
        (times is_active is_inc w'.calls ≡ length rs)
        × (times is_active is_dec w'.calls ≡ length rs)
        × (times is_total is_inc w'.calls ≡ number (λ x. not x.panicked) answers)
        × (times is_limit is_inc w'.calls ≡ number is_limited gs)
        × (times is_failure is_inc w'.calls ≡ number is_rejected gs)
        × (times is_attempt is_inc w'.calls ≡ number is_rejected gs + number is_reached gs)
  counters_add_up rs w empty =
      let none_yet : Counts w.calls 0 0 0 0 0 0 = rw empty (record {
        starts = refl;
        ends = refl;
        all = refl;
        over_limit = refl;
        failed = refl;
        tried = refl;
      }) in
      let c = serve_all-Counts rs w none_yet in
      (
        omega (arith, c.starts),
        omega (arith, c.ends),
        omega (arith, c.all),
        omega (arith, c.over_limit),
        omega (arith, c.failed),
        c.tried ∙ number-is_checked (fates parse_ip host_of new allow jwt v rs w.limiters),
      )
