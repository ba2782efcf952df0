-- ===== src/Examples/Serving.antt =====
-- Requests that go through the chain of middleware, and the calls of the metrics library.
use safe_my_sqlmcp_server.Base.{
  ℕ, ◌+◌, ltb, codes, length, lookup, insert, to_upper, not, equal_fold, true, List, [], ◌∷◌, ◌≡◌,
  refl,
}
use safe_my_sqlmcp_server.Auth.{authenticate, validate, extract_token}
use safe_my_sqlmcp_server.Auth.Context.{Context}
use safe_my_sqlmcp_server.Server.RateLimit.{
  rate_limit, limit, get_limiter, get_real_ip, proxied_ip, remote_ip,
}
use safe_my_sqlmcp_server.Server.Serving.{mcp, health, HttpRequest, Reply, Front, serve_all}
use safe_my_sqlmcp_server.Server.Serving.Fates.{
  number, is_inc, is_dec, is_total, is_active, is_limit, is_attempt, is_failure, times, is_limited,
  is_rejected, is_reached, limited, rejected, reached_tools, healthy, fates,
}
use safe_my_sqlmcp_server.Server.Serving.Counters.{counters_add_up}
use safe_my_sqlmcp_server.Examples.RateLimit.{count_down, host_of, plain}
use safe_my_sqlmcp_server.Examples.Auth.{validator, jwt, header}

abbrev ping : HttpRequest
ping = record {
  endpoint = health;
  method = codes "GET";
  authorization = [];
  origin = plain;
  now = 6;
  duration = 9;
}

abbrev pub post : HttpRequest
post = record ping { endpoint = mcp; method = codes "POST"; authorization = header }

abbrev pub anonymous : HttpRequest
anonymous = record post { authorization = [] }

abbrev requests : List HttpRequest
requests = ping ∷ post ∷ anonymous ∷ post ∷ post ∷ []

-- Tools that count their calls, and panic on the second one.
abbrev tools : Context → ℕ → ℕ × Reply
tools ctx n = (n + 1, record { written = []; panicked = ltb 0 n })

abbrev empty : Front ℕ ℕ
empty = record { limiters = []; inner = 0; calls = [] }

fates_test :
    fates (λ ip. true) host_of 4 count_down jwt validator requests empty.limiters
    ≡ healthy ∷ reached_tools ∷ rejected ∷ reached_tools ∷ limited ∷ []
unfolding lookup insert authenticate validate extract_token equal_fold to_upper rate_limit limit
    get_limiter get_real_ip proxied_ip remote_ip
fates_test = refl

counters_add_up_example :
    let (w', answers) =
      serve_all (λ ip. true) host_of 4 count_down jwt validator tools requests empty in
    let gs = fates (λ ip. true) host_of 4 count_down jwt validator requests empty.limiters in
    (times is_active is_inc w'.calls ≡ length requests)
    × (times is_active is_dec w'.calls ≡ length requests)
    × (times is_total is_inc w'.calls ≡ number (λ x. not x.panicked) answers)
    × (times is_limit is_inc w'.calls ≡ number is_limited gs)
    × (times is_failure is_inc w'.calls ≡ number is_rejected gs)
    × (times is_attempt is_inc w'.calls ≡ number is_rejected gs + number is_reached gs)
counters_add_up_example =
    counters_add_up (λ ip. true) host_of 4 count_down jwt validator tools requests empty refl
