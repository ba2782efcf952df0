-- ===== src/Server/Serving/Fates.antt =====
-- internal/server/http.go: the tests of calls of the metrics library, and what becomes of a request
-- that goes through the chain of middleware.
use safe_my_sqlmcp_server.Base.{
  ℕ, suc, ◌+◌, Text, Map, Bool, true, false, ◌&&◌, List, [], ◌∷◌, Option, ◌≡◌, refl, arith,
  if◌then◌else◌,
}
use safe_my_sqlmcp_server.Auth.{Validator, Jwt, Admission, refused, admitted, authenticate}
use safe_my_sqlmcp_server.Metrics.{
  Series, requests_total, requests_active, rate_limit_exceeded, auth_attempts, auth_failures, Op,
  inc, dec, Call,
}
use safe_my_sqlmcp_server.Server.RateLimit.{IpEntry, rate_limit}
use safe_my_sqlmcp_server.Server.Serving.{Endpoint, mcp, health, HttpRequest}

-- One more, if a test passes
abbrev pub bump : Bool → ℕ → ℕ
bump true n = suc n
bump false n = n

-- How many elements of a list pass a test
abbrev pub number {ℓ} : {A : Type ℓ} → (A → Bool) → List A → ℕ
number p [] = 0
number p (x ∷ xs) = bump (p x) (number p xs)

abbrev pub is_inc : Op → Bool
is_inc inc = true
is_inc _ = false

abbrev pub is_dec : Op → Bool
is_dec dec = true
is_dec _ = false

abbrev pub is_total : Series → Bool
is_total requests_total = true
is_total _ = false

abbrev pub is_active : Series → Bool
is_active requests_active = true
is_active _ = false

abbrev pub is_limit : Series → Bool
is_limit rate_limit_exceeded = true
is_limit _ = false

abbrev pub is_attempt : Series → Bool
is_attempt auth_attempts = true
is_attempt _ = false

abbrev pub is_failure : Series → Bool
is_failure auth_failures = true
is_failure _ = false

-- How often a method of a series was called
abbrev pub times : (Series → Bool) → (Op → Bool) → List Call → ℕ
times s o calls = number (λ c. s c.series && o c.op) calls

-- What becomes of a request, whatever the handlers do: the limiter refuses it, the authentication
-- refuses it, or it reaches the tools or the answer to a health check.
pub data Fate : Type 0 where
  limited rejected reached_tools healthy : Fate

abbrev pub is_limited : Fate → Bool
is_limited limited = true
is_limited _ = false

abbrev pub is_rejected : Fate → Bool
is_rejected rejected = true
is_rejected _ = false

abbrev pub is_reached : Fate → Bool
is_reached reached_tools = true
is_reached _ = false

abbrev pub is_checked : Fate → Bool
is_checked rejected = true
is_checked reached_tools = true
is_checked _ = false

abbrev pub admission_fate : Admission → Fate
admission_fate (refused e) = rejected
admission_fate (admitted id email) = reached_tools

pub bump-swap : (b : Bool) (m n : ℕ) → m + bump b n ≡ bump b m + n
bump-swap true m n = omega arith
bump-swap false m n = refl

pub number-is_checked :
    (gs : List Fate) → number is_checked gs + 0 ≡ number is_rejected gs + number is_reached gs
number-is_checked [] = omega arith
number-is_checked (limited ∷ gs) = number-is_checked gs
number-is_checked (rejected ∷ gs) = omega (arith, number-is_checked gs)
number-is_checked (reached_tools ∷ gs) = omega (arith, number-is_checked gs)
number-is_checked (healthy ∷ gs) = number-is_checked gs

abbrev pub fate_behind : Jwt → Validator → HttpRequest → Endpoint → Fate
fate_behind jwt v r health = healthy
fate_behind jwt v r mcp = admission_fate (authenticate jwt v r.authorization)

module _ {ℓ} {L : Type ℓ} (parse_ip : Text → Bool) (host_of : Text → Option Text) (new : L)
    (allow : ℕ → L → L × Bool) (jwt : Jwt) (v : Validator) where
  -- The fate of a request that meets some limiters
  abbrev pub fate : HttpRequest → Map (IpEntry L) → Fate
  fate r m =
      if (rate_limit parse_ip host_of new allow r.now r.origin m).1
      then fate_behind jwt v r r.endpoint
      else limited

  abbrev pub fates : List HttpRequest → Map (IpEntry L) → List Fate
  fates [] m = []
  fates (r ∷ rs) m = fate r m ∷ fates rs (rate_limit parse_ip host_of new allow r.now r.origin m).0
