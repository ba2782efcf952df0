-- ===== src/Server/RateLimit.antt =====
-- internal/server/ratelimit.go: a limiter for each address. `rate.Limiter` of golang.org/x/time is a
-- parameter: a new limiter, and what `Allow` answers and makes of a limiter at a time. So are
-- `net.ParseIP`, as whether it accepts a text, and the host of `net.SplitHostPort`.
pub mod Decides
pub mod Entries
pub mod Cleaning
use safe_my_sqlmcp_server.Base.{
  ℕ, ◌-◌, ◌*◌, ltb, ◌==◌, Text, Map, lookup, insert, delete, is_empty, trim_space, Bool, true,
  false, not, ◌&&◌, List, [], ◌∷◌, Option, none, some, if◌then◌else◌,
}
use safe_my_sqlmcp_server.Config.{minute}

-- RateLimiterConfig, with the rate in requests per second
pub record RateLimiterConfig : Type 0 where
  pub requests_per_second : ℕ
  pub burst : ℕ
  pub cleanup_interval : ℕ

-- DefaultRateLimiterConfig
abbrev pub default_rate_limiter_config : RateLimiterConfig
default_rate_limiter_config = record {
  requests_per_second = 10;
  burst = 20;
  cleanup_interval = minute;
}

-- ipEntry
pub record IpEntry {ℓ} (L : Type ℓ) : Type ℓ where
  pub limiter : L
  pub last_seen : ℕ

-- IPRateLimiter; its context is done once Close was called.
pub record IpRateLimiter {ℓ} (L : Type ℓ) : Type ℓ where
  pub ips : Map (IpEntry L)
  pub config : RateLimiterConfig
  pub is_done : Bool

-- The headers and the remote address of a request
pub record Request : Type 0 where
  pub forwarded_for : Text
  pub real_ip : Text
  pub remote_addr : Text

-- `strings.Split(s, ",")[0]`
unfoldable pub before_comma : Text → Text
before_comma [] = []
before_comma (c ∷ s) = if c == b',' then [] else c ∷ before_comma s

module _ (parse_ip : Text → Bool) (host_of : Text → Option Text) where
  -- The end of getRealIP: the remote address, without its port
  unfoldable pub remote_ip : Request → Text
  remote_ip r = elim (host_of r.remote_addr) [ none ↦ r.remote_addr | some ip ↦ ip ]

  -- The part of getRealIP that is about X-Real-IP
  unfoldable pub proxied_ip : Request → Text
  proxied_ip r =
      if not (is_empty r.real_ip) && parse_ip (trim_space r.real_ip)
      then trim_space r.real_ip
      else remote_ip r

  -- getRealIP
  unfoldable pub get_real_ip : Request → Text
  get_real_ip r =
      if not (is_empty r.forwarded_for) && parse_ip (trim_space (before_comma r.forwarded_for))
      then trim_space (before_comma r.forwarded_for)
      else proxied_ip r

module _ {ℓ} {L : Type ℓ} where
  -- (*IPRateLimiter).GetLimiter
  unfoldable pub get_limiter : L → ℕ → Text → Map (IpEntry L) → Map (IpEntry L) × L
  get_limiter new now ip m = elim (lookup ip m) [
    | none ↦ (insert ip (record { limiter = new; last_seen = now }) m, new)
    | some e ↦ (insert ip (record { limiter = e.limiter; last_seen = now }) m, e.limiter)
  ]

  -- The middleware for an address: `Allow` changes the limiter that the entry points to, and answers
  -- whether the next handler is called.
  unfoldable pub limit :
      L → (ℕ → L → L × Bool) → ℕ → Text → Map (IpEntry L) → Map (IpEntry L) × Bool
  limit new allow now ip m =
      let (seen, limiter) = get_limiter new now ip m in
      let (used, allowed) = allow now limiter in
      (insert ip (record { limiter = used; last_seen = now }) seen, allowed)

  -- (*IPRateLimiter).cleanup, over the entries of one iteration
  unfoldable pub cleanup : ℕ → Map (IpEntry L) → Map (IpEntry L) → Map (IpEntry L)
  cleanup now [] m = m
  cleanup now ((ip, e) ∷ entries) m =
      let rest = cleanup now entries (delete ip m) in
      let kept = cleanup now entries m in if ltb e.last_seen (now - 5 * minute) then rest else kept

  -- NewIPRateLimiter
  unfoldable pub new_ip_rate_limiter : RateLimiterConfig → IpRateLimiter L
  new_ip_rate_limiter config = record { ips = []; config = config; is_done = false }

  -- (*IPRateLimiter).Close
  unfoldable pub close_limiter : IpRateLimiter L → IpRateLimiter L
  close_limiter l = record l { is_done = true }

  -- A round of (*IPRateLimiter).cleanupLoop at a tick; once Close was called there are no more.
  unfoldable pub cleanup_tick : ℕ → IpRateLimiter L → IpRateLimiter L
  cleanup_tick now l = if l.is_done then l else record l { ips = cleanup now l.ips l.ips }

-- (*Server).rateLimitMiddleware
unfoldable pub rate_limit {ℓ} :
    {L : Type ℓ}
    → (Text → Bool)
    → (Text → Option Text)
    → L
    → (ℕ → L → L × Bool)
    → ℕ
    → Request
    → Map (IpEntry L)
    → Map (IpEntry L) × Bool
rate_limit parse_ip host_of new allow now r m =
    limit new allow now (get_real_ip parse_ip host_of r) m
