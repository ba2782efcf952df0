-- ===== src/Server/Requests/Trace.antt =====
-- internal/server/http.go: the trace that requests leave in a process, and what one request adds to it.
use safe_my_sqlmcp_server.Base.{
  ℕ, Text, Map, Bool, true, false, List, [], ◌∷◌, ◌++◌, Option, ◌≡◌, inl, inr, subst,
}
use safe_my_sqlmcp_server.Config.Watcher.{Round}
use safe_my_sqlmcp_server.Auth.{
  Claims, Validator, Method, hmac, Jwt, token, key_for, admitted, authenticate,
}
use safe_my_sqlmcp_server.Auth.Header.{IsBearer}
use safe_my_sqlmcp_server.Auth.Laws.{IsSound, authenticate-IsSigned}
use safe_my_sqlmcp_server.Auth.Context.{context_with_user}
use safe_my_sqlmcp_server.Server.Serving.{HttpRequest, Front}
use safe_my_sqlmcp_server.Server.RateLimit.{IpEntry, rate_limit, cleanup}
use safe_my_sqlmcp_server.Server.Serving.Fates.{Fate, reached_tools, is_reached, fate}
use safe_my_sqlmcp_server.Server.Serving.Behind.{Leaves}
use safe_my_sqlmcp_server.Server.Main.{Process, round, happen}
use safe_my_sqlmcp_server.Server.Requests.{
  Exchange, Event, request, watcher_round, cleanup_round, call_tools, handle_exchange,
}

-- A header carries a bearer token that the library has verified with the secret of a validator, by an
-- HMAC method, and whose claims name a user and an email address.
abbrev pub IsSigned :
    (Method → Text → Text → Type 0) → Jwt → Validator → (header id email : Text) → Type 0
IsSigned Verifies jwt v header id email =
    (scheme : Text) × (t : Text) × (claims : Claims) × IsBearer scheme
    × (header ≡ scheme ++ 32 ∷ t)
    × Verifies hmac t v.secret
    × (jwt t (key_for v) ≡ token claims true)
    × (claims.user_id ≡ id)
    × (claims.user_email ≡ email)

module _ {ℓ} {L : Type ℓ} (Verifies : Method → Text → Text → Type 0) (jwt : ℕ → Jwt) (v : Validator)
    (parse_ip : Text → Bool) (host_of : Text → Option Text) (new : L)
    (allow : ℕ → L → L × Bool) where
  -- What a request makes of the limiters
  abbrev pub limited_by : HttpRequest → Map (IpEntry L) → Map (IpEntry L)
  limited_by r ls = (rate_limit parse_ip host_of new allow r.now r.origin ls).0

  -- What events make of a process, beside the limiters. The tools are called for exactly the requests
  -- whose fate it is to reach them; then the header is signed, and the tools are called as the user of
  -- the token. Any other request leaves the process as it was.
  pub data Trace : List Event → Map (IpEntry L) → Process → Process → Type ℓ where
    ended : (ls : Map (IpEntry L)) (m : Process) → Trace [] ls m m
    stopped :
        (r : HttpRequest) (x : Exchange) (es : List Event) (ls : Map (IpEntry L)) (m m' : Process)
        → is_reached (fate parse_ip host_of new allow (jwt r.now) v r ls) ≡ false
        → Trace es (limited_by r ls) m m'
        → Trace (request r x ∷ es) ls m m'
    called :
        (r : HttpRequest) (x : Exchange) (id email : Text) (es : List Event) (ls : Map (IpEntry L))
        (m m' : Process)
        → fate parse_ip host_of new allow (jwt r.now) v r ls ≡ reached_tools
        → IsSigned Verifies (jwt r.now) v r.authorization id email
        → Trace es
            (limited_by r ls)
            (call_tools (context_with_user [] id email) x.outside x.calls m).0
            m'
        → Trace (request r x ∷ es) ls m m'
    watched :
        (r : Round) (es : List Event) (ls : Map (IpEntry L)) (m m' : Process)
        → Trace es ls (happen (round r) m) m'
        → Trace (watcher_round r ∷ es) ls m m'
    cleaned :
        (now : ℕ) (es : List Event) (ls : Map (IpEntry L)) (m m' : Process)
        → Trace es (cleanup now ls ls) m m'
        → Trace (cleanup_round now ∷ es) ls m m'

  abbrev fate_by : Validator → HttpRequest → Map (IpEntry L) → Fate
  fate_by u r ls = fate parse_ip host_of new allow (jwt r.now) u r ls

  Trace-at :
      (es : List Event) {ks ls : Map (IpEntry L)} {k m : Process} (m' : Process)
      → ks ≡ ls
      → k ≡ m
      → Trace es ks k m'
      → Trace es ls m m'
  Trace-at es {ks} {ls} {k} {m} m' p q trace =
      subst (λ ls. Trace es ls m m') p (subst (λ k. Trace es ks k m') q trace)

  -- One request, if what it left is traced to the end
  pub Trace-request :
      (r : HttpRequest) (x : Exchange) (es : List Event) (u : Validator) (w w' : Front L Process)
      (m' : Process)
      → ((now : ℕ) → IsSound Verifies (jwt now))
      → u ≡ v
      → Leaves parse_ip host_of new allow
          (jwt r.now)
          u
          (handle_exchange x)
          r
          (fate_by u r w.limiters)
          w.inner
          w'.inner
      → w'.limiters ≡ limited_by r w.limiters
      → Trace es w'.limiters w'.inner m'
      → Trace (request r x ∷ es) w.limiters w.inner m'
  unfolding handle_exchange
  Trace-request r x es u w w' m' sound kept (inl (stops, still)) limits trace =
      stopped r x es w.limiters w.inner m'
        (subst (λ u. is_reached (fate_by u r w.limiters) ≡ false) kept stops)
        (Trace-at es m' limits still trace)
  Trace-request r x es u w w' m' sound kept (inr (id, email, reaches, passed, called_as)) limits
        trace =
      called r x id email es w.limiters w.inner m'
        (subst (λ u. fate_by u r w.limiters ≡ reached_tools) kept reaches)
        (authenticate-IsSigned Verifies (jwt r.now) v r.authorization id email (sound r.now)
          (subst (λ u. authenticate (jwt r.now) u r.authorization ≡ admitted id email) kept passed))
        (Trace-at es m' limits called_as trace)
