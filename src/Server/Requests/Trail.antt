-- ===== src/Server/Requests/Trail.antt =====
-- internal/audit/logger.go behind internal/server/http.go and cmd/server/main.go: the lines of the
-- audit log while a process runs.
use safe_my_sqlmcp_server.Base.{
  ℕ, Text, Map, Bool, List, [], ◌∷◌, Option, All, ◌≡◌, ◌⊎◌, inl, inr, refl, Option-cases,
}
use safe_my_sqlmcp_server.Config.{Config, SecurityConfig}
use safe_my_sqlmcp_server.Config.Loading.{Files}
use safe_my_sqlmcp_server.Config.Watcher.{Round, call_all}
use safe_my_sqlmcp_server.Config.Watcher.Reload.{reload_all_or_nothing}
use safe_my_sqlmcp_server.Audit.{Entry}
use safe_my_sqlmcp_server.Audit.Laws.{lines_of}
use safe_my_sqlmcp_server.Auth.{Validator, Method, Jwt}
use safe_my_sqlmcp_server.Auth.Laws.{IsSound}
use safe_my_sqlmcp_server.Auth.Context.{context_with_user}
use safe_my_sqlmcp_server.Server.{Server, update_server}
use safe_my_sqlmcp_server.Server.RateLimit.{IpEntry}
use safe_my_sqlmcp_server.Server.Serving.{Front}
use safe_my_sqlmcp_server.Server.Main.{Process, round, happen, start}
use safe_my_sqlmcp_server.Server.Main.Watching.{
  react_to-cases, AnyOutside, IsStarted, IsWired, IsRun, happen-IsRun, start-IsStarted,
}
use safe_my_sqlmcp_server.Server.Requests.{
  Event, request, watcher_round, cleanup_round, serve_events, call_tools,
}
use safe_my_sqlmcp_server.Server.Requests.Trace.{Trace, ended, stopped, called, watched, cleaned}
use safe_my_sqlmcp_server.Server.Requests.Traced.{
  EventMeets, call_tools-IsRun, new_server-fresh, serve_events-Follows,
}
use safe_my_sqlmcp_server.Server.Requests.Attested.{
  lines_of-update_logger, MarshalsBy, IsAttested, IsTrail, logger_of, call_tools-IsTrail,
}

All-anywhere : (es : List Event) → All (EventMeets AnyOutside) es
All-anywhere [] = tt
All-anywhere (request r x ∷ es) = (tt, All-anywhere es)
All-anywhere (watcher_round r ∷ es) = (tt, All-anywhere es)
All-anywhere (cleanup_round now ∷ es) = (tt, All-anywhere es)

module _ (sql_open : Text → Bool) (marshal : Entry → Option Text) (mkdir : Text → Bool) where
  -- A round leaves the server, or updates it.
  happen-round :
      (r : Round) (m : Process)
      → IsWired sql_open marshal mkdir m
      → ((happen (round r) m).server ≡ m.server)
        ⊎ ((cfg : Config) × (rules : Option SecurityConfig) × ((happen (round r) m).server
              ≡ update_server sql_open marshal mkdir cfg rules m.server))
  unfolding happen call_all
  happen-round r m wired = elim (Option-cases m.watcher) [
    | inl unwatched ↦ rw (happen, unwatched) (inl refl)
    | inr (w, there) ↦ elim (react_to-cases r.event r w m.server) [
      | inl nothing ↦ rw (happen, there, nothing) (inl refl)
      | inr reloads ↦ elim (reload_all_or_nothing r.read r.stat w m.server) [
        | inr (why, same) ↦ rw (happen, there, reloads, same) (inl refl)
        | inl (cfg, rules, loads, done) ↦
            rw (happen, there, reloads, done, wired w there) (inr (cfg, rules, refl))
      ]
    ]
  ]

  module _ (Verifies : Method → Text → Text → Type 0) (jwt : ℕ → Jwt) (v : Validator) where
    update_server-IsTrail :
        (cfg : Config) (rules : Option SecurityConfig) (s : Server)
        → IsTrail marshal Verifies jwt v s.state.logger
        → IsTrail marshal Verifies jwt v
            (update_server sql_open marshal mkdir cfg rules s).state.logger
    unfolding update_server
    update_server-IsTrail cfg rules s h =
        elim (lines_of-update_logger marshal mkdir cfg.audit s.state.logger) [
          | inl same ↦ rw same h
          | inr empty ↦ rw empty tt
        ]

    happen-IsTrail :
        (r : Round) (m : Process)
        → IsWired sql_open marshal mkdir m
        → IsTrail marshal Verifies jwt v (logger_of m)
        → IsTrail marshal Verifies jwt v (logger_of (happen (round r) m))
    happen-IsTrail r m wired h = elim (happen-round r m wired) [
      | inl same ↦ rw same h
      | inr (cfg, rules, updated) ↦ rw updated (update_server-IsTrail cfg rules m.server h)
    ]

    module _ {ℓ} {L : Type ℓ} (parse_ip : Text → Bool) (host_of : Text → Option Text) (new : L)
        (allow : ℕ → L → L × Bool) where
      Trace-IsTrail :
          (s : Server) (es : List Event) (ls : Map (IpEntry L)) (m m' : Process)
          → Trace Verifies jwt v parse_ip host_of new allow es ls m m'
          → All (EventMeets (MarshalsBy marshal)) es
          → IsRun sql_open marshal mkdir AnyOutside s m
          → IsTrail marshal Verifies jwt v (logger_of m)
          → IsTrail marshal Verifies jwt v (logger_of m')
      Trace-IsTrail s _ _ _ _ (ended ls m) by i h = h
      Trace-IsTrail s _ _ _ _ (stopped r x es ls m m' stops rest) (one, by) i h =
          Trace-IsTrail s es _ m m' rest by i h
      Trace-IsTrail s _ _ _ _ (called r x id email es ls m m' reaches signed rest) (one, by) i h =
          let ctx = context_with_user [] id email in
          Trace-IsTrail s es _ (call_tools ctx x.outside x.calls m).0 m' rest by
            (call_tools-IsRun sql_open marshal mkdir s ctx x.outside x.calls m tt i)
            (call_tools-IsTrail marshal Verifies jwt v r.now r.authorization id email x.outside
              x.calls m one signed h)
      Trace-IsTrail s _ _ _ _ (watched r es ls m m' rest) (one, by) i h =
          Trace-IsTrail s es ls (happen (round r) m) m' rest by
            (happen-IsRun sql_open marshal mkdir s (round r) m tt i) (happen-IsTrail r m i.wired h)
      Trace-IsTrail s _ _ _ _ (cleaned now es ls m m' rest) (one, by) i h =
          Trace-IsTrail s es _ m m' rest by i h

  -- After any events of a process that could be started, requests, rounds of its watcher and rounds of
  -- the limiter's cleanup, one after the other, every line that was handed to the writer that its audit
  -- log has then is what `json.Marshal` gives for an entry, whose user, by id and email address, is named
  -- by the claims of a token that the jwt library has verified, by an HMAC method and with the server's
  -- secret. So this holds of the lines of a writer up to the reload that replaces it. The library
  -- verifies a signature with a key that it was given before it gives the claims.
  pub audit_trail {ℓ} :
      {L : Type ℓ} (Verifies : Method → Text → Text → Type 0) (jwt : ℕ → Jwt)
      (parse_ip : Text → Bool) (host_of : Text → Option Text) (new : L) (allow : ℕ → L → L × Bool)
      (files : Files) (env_secret : Text) (watches : Bool) (id : ℕ) (path : Text) (es : List Event)
      (w : Front L Process)
      → All (EventMeets (MarshalsBy marshal)) es
      → ((now : ℕ) → IsSound Verifies (jwt now))
      → start sql_open marshal mkdir files env_secret watches id path ≡ inr w.inner
      → let w' = serve_events parse_ip host_of new allow jwt es w in
        All
          (IsAttested marshal Verifies jwt w.inner.server.validator)
          (lines_of w'.inner.server.state.logger)
  audit_trail Verifies jwt parse_ip host_of new allow files env_secret watches id path es w by sound
        e =
      let s = w.inner.server in
      let begun : IsStarted sql_open marshal mkdir AnyOutside env_secret id w.inner =
        start-IsStarted sql_open marshal mkdir files env_secret watches id path w.inner e in
      let trace =
        (serve_events-Follows sql_open marshal mkdir Verifies jwt s.validator parse_ip host_of new
          allow s es w (All-anywhere es) sound refl begun.ready).0 in
      let empty =
        (new_server-fresh sql_open marshal mkdir env_secret id begun.config s begun.set_up).1 in
      Trace-IsTrail Verifies jwt s.validator parse_ip host_of new allow s es w.limiters w.inner _
        trace by begun.ready (rw empty tt)
