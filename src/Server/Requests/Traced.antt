-- ===== src/Server/Requests/Traced.antt =====
-- internal/server/http.go and cmd/server/main.go: no tool is called but for the user of a verified
-- token.
use safe_my_sqlmcp_server.Base.{
  ℕ, Text, Map, Bool, List, [], ◌∷◌, All, Option, ◌≡◌, ◌∙◌, inl, inr, sym, subst, ◌≤◌, length,
  arith, Bool-cases, Option-cases, Sum-cases,
}
use safe_my_sqlmcp_server.Audit.{Entry, new_logger}
use safe_my_sqlmcp_server.Audit.Laws.{lines_of}
use safe_my_sqlmcp_server.Auth.{Validator, Method, Jwt, new_validator_from_env}
use safe_my_sqlmcp_server.Auth.Laws.{IsSound, new_validator_iff}
use safe_my_sqlmcp_server.Auth.Context.{Context, context_with_user}
use safe_my_sqlmcp_server.Mcp.Tools.{Call, Outside, told, call_tool}
use safe_my_sqlmcp_server.Config.Reloadable.{ReloadableConfig}
use safe_my_sqlmcp_server.Database.Pool.{Pool, new_pool}
use safe_my_sqlmcp_server.Server.{Server, new_with, new_server}
use safe_my_sqlmcp_server.Server.Serving.{Front}
use safe_my_sqlmcp_server.Server.RateLimit.{IpEntry}
use safe_my_sqlmcp_server.Server.Serving.Behind.{serve-Leaves}
use safe_my_sqlmcp_server.Server.Running.{Runs-validator}
use safe_my_sqlmcp_server.Server.Main.{Process, tool_call, round, happen}
use safe_my_sqlmcp_server.Server.Main.Watching.{IsRun, happen-IsRun}
use safe_my_sqlmcp_server.Server.Requests.{
  is_panic, Event, request, watcher_round, cleanup_round, call_tools, handle_exchange, serve_event,
  serve_events,
}
use safe_my_sqlmcp_server.Server.Requests.Trace.{Trace, ended, watched, cleaned, Trace-request}

-- The outside of the calls of a request has a property.
abbrev pub EventMeets : (Outside → Type 0) → Event → Type 0
EventMeets P (request r x) = P x.outside
EventMeets P (watcher_round r) = Unit
EventMeets P (cleanup_round now) = Unit

module _ (sql_open : Text → Bool) (marshal : Entry → Option Text) (mkdir : Text → Bool) where
  pub call_tools-IsRun :
      {P : Outside → Type 0} (s : Server) (ctx : Context) (o : Outside) (cs : List Call)
      (m : Process)
      → P o
      → IsRun sql_open marshal mkdir P s m
      → IsRun sql_open marshal mkdir P s (call_tools ctx o cs m).0
  unfolding call_tools
  call_tools-IsRun s ctx o [] m meets i = i
  call_tools-IsRun s ctx o (c ∷ cs) m meets i =
      let next = happen-IsRun sql_open marshal mkdir s (tool_call ctx o c) m meets i in
      let rest = call_tools-IsRun s ctx o cs (happen (tool_call ctx o c) m) meets next in
      elim (Bool-cases (is_panic (told (call_tool ctx o m.server.handler c m.server.state).1))) [
        | inl stops ↦ rw (call_tools, stops) next
        | inr goes_on ↦ rw (call_tools, goes_on) rest
      ]

  module _ {ℓ} {L : Type ℓ} (Verifies : Method → Text → Text → Type 0) (jwt : ℕ → Jwt)
      (v : Validator) (parse_ip : Text → Bool) (host_of : Text → Option Text) (new : L)
      (allow : ℕ → L → L × Bool) where
    -- What events leave: a process that they have traced from another one, and that runs on
    abbrev pub Follows :
        (Outside → Type 0) → Server → List Event → Map (IpEntry L) → Process → Process → Type ℓ
    Follows P s es ls m m' =
        Trace Verifies jwt v parse_ip host_of new allow es ls m m'
        × IsRun sql_open marshal mkdir P s m'

    pub serve_events-Follows :
        {P : Outside → Type 0} (s : Server) (es : List Event) (w : Front L Process)
        → All (EventMeets P) es
        → ((now : ℕ) → IsSound Verifies (jwt now))
        → s.validator ≡ v
        → IsRun sql_open marshal mkdir P s w.inner
        → Follows P s es w.limiters w.inner (serve_events parse_ip host_of new allow jwt es w).inner
    unfolding serve_events serve_event handle_exchange
    serve_events-Follows s [] w meets sound same i = (ended w.limiters w.inner, i)
    serve_events-Follows s (cleanup_round now ∷ es) w (meets, rest) sound same i =
        let w' = serve_event parse_ip host_of new allow jwt (cleanup_round now) w in
        let (trace, run) = serve_events-Follows s es w' rest sound same i in
        (cleaned now es w.limiters w.inner _ trace, run)
    serve_events-Follows s (watcher_round r ∷ es) w (meets, rest) sound same i =
        let w' = serve_event parse_ip host_of new allow jwt (watcher_round r) w in
        let i' = happen-IsRun sql_open marshal mkdir s (round r) w.inner tt i in
        let (trace, run) = serve_events-Follows s es w' rest sound same i' in
        (watched r es w.limiters w.inner _ trace, run)
    serve_events-Follows {P} s (request r x ∷ es) w (meets, rest) sound same i =
        let w' = serve_event parse_ip host_of new allow jwt (request r x) w in
        let end = (serve_events parse_ip host_of new allow jwt es w').inner in
        let now_v = w.inner.server.validator in
        let kept : now_v ≡ v = Runs-validator i.runs ∙ same in
        let leaves =
          serve-Leaves parse_ip host_of new allow (jwt r.now) now_v (handle_exchange x) r w in
        let next : IsRun sql_open marshal mkdir P s w'.inner = elim leaves.0 [
          | inl (stops, still) ↦ subst (IsRun sql_open marshal mkdir P s) (sym still) i
          | inr (id, email, reaches, passed, called_as) ↦
              subst (IsRun sql_open marshal mkdir P s) (sym called_as) (
                call_tools-IsRun s (context_with_user [] id email) x.outside x.calls w.inner meets
                  i)
        ] in
        let (trace, run) = serve_events-Follows s es w' rest sound same next in
        (
          Trace-request Verifies jwt v parse_ip host_of new allow r x es now_v w w' end sound kept
              leaves.0 leaves.1 trace,
          run,
        )

  -- A server that was set up with a validator has it, and has logged nothing.
  new_with-fresh :
      (rc : ReloadableConfig) (v : Validator) (p : Pool) (s : Server)
      → new_with sql_open marshal mkdir rc v p ≡ inr s
      → (s.validator ≡ v) × (lines_of s.state.logger ≡ [])
  unfolding new_with new_logger
  new_with-fresh rc v p s e = elim (Option-cases (new_logger marshal mkdir rc.config.audit)) [
    | inl failed ↦ absurd (cc (rw (new_with, failed) at e))
    | inr (logger, made) ↦
        let empty : lines_of logger ≡ [] = ground arith in
        let made_of = rw (new_with, made) at e in (ground (arith, made_of), ground (arith, made_of))
  ]

  pub new_server-fresh :
      (env_secret : Text) (id : ℕ) (rc : ReloadableConfig) (s : Server)
      → new_server sql_open marshal mkdir env_secret id rc ≡ inr s
      → (32 ≤ length s.validator.secret) × (lines_of s.state.logger ≡ [])
  unfolding new_server
  new_server-fresh env_secret id rc s e =
      elim (Sum-cases (new_validator_from_env env_secret rc.config.server.jwt_secret)) [
        | inl (bad, failed) ↦ absurd (cc (rw (new_server, failed) at e))
        | inr (v, valid) ↦ elim (Option-cases (new_pool sql_open id rc.config.clusters).1) [
          | inl opened ↦
              let (same, empty) =
                new_with-fresh rc v (new_pool sql_open id rc.config.clusters).0 s
                  (rw (new_server, valid, opened) at e) in
              (
                rw same
                    ((new_validator_iff env_secret rc.config.server.jwt_secret v.secret).0 valid).1,
                empty,
              )
          | inr (bad, failed) ↦ absurd (cc (rw (new_server, valid, failed) at e))
        ]
      ]
