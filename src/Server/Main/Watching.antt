-- ===== src/Server/Main/Watching.antt =====
-- cmd/server/main.go: the invariant of the server holds under the watcher, and Shutdown leaves nothing
-- open.
use safe_my_sqlmcp_server.Base.{
  ℕ, Text, Bool, true, false, List, [], ◌∷◌, ◌++◌, All, Option, none, some, ◌≡◌, ◌⊎◌, inl, inr,
  refl, subst, arith, Sum-cases, Option-cases, if◌then◌else◌,
}
use safe_my_sqlmcp_server.Config.Loading.{Files, new_reloadable}
use safe_my_sqlmcp_server.Config.Reloadable.{ReloadableConfig}
use safe_my_sqlmcp_server.Config.Watcher.{
  Watcher, Round, Event, file_event, tick, hang_up, react_to, reload, handle_event, check_mtime,
  call_all, note_times, new_watcher, set_security_path, on_change,
}
use safe_my_sqlmcp_server.Config.Watcher.Reload.{reload_all_or_nothing}
use safe_my_sqlmcp_server.Audit.{Entry, Writer, close_logger, close_writer}
use safe_my_sqlmcp_server.Database.Pool.{ids, close}
use safe_my_sqlmcp_server.Server.{Server, new_server, update_server, shutdown}
use safe_my_sqlmcp_server.Server.Running
use safe_my_sqlmcp_server.Server.Running.{Runs, start, and_then, Step, IsSteady, running-IsSteady}
use safe_my_sqlmcp_server.Mcp.Tools.{Outside}
use safe_my_sqlmcp_server.Server.Main.{
  Process, MainError, Happening, tool_call, round, start as start_main, happen, run, watcher_of,
}

-- A handler of the watcher does nothing, or reloads.
pub react_to-cases :
    {S : Type 0} (e : Event) (r : Round) (w : Watcher S) (s : S)
    → (react_to e r w s ≡ (w, s)) ⊎ (react_to e r w s ≡ reload r.read r.stat w s)
unfolding react_to handle_event check_mtime
react_to-cases (file_event is_write is_create none) r w s = ground arith
react_to-cases (file_event is_write is_create (some path)) r w s = ground arith
react_to-cases tick r w s = ground arith
react_to-cases hang_up r w s = inr refl

-- The outside of a call has a property.
abbrev pub Meets : (Outside → Type 0) → Happening → Type 0
Meets P (tool_call ctx o c) = P o
Meets P (round r) = Unit

abbrev pub AnyOutside : Outside → Type 0
AnyOutside o = Unit

All-AnyOutside : (hs : List Happening) → All (Meets AnyOutside) hs
All-AnyOutside [] = tt
All-AnyOutside (tool_call ctx o c ∷ hs) = (tt, All-AnyOutside hs)
All-AnyOutside (round r ∷ hs) = (tt, All-AnyOutside hs)

module _ (sql_open : Text → Bool) (marshal : Entry → Option Text) (mkdir : Text → Bool) where
  -- The one callback of a watcher updates the server.
  abbrev pub UpdatesServer : Watcher Server → Type 0
  UpdatesServer w = w.callbacks ≡ update_server sql_open marshal mkdir ∷ []

  -- What a round leaves: a server that was reloaded or is the same, and a watcher with the same
  -- callback
  record IsRound (P : Outside → Type 0) (s : Server) (out : Watcher Server × Server) : Type 0 where
    updates : UpdatesServer out.0
    runs : (start : Server) → Runs P start s → Runs P start out.1

  reload-IsRound :
      {P : Outside → Type 0} (read stat : Files) (w : Watcher Server) (s : Server)
      → UpdatesServer w
      → IsRound P s (reload read stat w s)
  unfolding note_times call_all
  reload-IsRound read stat w s only = elim (reload_all_or_nothing read stat w s) [
    | inr (why, same) ↦ rw same (record { updates = only; runs = λ start so_far. so_far })
    | inl (cfg, rules, loads, done) ↦
        rw (done, only)
          (record {
            updates = refl;
            runs = λ start so_far.
                and_then s (update_server sql_open marshal mkdir cfg rules s) so_far
                  (Running.reload sql_open marshal mkdir cfg rules s);
          })
  ]

  react_to-IsRound :
      {P : Outside → Type 0} (r : Round) (w : Watcher Server) (s : Server)
      → UpdatesServer w
      → IsRound P s (react_to r.event r w s)
  react_to-IsRound r w s only = elim (react_to-cases r.event r w s) [
    | inl nothing ↦ rw nothing (record { updates = only; runs = λ start so_far. so_far })
    | inr reloads ↦ rw reloads (reload-IsRound r.read r.stat w s only)
  ]

  same_watcher :
      {v w : Watcher Server}
      → ◌≡◌ {A = Option (Watcher Server)} (some v) (some w)
      → UpdatesServer v
      → UpdatesServer w
  same_watcher {v} {w} e h = let same : v ≡ w = cc e in subst UpdatesServer same h

  abbrev pub IsWired : Process → Type 0
  IsWired m = (w : Watcher Server) → m.watcher ≡ some w → UpdatesServer w

  pub record IsRun (P : Outside → Type 0) (s : Server) (m : Process) : Type 0 where
    pub wired : IsWired m
    pub runs : Runs P s m.server

  pub happen-IsRun :
      {P : Outside → Type 0} (s : Server) (h : Happening) (m : Process)
      → Meets P h
      → IsRun P s m
      → IsRun P s (happen h m)
  unfolding happen
  happen-IsRun s (tool_call ctx o c) m meets i = record {
    wired = i.wired;
    runs = and_then m.server _ i.runs (Running.tool_call ctx o c m.server meets);
  }
  happen-IsRun s (round r) m meets i = elim (Option-cases m.watcher) [
    | inl unwatched ↦ rw (happen, unwatched) i
    | inr (w, watched) ↦
        let next = react_to-IsRound r w m.server (i.wired w watched) in
        rw (happen, watched)
          (record { wired = λ v is. same_watcher is next.updates; runs = next.runs s i.runs })
  ]

  run-IsRun :
      {P : Outside → Type 0} (s : Server) (hs : List Happening) (m : Process)
      → All (Meets P) hs
      → IsRun P s m
      → IsRun P s (run hs m)
  unfolding run
  run-IsRun s [] m meets i = i
  run-IsRun s (h ∷ hs) m (meets, rest) i =
      run-IsRun s hs (happen h m) rest (happen-IsRun s h m meets i)

  watcher_of-UpdatesServer :
      (files : Files) (path : Text) (rc : ReloadableConfig)
      → UpdatesServer (watcher_of sql_open marshal mkdir files path rc)
  unfolding watcher_of new_watcher set_security_path on_change
  watcher_of-UpdatesServer files path rc = ground arith

  wired_of :
      (files : Files) (path : Text) (rc : ReloadableConfig) (b : Bool) (w : Watcher Server)
      → (if b then some (watcher_of sql_open marshal mkdir files path rc) else none) ≡ some w
      → UpdatesServer w
  wired_of files path rc true w is = same_watcher is (watcher_of-UpdatesServer files path rc)
  wired_of files path rc false w is = absurd (cc is)

  -- A process as it starts: its server was set up, and its watcher updates it.
  pub record IsStarted (P : Outside → Type 0) (env_secret : Text) (id : ℕ) (m : Process)
      : Type 0 where
    pub config : ReloadableConfig
    pub set_up : new_server sql_open marshal mkdir env_secret id config ≡ inr m.server
    pub ready : IsRun P m.server m

  pub start-IsStarted :
      {P : Outside → Type 0} (files : Files) (env_secret : Text) (watches : Bool) (id : ℕ)
      (path : Text) (m : Process)
      → start_main sql_open marshal mkdir files env_secret watches id path ≡ inr m
      → IsStarted P env_secret id m
  unfolding start_main
  start-IsStarted {P} files env_secret watches id path m e =
      elim (Sum-cases (new_reloadable files path)) [
        | inl (bad, failed) ↦ absurd (cc (rw (start_main, failed) at e))
        | inr (rc, loaded) ↦ elim (Sum-cases (new_server sql_open marshal mkdir env_secret id rc)) [
          | inl (bad, failed) ↦ absurd (cc (rw (start_main, loaded, failed) at e))
          | inr (s, set_up) ↦
              subst (IsStarted P env_secret id)
                (inr-injective (rw (start_main, loaded, set_up) at e))
                (record {
                  config = rc;
                  set_up = set_up;
                  ready = record {
                    wired = λ w is. wired_of files path rc watches w is;
                    runs = start;
                  };
                })
        ]
      ]
    where
      inr-injective : {a b : Process} → ◌≡◌ {A = MainError ⊎ Process} (inr a) (inr b) → a ≡ b
      inr-injective e = cc e

  -- A process that could be started, after any tool calls and rounds of the watcher, in any order and
  -- with any contents of the files, as long as they come one after the other: no call runs within a
  -- reload, and no two reloads overlap. Then the checker and the rewriter of its server have the same
  -- rules, these are the rules of the configuration whenever it has any, and the audit logger has a
  -- writer whenever it is enabled.
  pub run-IsSteady :
      (files : Files) (env_secret : Text) (watches : Bool) (id : ℕ) (path : Text) (m : Process)
      (hs : List Happening)
      → start_main sql_open marshal mkdir files env_secret watches id path ≡ inr m
      → IsSteady (run hs m).server
  run-IsSteady files env_secret watches id path m hs e =
      let begun = start-IsStarted files env_secret watches id path m e in
      running-IsSteady sql_open marshal mkdir env_secret id begun.config m.server (run hs m).server
        begun.set_up (run-IsRun {P = AnyOutside} m.server hs m (All-AnyOutside hs) begun.ready).runs

-- Shutdown closes every handle that the pool has, empties its map, and closes the log file if there is
-- one; the handles that were closed before stay closed.
pub shutdown_closes :
    (s : Server)
    → ((shutdown s).state.pool.clusters ≡ [])
      × ((shutdown s).state.pool.closed ≡ ids s.state.pool.clusters ++ s.state.pool.closed)
      × ((w : Writer) → (shutdown s).state.logger.writer ≡ some w → w.closed ≡ true)
unfolding shutdown close close_logger close_writer
shutdown_closes s = (refl, refl, λ w h. ground arith)
