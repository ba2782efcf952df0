-- ===== src/Server/Main.antt =====
-- cmd/server/main.go: the server and the watcher of its configuration, put together. Requests are
-- served between the rounds of the watcher's loops.
pub mod Watching
use safe_my_sqlmcp_server.Base.{
  ℕ, Text, Bool, true, false, is_empty, List, [], ◌∷◌, Option, none, some, ◌⊎◌, inl, inr,
  if◌then◌else◌,
}
use safe_my_sqlmcp_server.Config.{Config, SecurityConfig}
use safe_my_sqlmcp_server.Config.Reloadable.{ReloadableConfig}
use safe_my_sqlmcp_server.Config.Loading.{Files, LoadError, new_reloadable}
use safe_my_sqlmcp_server.Config.Watcher.{
  Watcher, Round, react_to, new_watcher, set_security_path, on_change,
}
use safe_my_sqlmcp_server.Audit.{Entry}
use safe_my_sqlmcp_server.Auth.Context.{Context}
use safe_my_sqlmcp_server.Mcp.Tools.{Call, Outside}
use safe_my_sqlmcp_server.Database.Pool.{Pool}
use safe_my_sqlmcp_server.Server.{Server, ServerError, new_server, update_server, call_on, shutdown}

pub data MainError : Type 0 where
  no_config : LoadError → MainError
  no_server : ServerError → MainError

-- What runs: the server, and the watcher if fsnotify could be set up.
pub record Process : Type 0 where
  pub server : Server
  pub watcher : Option (Watcher Server)

-- What happens to it: a call of a tool in some context, or something that wakes a loop of the watcher
-- or, with a signal to reload, the main loop.
pub data Happening : Type 0 where
  tool_call : Context → Outside → Call → Happening
  round : Round → Happening

module _ (sql_open : Text → Bool) (marshal : Entry → Option Text) (mkdir : Text → Bool) where
  -- The watcher of the two files, whose callback updates the server
  unfoldable pub watcher_of : Files → Text → ReloadableConfig → Watcher Server
  unfolding new_watcher set_security_path on_change
  watcher_of files path rc =
      let w = new_watcher files path in
      let rules = rc.config.security.config_file in
      on_change (update_server sql_open marshal mkdir)
        (if is_empty rules then w else set_security_path files rules w)

  -- The start of main, with absolute paths and whether fsnotify can be set up
  unfoldable pub start : Files → Text → (watches : Bool) → ℕ → Text → MainError ⊎ Process
  start files env_secret watches id path = elim (new_reloadable files path) [
    | inl e ↦ inl (no_config e)
    | inr rc ↦ elim (new_server sql_open marshal mkdir env_secret id rc) [
      | inl e ↦ inl (no_server e)
      | inr server ↦ inr (record {
        server = server;
        watcher = if watches then some (watcher_of files path rc) else none;
      })
    ]
  ]

-- One thing that happens. Without a watcher there are no rounds, and a signal to reload does nothing.
unfoldable pub happen : Happening → Process → Process
happen (tool_call ctx o c) m = record m { server = call_on ctx o c m.server }
happen (round r) m = elim m.watcher [
  | none ↦ m
  | some w ↦
      let (w', s') = react_to r.event r w m.server in record { server = s'; watcher = some w' }
]

unfoldable pub run : List Happening → Process → Process
unfolding happen
run [] m = m
run (h ∷ hs) m = run hs (happen h m)

-- main, up to its end: the server is shut down whatever happened before.
unfoldable pub main : List Happening → Process → Server
unfolding run shutdown
main hs m = shutdown (run hs m).server
