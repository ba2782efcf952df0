-- ===== src/Examples/Watching.antt =====
-- A configuration that is read, a watcher that reloads it, and the process around them.
use safe_my_sqlmcp_server.Base.{
  ℕ, ◌≢◌, Text, codes, text_eq, insert, format_ℤ, true, List, [], ◌∷◌, ◌++◌, Option, none, some,
  inl, inr, ◌≡◌, ◌⊎◌, refl, if◌then◌else◌,
}
use safe_my_sqlmcp_server.Config.{Config, SecurityConfig}
use safe_my_sqlmcp_server.Config.Defaults.{set_defaults}
use safe_my_sqlmcp_server.Config.Reloadable.{get_security}
use safe_my_sqlmcp_server.Config.Loading.{
  Files, load, load_rules, new_reloadable, expand_env, expand_from, match_variable, before_brace,
}
use safe_my_sqlmcp_server.Config.Loading.Expansion.{HasNoOpening, Lacks, expand_env_lem}
use safe_my_sqlmcp_server.Config.Watcher.{
  Watcher, new_watcher, on_change, call_all, note_times, reload, tick, hang_up, Round, watch,
}
use safe_my_sqlmcp_server.Config.Watcher.Reload.{
  Loads, CannotLoad, reload_all_or_nothing, ticks_after_reload,
}
use safe_my_sqlmcp_server.Config.Watcher.Overlap.{reads, calls, run_parts, earlier_load_wins}
use safe_my_sqlmcp_server.Auth.{new_validator_from_env}
use safe_my_sqlmcp_server.Audit.{new_logger}
use safe_my_sqlmcp_server.Database.Pool.{new_pool, get_dsn}
use safe_my_sqlmcp_server.Server.{new_server, new_with}
use safe_my_sqlmcp_server.Server.Running.{IsSteady}
use safe_my_sqlmcp_server.Server.Main.{Process, Happening, tool_call, round, start, run}
use safe_my_sqlmcp_server.Server.Main.Watching.{run-IsSteady}
use safe_my_sqlmcp_server.Examples.Samples.{rules, config, marshal, mkdir}
use safe_my_sqlmcp_server.Examples.Tools.{caller, outside, app_query}
use safe_my_sqlmcp_server.Mcp.Tools.{query_call}
use safe_my_sqlmcp_server.Examples.Server.{secret, started}

abbrev getenv : Text → Text
getenv name = if text_eq name (codes "PW") then codes "${X}" else []

expand_env_test : expand_env getenv (codes "a $PW ${PW} ${}") ≡ codes "a $PW ${X} ${}"
unfolding expand_env expand_from match_variable before_brace
expand_env_test = refl

expand_env_lem_example :
    (HasNoOpening (codes "pw: ")
      → codes "PW" ≢ []
      → Lacks b'}' (codes "PW")
      → expand_env getenv (codes "pw: " ++ b'$' ∷ b'{' ∷ (codes "PW" ++ b'}' ∷ codes " ${Y}"))
        ≡ codes "pw: " ++ (getenv (codes "PW") ++ expand_env getenv (codes " ${Y}")))
    × (Lacks b'{' (codes "pw: ") → expand_env getenv (codes "pw: ") ≡ codes "pw: ")
expand_env_lem_example = expand_env_lem getenv (codes "pw: ") (codes "PW") (codes " ${Y}")

-- A file that holds the configuration, changed at a time.
abbrev files_at : ℕ → Files
files_at t = record {
  read_file = λ path. some [];
  mod_time = λ path. some t;
  getenv = getenv;
  unmarshal_config = λ text. some config;
  unmarshal_security = λ text. none;
}

abbrev pub path : Text
path = codes "/etc/config.yaml"

-- A watcher whose callback keeps the configuration.
abbrev watcher : Watcher (Option Config)
watcher = on_change (λ cfg rules kept. some cfg) (new_watcher (files_at 1) path)

abbrev poll : ℕ → Round
poll t = record { event = tick; poll = files_at t; read = files_at t; stat = files_at t }

reload_all_or_nothing_example :
    ((cfg : Config) × (rules : Option SecurityConfig) × Loads (files_at 1) watcher cfg rules
      × (reload (files_at 1) (files_at 2) watcher none
          ≡ (note_times (files_at 2) watcher, call_all watcher.callbacks cfg rules none)))
    ⊎ (CannotLoad (files_at 1) watcher
        × (reload (files_at 1) (files_at 2) watcher none ≡ (watcher, none)))
reload_all_or_nothing_example = reload_all_or_nothing (files_at 1) (files_at 2) watcher none

-- The file was read as of the time 1, and changed at the time 2 before its time was asked for.
ticks_after_reload_example :
    (let (w', s') = reload (files_at 1) (files_at 2) watcher none in
      watch (poll 2 ∷ poll 2 ∷ []) w' s')
    ≡ (note_times (files_at 2) watcher, call_all watcher.callbacks (set_defaults config) none none)
unfolding load load_rules on_change new_watcher
ticks_after_reload_example =
    ticks_after_reload (files_at 1) (files_at 2) (poll 2 ∷ poll 2 ∷ []) watcher none
      (set_defaults config) none (refl, refl) ((refl, refl), ((refl, refl), tt))

abbrev pub signal : Round
signal = record (poll 2) { event = hang_up }

abbrev happenings : List Happening
happenings = tool_call caller outside (query_call app_query) ∷ round signal ∷ []

-- The process that main starts, or else one that does not watch.
abbrev process : Process
process = elim (start (λ dsn. true) marshal mkdir (files_at 1) secret true 7 path) [
  | inl e ↦ record { server = started; watcher = none }
  | inr m ↦ m
]

run-IsSteady_example : IsSteady (run happenings process).server
unfolding start new_reloadable load load_rules new_server new_with new_validator_from_env new_pool
    get_dsn get_security new_logger insert format_ℤ
run-IsSteady_example =
    run-IsSteady (λ dsn. true) marshal mkdir (files_at 1) secret true 7 path process happenings refl

-- Files with rules
abbrev pub guarded_files : Files
guarded_files = record (files_at 1) {
  unmarshal_config =
      λ text. some (record config { security = record { config_file = codes "/etc/rules.yaml" } });
  unmarshal_security = λ text. some (record { security = rules });
}

abbrev pub guarded : Process
guarded = elim (start (λ dsn. true) marshal mkdir guarded_files secret true 7 path) [
  | inl e ↦ process
  | inr m ↦ m
]

-- The file after its databases were taken out, and a poll that finds it so
abbrev changed_files : Files
changed_files = record (files_at 2) {
  unmarshal_config = λ text. some (record config { databases = [] });
}

abbrev changed_poll : Round
changed_poll = record {
  event = tick;
  poll = changed_files;
  read = changed_files;
  stat = changed_files;
}

earlier_load_wins_example :
    let t =
      run_parts
        (reads (files_at 1)
          ∷ reads changed_files
          ∷ calls 1 changed_files
          ∷ calls 0 changed_files
          ∷ [])
        (record { watcher = watcher; state = none; loaded = [] }) in
    watch (changed_poll ∷ changed_poll ∷ []) t.watcher t.state ≡ (
      t.watcher,
      call_all watcher.callbacks
          (set_defaults config)
          none
          (call_all watcher.callbacks (set_defaults (record config { databases = [] })) none none),
    )
unfolding load load_rules on_change new_watcher
earlier_load_wins_example =
    earlier_load_wins (files_at 1) changed_files (changed_poll ∷ changed_poll ∷ []) watcher none
      (set_defaults config) (set_defaults (record config { databases = [] })) none none (refl, refl)
      (refl, refl) ((refl, refl), ((refl, refl), tt))
