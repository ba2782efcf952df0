-- ===== src/Config/Loading.antt =====
-- internal/config/config.go and watcher.go: how a configuration is read. The file system, the
-- environment and the YAML library are parameters.
pub mod Expansion
use safe_my_sqlmcp_server.Base.{
  ℕ, zero, suc, ◌+◌, ◌==◌, Text, length, is_empty, Bool, true, false, ◌||◌, List, [], ◌∷◌, ◌++◌,
  Option, none, some, ◌⊎◌, inl, inr, if◌then◌else◌,
}
use safe_my_sqlmcp_server.Config.{Config, SecurityConfig}
use safe_my_sqlmcp_server.Config.Defaults.{set_defaults}
use safe_my_sqlmcp_server.Config.Reloadable.{ReloadableConfig}

-- What is found outside at one moment: `os.ReadFile`, the time of `os.Stat`, `os.Getenv`, and
-- `yaml.Unmarshal` into the two structs; `none` is an error.
pub record Files : Type 0 where
  pub read_file : Text → Option Text
  pub mod_time : Text → Option ℕ
  pub getenv : Text → Text
  pub unmarshal_config : Text → Option Config
  pub unmarshal_security : Text → Option SecurityConfig

pub data LoadError : Type 0 where
  read_failed parse_failed : LoadError

-- The bytes in front of the first `}`, and whether there is one
unfoldable pub before_brace : Text → Text × Bool
before_brace [] = ([], false)
before_brace (c ∷ s) =
    let (name, closed) = before_brace s in if c == b'}' then ([], true) else (c ∷ name, closed)

-- The name of `\$\{([^}]+)\}` at the head of a text, if it matches there
unfoldable pub match_variable : Text → Option Text
unfolding before_brace
match_variable (d ∷ b ∷ s) =
    let (name, closed) = before_brace s in
    if d == b'$'
    then (if b == b'{'
        then (if closed then (if is_empty name then none else some name) else none)
        else none)
    else none
match_variable _ = none

-- The replacement of all matches. `skip` counts the bytes left of the match that was just replaced.
unfoldable pub expand_from : (Text → Text) → ℕ → Text → Text
expand_from getenv skip [] = []
expand_from getenv (suc skip) (c ∷ s) = expand_from getenv skip s
expand_from getenv zero (c ∷ s) = elim (match_variable (c ∷ s)) [
  | none ↦ c ∷ expand_from getenv 0 s
  | some name ↦ getenv name ++ expand_from getenv (length name + 2) s
]

-- expandEnv
unfoldable pub expand_env : (Text → Text) → Text → Text
unfolding expand_from match_variable
expand_env getenv s = expand_from getenv 0 s

-- Load
unfoldable pub load : Files → Text → LoadError ⊎ Config
unfolding expand_env set_defaults
load files path = elim (files.read_file path) [
  | none ↦ inl read_failed
  | some contents ↦ elim (files.unmarshal_config (expand_env files.getenv contents)) [
    | none ↦ inl parse_failed
    | some cfg ↦ inr (set_defaults cfg)
  ]
]

-- LoadSecurity
unfoldable pub load_security : Files → Text → LoadError ⊎ SecurityConfig
load_security files path = elim (files.read_file path) [
  | none ↦ inl read_failed
  | some contents ↦ elim (files.unmarshal_security contents) [
    | none ↦ inl parse_failed
    | some cfg ↦ inr cfg
  ]
]

-- The security file of a configuration, if a path is set
unfoldable pub load_rules : Files → Text → LoadError ⊎ Option SecurityConfig
unfolding load_security
load_rules files path =
    if is_empty path
    then inr none
    else elim (load_security files path) [ inl e ↦ inl e | inr c ↦ inr (some c) ]

-- NewReloadableConfig
unfoldable pub new_reloadable : Files → Text → LoadError ⊎ ReloadableConfig
unfolding load load_rules
new_reloadable files path = elim (load files path) [
  | inl e ↦ inl e
  | inr cfg ↦ elim (load_rules files cfg.security.config_file) [
    | inl e ↦ inl e
    | inr rules ↦ inr (record { config = cfg; security = rules })
  ]
]
