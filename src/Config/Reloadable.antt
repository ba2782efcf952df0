-- ===== src/Config/Reloadable.antt =====
-- internal/config/watcher.go, `ReloadableConfig`: the configuration that the handlers read. Its mutex
-- makes each call atomic, so a call is a function of the value.
use safe_my_sqlmcp_server.Base.{Option, none, some}
use safe_my_sqlmcp_server.Config.{Config, SecurityConfig, SecurityRules}

pub record ReloadableConfig : Type 0 where
  pub config : Config
  pub security : Option SecurityConfig

-- (*ReloadableConfig).GetSecurity
unfoldable pub get_security : ReloadableConfig → Option SecurityRules
get_security rc = elim rc.security [ none ↦ none | some s ↦ some s.security ]

-- (*ReloadableConfig).Update
unfoldable pub update_config : Config → Option SecurityConfig → ReloadableConfig → ReloadableConfig
update_config cfg security rc = record rc { config = cfg; security = security }
