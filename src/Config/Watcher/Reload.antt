-- ===== src/Config/Watcher/Reload.antt =====
-- internal/config/watcher.go: when a change of the files reaches the callbacks.
use safe_my_sqlmcp_server.Base.{
  All, false, List, [], ◌∷◌, Option, ◌≡◌, ◌⊎◌, inl, inr, refl, arith, Sum-cases,
}
use safe_my_sqlmcp_server.Config.{Config, SecurityConfig}
use safe_my_sqlmcp_server.Config.Loading.{Files, LoadError, load, load_rules}
use safe_my_sqlmcp_server.Config.Watcher.{
  Watcher, call_all, note_times, reload, is_changed, check_mtime, tick, Round, react_to, watch,
}

-- A round of the poll that finds the files as they are in one moment
abbrev pub PollsAt : Files → Round → Type 0
PollsAt files r = (r.event ≡ tick) × (r.poll ≡ files)

module _ {S : Type 0} where
  -- Both files can be read.
  abbrev pub Loads : Files → Watcher S → Config → Option SecurityConfig → Type 0
  Loads files w cfg rules =
      (load files w.config_path ≡ inr cfg) × (load_rules files w.security_path ≡ inr rules)

  reload-Loads :
      (read stat : Files) (w : Watcher S) (s : S) (cfg : Config) (rules : Option SecurityConfig)
      → Loads read w cfg rules
      → reload read stat w s ≡ (note_times stat w, call_all w.callbacks cfg rules s)
  unfolding reload
  reload-Loads read stat w s cfg rules (loaded, secured) = rw (reload, loaded, secured)

  -- One of the files cannot be read, or holds what cannot be loaded.
  abbrev pub CannotLoad : Files → Watcher S → Type 0
  CannotLoad files w =
      ((e : LoadError) × (load files w.config_path ≡ inl e))
      ⊎ ((e : LoadError) × (load_rules files w.security_path ≡ inl e))

  -- A reload is all or nothing: both files can be loaded, the callbacks get what they hold and their
  -- times are noted, or one of them cannot be loaded and nothing changes.
  pub reload_all_or_nothing :
      (read stat : Files) (w : Watcher S) (s : S)
      → ((cfg : Config) × (rules : Option SecurityConfig) × Loads read w cfg rules
          × (reload read stat w s ≡ (note_times stat w, call_all w.callbacks cfg rules s)))
        ⊎ (CannotLoad read w × (reload read stat w s ≡ (w, s)))
  unfolding reload
  reload_all_or_nothing read stat w s = elim (Sum-cases (load read w.config_path)) [
    | inl (e, failed) ↦ inr (inl (e, failed), rw (reload, failed))
    | inr (cfg, loaded) ↦ elim (Sum-cases (load_rules read w.security_path)) [
      | inl (e, failed) ↦ inr (inr (e, failed), rw (reload, loaded, failed))
      | inr (rules, secured) ↦ inl (cfg, rules, (loaded, secured), rw (reload, loaded, secured))
    ]
  ]

  -- Files that are no newer than the times that were noted for them
  pub noted_is_unchanged :
      (files : Files) (w : Watcher S) → is_changed files (note_times files w) ≡ false
  unfolding is_changed note_times
  noted_is_unchanged files w = ground arith

  pub ticks_do_nothing :
      (files : Files) (rounds : List Round) (w : Watcher S) (s : S)
      → is_changed files w ≡ false
      → All (PollsAt files) rounds
      → watch rounds w s ≡ (w, s)
  unfolding watch react_to check_mtime
  ticks_do_nothing files [] w s same h = refl
  ticks_do_nothing files (r ∷ rounds) w s same ((is_tick, at), h) =
      rw (watch, is_tick, react_to, check_mtime, at, same)
        (ticks_do_nothing files rounds w s same h)

  -- Once both files were read, the poll does nothing for as long as it finds the files as they were
  -- when their times were asked for, which is after they were read. So a change that falls in between
  -- is never found by the poll: the callbacks keep what was read before the change.
  pub ticks_after_reload :
      (read stat : Files) (rounds : List Round) (w : Watcher S) (s : S) (cfg : Config)
      (rules : Option SecurityConfig)
      → Loads read w cfg rules
      → All (PollsAt stat) rounds
      → (let (w', s') = reload read stat w s in watch rounds w' s')
        ≡ (note_times stat w, call_all w.callbacks cfg rules s)
  ticks_after_reload read stat rounds w s cfg rules h polls =
      rw (reload-Loads read stat w s cfg rules h) (
        ticks_do_nothing stat rounds (note_times stat w) (call_all w.callbacks cfg rules s)
          (noted_is_unchanged stat w) polls)
