-- ===== src/Config/Watcher/Overlap.antt =====
-- internal/config/watcher.go: reloads that overlap. The goroutine of the events, that of the poll
-- and the main loop each call reload, which holds no lock while it reads the files, nor while it
-- calls the callbacks.
use safe_my_sqlmcp_server.Base.{
  ℕ, zero, suc, All, List, [], ◌∷◌, ◌++◌, Option, none, some, ◌≡◌, inl, inr, Sum-cases,
}
use safe_my_sqlmcp_server.Config.{Config, SecurityConfig}
use safe_my_sqlmcp_server.Config.Loading.{Files, load, load_rules}
use safe_my_sqlmcp_server.Config.Watcher.{Watcher, Round, call_all, note_times, reload, watch}
use safe_my_sqlmcp_server.Config.Watcher.Reload.{
  Loads, PollsAt, ticks_do_nothing, noted_is_unchanged,
}

-- What a reload has read
abbrev pub Loaded : Type 0
Loaded = Config × Option SecurityConfig

-- The watcher, what its callbacks change, and the reloads that have read the files and not yet called
-- them, the earliest first
pub record Shared (S : Type 0) : Type 0 where
  pub watcher : Watcher S
  pub state : S
  pub loaded : List Loaded

-- A part of a call of reload: it reads the files as they are, or, for the reload at a place of the
-- list, it asks for their times and calls the callbacks.
pub data Part : Type 0 where
  reads : Files → Part
  calls : ℕ → Files → Part

-- The reload at a place, and the others
unfoldable pub take_out : ℕ → List Loaded → Option (Loaded × List Loaded)
take_out n [] = none
take_out zero (x ∷ xs) = some (x, xs)
take_out (suc n) (x ∷ xs) = elim (take_out n xs) [ none ↦ none | some (y, ys) ↦ some (y, x ∷ ys) ]

module _ {S : Type 0} where
  -- The beginning of reload, with its returns where a file cannot be read
  unfoldable pub read_files : Files → Shared S → Shared S
  read_files files t = elim (load files t.watcher.config_path) [
    | inl e ↦ t
    | inr cfg ↦ elim (load_rules files t.watcher.security_path) [
      | inl e ↦ t
      | inr rules ↦ record t { loaded = t.loaded ++ (cfg, rules) ∷ [] }
    ]
  ]

  -- The end of reload
  unfoldable pub call_callbacks : ℕ → Files → Shared S → Shared S
  unfolding take_out
  call_callbacks n files t = elim (take_out n t.loaded) [
    | none ↦ t
    | some (l, rest) ↦ record {
      watcher = note_times files t.watcher;
      state = call_all t.watcher.callbacks l.0 l.1 t.state;
      loaded = rest;
    }
  ]

  unfoldable pub run_parts : List Part → Shared S → Shared S
  unfolding read_files call_callbacks
  run_parts [] t = t
  run_parts (reads files ∷ ps) t = run_parts ps (read_files files t)
  run_parts (calls n files ∷ ps) t = run_parts ps (call_callbacks n files t)

  read_files-Loads :
      (files : Files) (t : Shared S) (cfg : Config) (rules : Option SecurityConfig)
      → Loads files t.watcher cfg rules
      → read_files files t ≡ record t { loaded = t.loaded ++ (cfg, rules) ∷ [] }
  unfolding read_files
  read_files-Loads files t cfg rules (loaded, secured) = rw (read_files, loaded, secured)

  -- The parts of one reload, with nothing in between, are the reload.
  pub run_parts_alone :
      (read stat : Files) (w : Watcher S) (s : S)
      → run_parts (reads read ∷ calls 0 stat ∷ []) (record { watcher = w; state = s; loaded = [] })
        ≡ (let (w', s') = reload read stat w s in record { watcher = w'; state = s'; loaded = [] })
  unfolding run_parts read_files call_callbacks take_out reload
  run_parts_alone read stat w s = elim (Sum-cases (load read w.config_path)) [
    | inl (e, failed) ↦ rw (read_files, reload, failed)
    | inr (cfg, found) ↦ elim (Sum-cases (load_rules read w.security_path)) [
      | inl (e, failed) ↦ rw (read_files, reload, found, failed)
      | inr (rules, secured) ↦ rw (read_files, reload, found, secured)
    ]
  ]

  -- A reload that read both files before they changed, and one that read them afterwards, overlap.
  -- If the later one calls the callbacks first, the earlier one calls them last, with what the
  -- files held before the change; and the poll does nothing from then on for as long as the files
  -- stay as they are after it. So what was replaced stays in force.
  pub earlier_load_wins :
      (before after : Files) (rounds : List Round) (w : Watcher S) (s : S) (cfg cfg' : Config)
      (rules rules' : Option SecurityConfig)
      → Loads before w cfg rules
      → Loads after w cfg' rules'
      → All (PollsAt after) rounds
      → let t =
          run_parts
            (reads before ∷ reads after ∷ calls 1 after ∷ calls 0 after ∷ [])
            (record { watcher = w; state = s; loaded = [] }) in
        watch rounds t.watcher t.state
        ≡ (t.watcher, call_all w.callbacks cfg rules (call_all w.callbacks cfg' rules' s))
  unfolding run_parts call_callbacks take_out note_times
  earlier_load_wins before after rounds w s cfg cfg' rules rules' old new polls =
      let t : Shared S = record { watcher = w; state = s; loaded = [] } in
      let u : Shared S = record t { loaded = (cfg, rules) ∷ [] } in
      rw (read_files-Loads before t cfg rules old, read_files-Loads after u cfg' rules' new)
        (ticks_do_nothing after rounds (note_times after (note_times after w))
          (call_all w.callbacks cfg rules (call_all w.callbacks cfg' rules' s))
          (noted_is_unchanged after (note_times after w)) polls)
