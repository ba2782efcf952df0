-- ===== src/Config/Watcher.antt =====
-- internal/config/watcher.go: the watcher of the two files. A goroutine handles the events of fsnotify
-- and another one the ticks of the poll; each handler is a function of the watcher and of the state
-- `S` that the callbacks change. `filepath.Abs` and fsnotify are parameters.
pub mod Reload
pub mod Overlap
use safe_my_sqlmcp_server.Base.{
  ℕ, ltb, Text, text_eq, is_empty, Bool, true, false, not, ◌&&◌, ◌||◌, List, [], ◌∷◌, ◌++◌, Option,
  none, some, ◌⊎◌, inl, inr, if◌then◌else◌,
}
use safe_my_sqlmcp_server.Config.{Config, SecurityConfig}
use safe_my_sqlmcp_server.Config.Loading.{Files, LoadError, load, load_rules}

-- Watcher. An instant is a number, with 0 for the zero time.
pub record Watcher (S : Type 0) : Type 0 where
  pub config_path : Text
  pub security_path : Text
  pub callbacks : List (Config → Option SecurityConfig → S → S)
  pub last_config_mod : ℕ
  pub last_security_mod : ℕ

-- `if info, err := os.Stat(path); err == nil { last = info.ModTime() }`
abbrev pub mod_time_or : Files → Text → ℕ → ℕ
mod_time_or files path last = elim (files.mod_time path) [ none ↦ last | some t ↦ t ]

-- `info.ModTime().After(last)`, with no error of `os.Stat`
abbrev pub is_later : Files → Text → ℕ → Bool
is_later files path last = elim (files.mod_time path) [ none ↦ false | some t ↦ ltb last t ]

module _ {S : Type 0} where
  -- NewWatcher, with the absolute path, once fsnotify watches the directory
  unfoldable pub new_watcher : Files → Text → Watcher S
  new_watcher files path = record {
    config_path = path;
    security_path = [];
    callbacks = [];
    last_config_mod = mod_time_or files path 0;
    last_security_mod = 0;
  }

  -- (*Watcher).SetSecurityPath
  unfoldable pub set_security_path : Files → Text → Watcher S → Watcher S
  set_security_path files path w = record w {
    security_path = path;
    last_security_mod = mod_time_or files path w.last_security_mod;
  }

  -- (*Watcher).OnChange
  unfoldable pub on_change : (Config → Option SecurityConfig → S → S) → Watcher S → Watcher S
  on_change callback w = record w { callbacks = w.callbacks ++ callback ∷ [] }

  -- `for _, cb := range callbacks { cb(cfg, securityCfg) }`
  unfoldable pub call_all :
      List (Config → Option SecurityConfig → S → S) → Config → Option SecurityConfig → S → S
  call_all [] cfg rules s = s
  call_all (cb ∷ cbs) cfg rules s = call_all cbs cfg rules (cb cfg rules s)

  -- The times that are noted once both files are read
  unfoldable pub note_times : Files → Watcher S → Watcher S
  note_times files w = record w {
    last_config_mod = mod_time_or files w.config_path w.last_config_mod;
    last_security_mod =
        if is_empty w.security_path
        then w.last_security_mod
        else mod_time_or files w.security_path w.last_security_mod;
  }

  -- (*Watcher).reload, where no other reload runs in between; Overlap has its parts as steps. The
  -- files are read first and their times are asked for afterwards, so that the files may have
  -- changed in between.
  unfoldable pub reload : (read stat : Files) → Watcher S → S → Watcher S × S
  unfolding note_times call_all
  reload read stat w s = elim (load read w.config_path) [
    | inl e ↦ (w, s)
    | inr cfg ↦ elim (load_rules read w.security_path) [
      | inl e ↦ (w, s)
      | inr rules ↦ (note_times stat w, call_all w.callbacks cfg rules s)
    ]
  ]

  unfoldable pub is_changed : Files → Watcher S → Bool
  is_changed files w =
      is_later files w.config_path w.last_config_mod
      || (not (is_empty w.security_path) && is_later files w.security_path w.last_security_mod)

  -- (*Watcher).checkMtime
  unfoldable pub check_mtime : (poll read stat : Files) → Watcher S → S → Watcher S × S
  check_mtime poll read stat w s = if is_changed poll w then reload read stat w s else (w, s)

  -- (*Watcher).handleEvent, with the absolute path of the file if there is one
  unfoldable pub handle_event : (read stat : Files) → Option Text → Watcher S → S → Watcher S × S
  handle_event read stat none w s = (w, s)
  handle_event read stat (some path) w s =
      if not (text_eq path w.config_path) && not (text_eq path w.security_path)
      then (w, s)
      else reload read stat w s

-- What can wake the goroutines of Start and the main loop: an event of fsnotify with its operation and
-- file, a tick of the poll, or a signal to reload.
pub data Event : Type 0 where
  file_event : (is_write is_create : Bool) → Option Text → Event
  tick hang_up : Event

-- One round of a loop, with the files as they are when they are looked at, read and asked for their
-- times
pub record Round : Type 0 where
  pub event : Event
  pub poll : Files
  pub read : Files
  pub stat : Files

module _ {S : Type 0} where
  unfoldable pub react_to : Event → Round → Watcher S → S → Watcher S × S
  react_to (file_event is_write is_create path) r w s =
      if is_write || is_create then handle_event r.read r.stat path w s else (w, s)
  react_to tick r w s = check_mtime r.poll r.read r.stat w s
  react_to hang_up r w s = reload r.read r.stat w s

  -- The loops of Start, pollLoop and main, in one order of their rounds
  unfoldable pub watch : List Round → Watcher S → S → Watcher S × S
  unfolding react_to
  watch [] w s = (w, s)
  watch (r ∷ rounds) w s = let (w', s') = react_to r.event r w s in watch rounds w' s'
