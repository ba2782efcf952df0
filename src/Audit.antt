-- ===== src/Audit.antt =====
-- internal/audit/logger.go: the audit log. The rotating file writer of lumberjack is a list of the
-- lines that were handed to it; `json.Marshal` and the clock are parameters. What goes to standard
-- error is left out.
pub mod Laws
use mathlib.Core.Option
use safe_my_sqlmcp_server.Base.{
  ℕ, ℤ, pos, Text, codes, Bool, true, false, not, ◌&&◌, List, [], ◌∷◌, ◌++◌, length, take, Option,
  none, some, ltb_ℤ, leb_ℤ, if◌then◌else◌, pos_part,
}
use safe_my_sqlmcp_server.Config.{AuditConfig}

-- Entry. A timestamp that is zero is `none`; an instant is a number of nanoseconds.
pub record Entry : Type 0 where
  pub timestamp : Option ℕ
  pub user_id : Text
  pub user_email : Text
  pub database : Text
  pub sql : Text
  pub sql_type : Text
  pub status : Text
  pub block_reason : Text
  pub rows_affected : ℤ
  pub duration_ms : ℕ
  pub sql_length : ℕ

-- A `*lumberjack.Logger` with its settings, what it was given to write, and whether it was closed.
pub record Writer : Type 0 where
  pub filename : Text
  pub max_size : ℤ
  pub max_backups : ℤ
  pub max_age : ℤ
  pub compress : Bool
  pub lines : List Text
  pub closed : Bool

-- Logger
pub record Logger : Type 0 where
  pub writer : Option Writer
  pub max_sql_len : ℤ
  pub enabled : Bool

abbrev pub new_writer : AuditConfig → Writer
new_writer cfg = record {
  filename = cfg.log_file;
  max_size = cfg.max_size_mb;
  max_backups = cfg.max_backups;
  max_age = cfg.max_age_days;
  compress = cfg.compress;
  lines = [];
  closed = false;
}

abbrev pub truncated_mark : Text
truncated_mark = codes "...(truncated)"

-- The entry as it is marshalled: with its time, the length of the whole statement, and the statement
-- cut at the limit.
unfoldable pub prepare : ℤ → ℕ → Entry → Entry
prepare max_sql_len now e = record e {
  timestamp = elim e.timestamp [ none ↦ some now | some t ↦ some t ];
  sql_length = length e.sql;
  sql =
      if ltb_ℤ (pos 0) max_sql_len && ltb_ℤ max_sql_len (pos (length e.sql))
      then take (pos_part max_sql_len) e.sql ++ truncated_mark
      else e.sql;
}

abbrev pub write_line : Text → Writer → Writer
write_line line w = record w { lines = w.lines ++ (line ++ 10 ∷ []) ∷ [] }

-- The writer after an entry was marshalled, or could not be. A line counts as handed to the writer
-- whether or not its `Write` fails, an error that `Log` only prints.
unfoldable pub write : Option Text → Option Writer → Option Writer
write none w = w
write (some line) none = none
write (some line) (some w) = some (write_line line w)

-- `writer.Close()`
unfoldable pub close_writer : Writer → Writer
close_writer w = record w { closed = true }

-- `mkdir` is what `os.MkdirAll` answers for the directory of a log file: whether it is there. A
-- logger that is enabled has a writer (Audit/Laws), so `write none` is never reached by `log`.
module _ (marshal : Entry → Option Text) (mkdir : Text → Bool) where
  -- (*Logger).Log
  unfoldable pub log : ℕ → Entry → Logger → Logger
  unfolding write
  log now e l =
      if not l.enabled
      then l
      else record l { writer = write (marshal (prepare l.max_sql_len now e)) l.writer }

  -- NewLogger; `none` is the error of the directory that cannot be made.
  unfoldable pub new_logger : AuditConfig → Option Logger
  new_logger cfg =
      if not cfg.enabled
      then some (record { writer = none; max_sql_len = pos 0; enabled = false })
      else if not (mkdir cfg.log_file)
      then none
      else some (record {
        writer = some (new_writer cfg);
        max_sql_len = cfg.max_sql_length;
        enabled = true;
      })

  -- (*Logger).UpdateConfig: the logger, what became of the writer that it held before, and whether
  -- the update went without an error. The two ways in which a writer can leave the logger differ.
  unfoldable pub update_logger : AuditConfig → Logger → Logger × Option Writer × Bool
  unfolding close_writer
  update_logger cfg l =
      if not cfg.enabled
      then (record l { writer = none; enabled = false }, Option.map close_writer l.writer, true)
      else if not (mkdir cfg.log_file)
      then (l, none, false)
      else (
        record { writer = some (new_writer cfg); max_sql_len = cfg.max_sql_length; enabled = true },
        l.writer,
        true,
      )

-- (*Logger).Close
unfoldable pub close_logger : Logger → Logger
unfolding close_writer
close_logger l = elim l.writer [ none ↦ l | some w ↦ record l { writer = some (close_writer w) } ]

-- (*Logger).TruncateSQL
unfoldable pub truncate_sql : Logger → Text → Text
truncate_sql l sql =
    if leb_ℤ l.max_sql_len (pos 0)
    then sql
    else if leb_ℤ (pos (length sql)) l.max_sql_len
    then sql
    else take (pos_part l.max_sql_len) sql
