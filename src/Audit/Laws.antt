-- ===== src/Audit/Laws.antt =====
-- internal/audit/logger.go: what reaches the audit log.
use safe_my_sqlmcp_server.Base.{
  ℕ, ℤ, pos, pos_part, ◌<ℤ◌, Text, Bool, true, false, List, [], ◌∷◌, ◌++◌, length, take, drop,
  take-append-drop, length-take, Option, none, some, ◌≡◌, ◌≢◌, ◌⊎◌, refl, inl, inr, arith, not, sym,
  Bool-cases, Option-cases, ltb_ℤ, ◌&&◌,
}
use safe_my_sqlmcp_server.Config.{AuditConfig}
use safe_my_sqlmcp_server.Audit.{
  Entry, Writer, Logger, prepare, write, log, new_logger, update_logger, close_writer,
  truncated_mark,
}

-- What a prepared entry says of the entry it was made from: everything but the statement's text is
-- there as it was, the length is the whole statement's, the time is set, and the text is the whole
-- statement or, only where that is longer than a positive limit, its first bytes up to the limit and
-- the mark of the cut.
pub record IsRecordOf (limit : ℤ) (now : ℕ) (e f : Entry) : Type 0 where
  pub user : (f.user_id ≡ e.user_id) × (f.user_email ≡ e.user_email) × (f.database ≡ e.database)
  pub outcome :
      (f.sql_type ≡ e.sql_type)
      × (f.status ≡ e.status)
      × (f.block_reason ≡ e.block_reason)
      × (f.rows_affected ≡ e.rows_affected)
      × (f.duration_ms ≡ e.duration_ms)
  pub whole_length : f.sql_length ≡ length e.sql
  pub stamped :
      ((e.timestamp ≡ none) × (f.timestamp ≡ some now))
      ⊎ ((f.timestamp ≡ e.timestamp) × (f.timestamp ≢ none))
  pub text :
      (f.sql ≡ e.sql)
      ⊎ ((pos 0 <ℤ limit)
          × (limit <ℤ pos (length e.sql))
          × ((kept cut : Text) × (e.sql ≡ kept ++ cut)
              × (f.sql ≡ kept ++ truncated_mark)
              × (length kept ≡ pos_part limit)))

pub prepare-IsRecordOf :
    (limit : ℤ) (now : ℕ) (e : Entry) → IsRecordOf limit now e (prepare limit now e)
unfolding prepare
prepare-IsRecordOf limit now e = record {
  user = (refl, refl, refl);
  outcome = (refl, refl, refl, refl, refl);
  whole_length = refl;
  stamped = ground arith;
  text = elim (Bool-cases (ltb_ℤ (pos 0) limit && ltb_ℤ limit (pos (length e.sql)))) [
    | inl long ↦ inr (
      ground arith,
      ground arith,
      (
        take (pos_part limit) e.sql,
        drop (pos_part limit) e.sql,
        sym (take-append-drop (pos_part limit) e.sql),
        rw long refl,
        ground (arith, length-take (pos_part limit) e.sql),
      ),
    )
    | inr short ↦ inl (rw short refl)
  ];
}

-- The lines that a logger's writer holds.
abbrev pub lines_of : Logger → List Text
lines_of l = elim l.writer [ none ↦ [] | some w ↦ w.lines ]

-- A logger writes only through its writer.
abbrev pub IsReady : Logger → Type 0
IsReady l = l.enabled ≡ true → l.writer ≢ none

module _ (marshal : Entry → Option Text) (mkdir : Text → Bool) where
  new_logger-IsReady :
      (cfg : AuditConfig) (l : Logger) → new_logger marshal mkdir cfg ≡ some l → IsReady l
  unfolding new_logger
  new_logger-IsReady cfg l e = ground arith

  pub log-IsReady :
      (now : ℕ) (e : Entry) (l : Logger) → IsReady l → IsReady (log marshal mkdir now e l)
  unfolding log write
  log-IsReady now e l h = ground arith

  update_logger-IsReady :
      (cfg : AuditConfig) (l : Logger) → IsReady l → IsReady (update_logger marshal mkdir cfg l).0
  unfolding update_logger
  update_logger-IsReady cfg l h = ground arith

  -- A logger that is made from a configuration, and then logs and is reconfigured in any order, has a
  -- writer whenever it is enabled: no entry is written through a nil writer.
  pub loggers-IsReady :
      (cfg : AuditConfig) (l : Logger)
      → (new_logger marshal mkdir cfg ≡ some l → IsReady l)
        × (IsReady l
            → ((now : ℕ) (e : Entry) → IsReady (log marshal mkdir now e l))
              × IsReady (update_logger marshal mkdir cfg l).0)
  loggers-IsReady cfg l = (
    new_logger-IsReady cfg l,
    (λ h. ((λ now e. log-IsReady now e l h), update_logger-IsReady cfg l h)),
  )

  -- An enabled logger appends exactly one line for each entry that can be marshalled, the marshalled
  -- form of a faithful record of the entry, and keeps the lines before it; a disabled logger does
  -- nothing.
  pub log-lines :
      (now : ℕ) (e : Entry) (l : Logger)
      → IsReady l
      → ((l.enabled ≡ false) × (log marshal mkdir now e l ≡ l))
        ⊎ ((f : Entry) × IsRecordOf l.max_sql_len now e f
            × (((marshal f ≡ none) × (lines_of (log marshal mkdir now e l) ≡ lines_of l))
                ⊎ ((line : Text) × (marshal f ≡ some line)
                    × (lines_of (log marshal mkdir now e l)
                        ≡ lines_of l ++ (line ++ 10 ∷ []) ∷ []))))
  unfolding log write
  log-lines now e l h =
      let f = prepare l.max_sql_len now e in
      elim (Bool-cases l.enabled) [
        | inl on ↦ elim (Option-cases (marshal f)) [
          | inl failed ↦ inr (f, prepare-IsRecordOf l.max_sql_len now e, inl (failed, ground arith))
          | inr (line, written) ↦
              inr
                (f, prepare-IsRecordOf l.max_sql_len now e, inr (line, written, ground (arith, h)))
        ]
        | inr off ↦ inl (off, ground arith)
      ]

  -- Reconfiguring an enabled logger leaves the writer that it held before open, while disabling it
  -- closes that writer.
  pub update_logger_leaves :
      (cfg : AuditConfig) (l : Logger) (w : Writer)
      → l.writer ≡ some w
      → w.closed ≡ false
      → mkdir cfg.log_file ≡ true
      → (old : Writer) × ((update_logger marshal mkdir cfg l).1 ≡ some old)
        × (old.closed ≡ not cfg.enabled)
  unfolding update_logger close_writer
  update_logger_leaves cfg l w e open_before made = elim (Bool-cases cfg.enabled) [
    | inl on ↦ (w, ground arith, ground arith)
    | inr off ↦ (close_writer w, ground arith, ground arith)
  ]
