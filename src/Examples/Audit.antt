-- ===== src/Examples/Audit.antt =====
-- The audit log on concrete entries.
use safe_my_sqlmcp_server.Base.{Text, codes, false, [], ◌∷◌, ◌++◌, pos, none, some, ◌≡◌, ◌⊎◌, refl}
use safe_my_sqlmcp_server.Audit.{Entry, log, prepare}
use safe_my_sqlmcp_server.Audit.Laws.{IsRecordOf, lines_of, log-lines}
use safe_my_sqlmcp_server.Examples.Samples.{logger, marshal, mkdir}

abbrev entry : Entry
entry = record {
  timestamp = none;
  user_id = codes "u1";
  user_email = [];
  database = codes "app";
  sql = codes "SELECT 1";
  sql_type = codes "SELECT";
  status = codes "success";
  block_reason = [];
  rows_affected = pos 1;
  duration_ms = 2;
  sql_length = 0;
}

log_test :
    lines_of (log marshal mkdir 5 entry logger) ≡ (codes "SELECT...(truncated)" ++ 10 ∷ []) ∷ []
unfolding log prepare
log_test = refl

log-lines_example :
    ((logger.enabled ≡ false) × (log marshal mkdir 5 entry logger ≡ logger))
    ⊎ ((f : Entry) × IsRecordOf logger.max_sql_len 5 entry f
        × (((marshal f ≡ none) × (lines_of (log marshal mkdir 5 entry logger) ≡ lines_of logger))
            ⊎ ((line : Text) × (marshal f ≡ some line)
                × (lines_of (log marshal mkdir 5 entry logger)
                    ≡ lines_of logger ++ (line ++ 10 ∷ []) ∷ []))))
log-lines_example = log-lines marshal mkdir 5 entry logger (λ on none_there. cc)
