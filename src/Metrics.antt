-- ===== src/Metrics.antt =====
-- internal/metrics/metrics.go. The counters, gauges and histograms themselves are the Prometheus
-- library's; the model is the list of the calls that the code makes of it.
pub mod Labels
use safe_my_sqlmcp_server.Base.{
  ℕ, ◌*◌, ℤ, pos, Text, codes, format_ℤ, map, Bool, true, false, List, [], ◌∷◌, ◌++◌, Option, none,
  some, if◌then◌else◌,
}

-- The fields of Metrics
pub data Series : Type 0 where
  requests_total request_duration requests_active : Series
  queries_total query_duration queries_active query_rows : Series
  sql_injection_attempts blocked_queries security_violations : Series
  rate_limit_exceeded : Series
  auth_attempts auth_failures : Series
  db_connections_active db_connections_idle db_queries_total db_query_errors : Series
  mcp_calls_total mcp_call_duration mcp_errors : Series

-- A histogram has its buckets, in thousandths.
pub data Sort : Type 0 where
  counter gauge : Sort
  histogram : List ℕ → Sort

-- What a series is made with
pub record Opts : Type 0 where
  pub sort : Sort
  pub name : Text
  pub labels : List Text

abbrev pub counter_of : Text → List Text → Opts
counter_of name labels = record { sort = counter; name = name; labels = labels }

abbrev pub gauge_of : Text → List Text → Opts
gauge_of name labels = record { sort = gauge; name = name; labels = labels }

abbrev pub histogram_of : List ℕ → Text → List Text → Opts
histogram_of buckets name labels = record { sort = histogram buckets; name = name; labels = labels }

-- Seconds up to 5
abbrev pub short_times : List ℕ
short_times = 1 ∷ 5 ∷ 10 ∷ 25 ∷ 50 ∷ 100 ∷ 250 ∷ 500 ∷ 1_000 ∷ 2_500 ∷ 5_000 ∷ []

-- The series that Init makes
unfoldable pub opts : Series → Opts
opts requests_total =
    counter_of (codes "http_requests_total") (codes "method" ∷ codes "path" ∷ codes "status" ∷ [])
opts request_duration =
    histogram_of (short_times ++ 10_000 ∷ []) (codes "http_request_duration_seconds")
      (codes "method" ∷ codes "path" ∷ [])
opts requests_active = gauge_of (codes "http_requests_active") []
opts queries_total =
    counter_of (codes "db_queries_total") (codes "database" ∷ codes "operation" ∷ [])
opts query_duration =
    histogram_of short_times (codes "db_query_duration_seconds")
      (codes "database" ∷ codes "operation" ∷ [])
opts queries_active = gauge_of (codes "db_queries_active") []
opts query_rows =
    histogram_of
      (map (λ n. n * 1_000) (0 ∷ 1 ∷ 5 ∷ 10 ∷ 50 ∷ 100 ∷ 500 ∷ 1_000 ∷ 5_000 ∷ 10_000 ∷ []))
      (codes "db_query_rows") (codes "database" ∷ [])
opts sql_injection_attempts =
    counter_of (codes "security_sql_injection_attempts_total") (codes "database" ∷ [])
opts blocked_queries =
    counter_of (codes "security_blocked_queries_total") (codes "database" ∷ codes "reason" ∷ [])
opts security_violations = counter_of (codes "security_violations_total") (codes "type" ∷ [])
opts rate_limit_exceeded = counter_of (codes "rate_limit_exceeded_total") (codes "ip" ∷ [])
opts auth_attempts = counter_of (codes "auth_attempts_total") (codes "method" ∷ [])
opts auth_failures = counter_of (codes "auth_failures_total") (codes "method" ∷ codes "reason" ∷ [])
opts db_connections_active = gauge_of (codes "db_connections_active") (codes "cluster" ∷ [])
opts db_connections_idle = gauge_of (codes "db_connections_idle") (codes "cluster" ∷ [])
opts db_queries_total = counter_of (codes "db_connection_queries_total") (codes "cluster" ∷ [])
opts db_query_errors =
    counter_of (codes "db_query_errors_total") (codes "cluster" ∷ codes "error_type" ∷ [])
opts mcp_calls_total = counter_of (codes "mcp_calls_total") (codes "tool" ∷ [])
opts mcp_call_duration =
    histogram_of short_times (codes "mcp_call_duration_seconds") (codes "tool" ∷ [])
opts mcp_errors = counter_of (codes "mcp_errors_total") (codes "tool" ∷ codes "error_type" ∷ [])

-- The series in the order in which Init registers them
unfoldable pub registered : List Series
registered =
    requests_total ∷ request_duration ∷ requests_active ∷ queries_total ∷ query_duration
    ∷ queries_active ∷ query_rows ∷ sql_injection_attempts ∷ blocked_queries ∷ security_violations
    ∷ rate_limit_exceeded ∷ auth_attempts ∷ auth_failures ∷ db_connections_active
    ∷ db_connections_idle ∷ db_queries_total ∷ db_query_errors ∷ mcp_calls_total ∷ mcp_call_duration
    ∷ mcp_errors ∷ []

-- Init: the namespace of the instance, with the one there may be already
unfoldable pub init : Option Text → Text → Text
init none namespace = namespace
init (some instance) namespace = instance

-- Get
unfoldable pub get_instance : Option Text → Text
unfolding init
get_instance none = init none (codes "safemysql")
get_instance (some instance) = instance

-- A method of the library that is called, with a duration in nanoseconds or a number
pub data Op : Type 0 where
  inc dec : Op
  observe_duration : ℕ → Op
  observe set : ℤ → Op

-- `WithLabelValues`, and the method that is called on the result. A gauge without labels has none.
pub record Call : Type 0 where
  pub series : Series
  pub labels : List Text
  pub op : Op

abbrev pub call : Series → List Text → Op → Call
call series labels op = record { series = series; labels = labels; op = op }

-- (*Metrics).RecordRequest
unfoldable pub record_request : Text → Text → ℤ → ℕ → List Call
record_request method path status duration =
    call requests_total (method ∷ path ∷ format_ℤ status ∷ []) inc
    ∷ call request_duration (method ∷ path ∷ []) (observe_duration duration)
    ∷ []

-- (*Metrics).RecordQuery
unfoldable pub record_query : Text → Text → ℕ → ℤ → List Call
record_query database operation duration rows =
    call queries_total (database ∷ operation ∷ []) inc
    ∷ call query_duration (database ∷ operation ∷ []) (observe_duration duration)
    ∷ call query_rows (database ∷ []) (observe rows)
    ∷ []

-- (*Metrics).RecordSecurityViolation
unfoldable pub record_security_violation : Text → List Call
record_security_violation violation_type = call security_violations (violation_type ∷ []) inc ∷ []

-- (*Metrics).RecordBlockedQuery
unfoldable pub record_blocked_query : Text → Text → List Call
record_blocked_query database reason = call blocked_queries (database ∷ reason ∷ []) inc ∷ []

-- (*Metrics).RecordRateLimitExceeded
unfoldable pub record_rate_limit_exceeded : Text → List Call
record_rate_limit_exceeded ip = call rate_limit_exceeded (ip ∷ []) inc ∷ []

-- (*Metrics).RecordAuthAttempt
unfoldable pub record_auth_attempt : Text → Bool → List Call
record_auth_attempt method success =
    call auth_attempts (method ∷ []) inc
    ∷ (if success then [] else call auth_failures (method ∷ codes "invalid" ∷ []) inc ∷ [])

-- (*Metrics).RecordMCPCall, with whether there is an error
unfoldable pub record_mcp_call : Text → ℕ → Bool → List Call
record_mcp_call tool duration failed =
    call mcp_calls_total (tool ∷ []) inc
    ∷ call mcp_call_duration (tool ∷ []) (observe_duration duration)
    ∷ (if failed then call mcp_errors (tool ∷ codes "execution" ∷ []) inc ∷ [] else [])

-- (*Metrics).UpdateDBConnections
unfoldable pub update_db_connections : Text → ℤ → ℤ → List Call
update_db_connections cluster active idle =
    call db_connections_active (cluster ∷ []) (set active)
    ∷ call db_connections_idle (cluster ∷ []) (set idle)
    ∷ []
