-- ===== src/Server/Interleaved/Guarded.antt =====
-- internal/mcp/tools.go and internal/server/http.go: what reaches the database when calls of
-- `query` and reloads are interleaved.
use safe_my_sqlmcp_server.Base.{Text, All}
use safe_my_sqlmcp_server.Security.Parser.{TidbResult}
use safe_my_sqlmcp_server.Security.Checker.{Checker}
use safe_my_sqlmcp_server.Security.Rewriter.{Rewriter}
use safe_my_sqlmcp_server.Server.{Server}
use safe_my_sqlmcp_server.Server.Interleaved.{Live, Runs}
use safe_my_sqlmcp_server.Server.Interleaved.Vetted.{Saw, IsGuarded}

-- What a state of a run is: it has rules, its jobs have seen what the server had, and what was sent was
-- vetted.
record Holds (tidb : Text → TidbResult) (k l : Live) : Type 0 where
  run : Runs tidb k l
  guarded : IsGuarded tidb k l
  jobs : All (Saw tidb k l) l.jobs
