-- ===== src/Server/Requests/Answered.antt =====
-- internal/server/http.go and internal/mcp/tools.go: a request with a valid token that calls `query`.
use safe_my_sqlmcp_server.Auth.Context.{Context}
