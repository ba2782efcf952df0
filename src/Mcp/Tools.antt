-- ===== src/Mcp/Tools.antt =====
-- internal/mcp/tools.go: the tools as they are registered, the arguments of each, and a call of a tool
-- by the user of a context. The MCP SDK, which reads the arguments and sends the results, is not part
-- of this; what was registered with its server is the list of the calls of `AddTool`.
pub mod Effects
pub mod Panics
use safe_my_sqlmcp_server.Base.{
  ℕ, Text, codes, Bool, true, false, List, [], ◌∷◌, ◌++◌, Option, none, some, ◌⊎◌, inl, inr,
  if◌then◌else◌,
}
use safe_my_sqlmcp_server.Validation.{ValidationError}
use safe_my_sqlmcp_server.Auth.Context.{Context, get_user_id, get_user_email}
use safe_my_sqlmcp_server.Mcp.Handler.{Handler, Env, State}
use safe_my_sqlmcp_server.Mcp.Query
use safe_my_sqlmcp_server.Mcp.Query.{handle_query_tool}
use safe_my_sqlmcp_server.Mcp.Explain
use safe_my_sqlmcp_server.Mcp.Explain.{handle_explain_tool}
use safe_my_sqlmcp_server.Mcp.Catalog
use safe_my_sqlmcp_server.Mcp.Catalog.{
  Responses, Answer, ListTablesResult, ColumnInfo, execute_list_databases, handle_list_tables_tool,
  handle_describe_table_tool, handle_show_create_table_tool,
}
use safe_my_sqlmcp_server.Mcp.Search.{
  search_statements, Catalog, SearchTablesResult, handle_search_tables_tool,
}

-- The methods of the handler that are registered
pub data Method : Type 0 where
  query_tool list_databases_tool list_tables_tool describe_table_tool : Method
  show_create_table_tool explain_tool search_tables_tool : Method

-- mcp.Tool, with the method that is registered for it
pub record Tool : Type 0 where
  pub name : Text
  pub description : Text
  pub method : Method

abbrev pub tool : Text → Text → Method → Tool
tool name description method = record { name = name; description = description; method = method }

-- The server of the SDK, as the tools that were added to it, and whether the sync.Once of the HTTP
-- server has run
pub record McpServer : Type 0 where
  pub name : Text
  pub version : Text
  pub tools : List Tool
  pub is_registered : Bool

-- NewMCPServer
unfoldable pub new_mcp_server : McpServer
new_mcp_server = record {
  name = codes "safe-mysql-mcp";
  version = codes "0.1.0";
  tools = [];
  is_registered = false;
}

-- RegisterTools
unfoldable pub register_tools : McpServer → McpServer
register_tools s = record s {
  tools =
      s.tools
      ++ (tool (codes "query") (codes "Execute SQL query on specified database") query_tool
          ∷ tool (codes "list_databases") (codes "List all available databases") list_databases_tool
          ∷ tool (codes "list_tables") (codes "List tables in specified database") list_tables_tool
          ∷ tool (codes "describe_table") (codes "Get table structure") describe_table_tool
          ∷ tool (codes "show_create_table") (codes "Get CREATE TABLE statement")
              show_create_table_tool
          ∷ tool (codes "explain") (codes "Get SQL execution plan") explain_tool
          ∷ tool (codes "search_tables") (codes "Search tables by name across all databases")
              search_tables_tool
          ∷ []);
}

-- `s.registerTools.Do(func() { mcp.RegisterTools(s.mcpServer, s.handler) })`
unfoldable pub register_once : McpServer → McpServer
unfolding register_tools
register_once s = if s.is_registered then s else record (register_tools s) { is_registered = true }

-- QueryInput
pub record QueryInput : Type 0 where
  pub database : Text
  pub sql : Text

-- ListTablesInput
pub record ListTablesInput : Type 0 where
  pub database : Text

-- DescribeTableInput
pub record DescribeTableInput : Type 0 where
  pub database : Text
  pub table : Text

-- ShowCreateTableInput
pub record ShowCreateTableInput : Type 0 where
  pub database : Text
  pub table : Text

-- ExplainInput
pub record ExplainInput : Type 0 where
  pub database : Text
  pub sql : Text

-- SearchTablesInput
pub record SearchTablesInput : Type 0 where
  pub table_pattern : Text

-- A call that the SDK makes of a method, with the arguments that it has read
pub data Call : Type 0 where
  query_call : QueryInput → Call
  list_databases_call : Call
  list_tables_call : ListTablesInput → Call
  describe_table_call : DescribeTableInput → Call
  show_create_table_call : ShowCreateTableInput → Call
  explain_call : ExplainInput → Call
  search_tables_call : SearchTablesInput → Call

-- What a method gives back to the SDK
pub data Result : Type 0 where
  query_result : Query.ToolReply → Result
  list_databases_result : List Text → Result
  list_tables_result : Answer ListTablesResult → Result
  describe_table_result : Answer (List ColumnInfo) → Result
  show_create_table_result : Answer Text → Result
  explain_result : Explain.ToolReply → Result
  search_tables_result : ValidationError ⊎ SearchTablesResult → Result

-- What a call finds outside, but for its user: `env` is for the statements of `query` and `explain`,
-- the other two are what the server answers to the other tools.
pub record Outside : Type 0 where
  pub env : Env
  pub catalog : Catalog
  pub responses : Responses

-- The user that a call finds in its context
abbrev pub env_for : Context → Outside → Env
env_for ctx o = record o.env { user_id = get_user_id ctx; user_email = get_user_email ctx }

-- (*Handler).handleListDatabasesTool, whose `executeListDatabases` gives no error
abbrev pub handle_list_databases_tool : Handler → List Text
handle_list_databases_tool h = execute_list_databases h

module _ (ctx : Context) (o : Outside) (h : Handler) where
  -- The method that a call is of
  unfoldable pub call_tool : Call → State → State × Result
  call_tool (query_call i) st =
      let (st', r) = handle_query_tool (env_for ctx o) h i.database i.sql st in
      (st', query_result r)
  call_tool list_databases_call st = (st, list_databases_result (handle_list_databases_tool h))
  call_tool (list_tables_call i) st =
      let c = handle_list_tables_tool o.responses h st.pool i.database in
      (record st { pool = c.pool; asked = st.asked ++ c.sent }, list_tables_result c.answer)
  call_tool (describe_table_call i) st =
      let c = handle_describe_table_tool o.responses h st.pool i.database i.table in
      (record st { pool = c.pool; asked = st.asked ++ c.sent }, describe_table_result c.answer)
  call_tool (show_create_table_call i) st =
      let c = handle_show_create_table_tool o.responses h st.pool i.database i.table in
      (record st { pool = c.pool; asked = st.asked ++ c.sent }, show_create_table_result c.answer)
  call_tool (explain_call i) st =
      let (st', r) = handle_explain_tool (env_for ctx o) h i.database i.sql st in
      (st', explain_result r)
  call_tool (search_tables_call i) st =
      let (q, r) = handle_search_tables_tool o.catalog h i.table_pattern st.pool in
      let asked = search_statements o.catalog h i.table_pattern st.pool in
      (record st { pool = q; asked = st.asked ++ asked }, search_tables_result r)

-- How a result is told to the client: as structured content, as text with `IsError`, of which this is
-- the beginning, or not at all, since the method panicked.
pub data Told : Type 0 where
  structured : Told
  error_text : Text → Told
  panics : Told

abbrev pub validation_text : Text
validation_text = codes "Validation error: "

abbrev pub error_prefix : Text
error_prefix = codes "Error: "

abbrev pub told_answer : {R : Type 0} → Answer R → Told
told_answer (Catalog.answered r) = structured
told_answer (Catalog.refused e) = error_text validation_text
told_answer (Catalog.unreachable e) = error_text error_prefix
told_answer (Catalog.scan_failed e) = error_text error_prefix

-- What the methods make of the results and errors of what they call
unfoldable pub told : Result → Told
told (query_result (Query.answered r)) = structured
told (query_result (Query.invalid e)) = error_text validation_text
told (query_result (Query.errored e)) = error_text error_prefix
told (query_result Query.crashed) = panics
told (list_databases_result dbs) = structured
told (list_tables_result a) = told_answer a
told (describe_table_result a) = told_answer a
told (show_create_table_result a) = told_answer a
told (explain_result (Explain.invalid e)) = error_text validation_text
told (explain_result (Explain.ran (Explain.explained r))) = structured
told (explain_result (Explain.ran (Explain.failed e))) = error_text error_prefix
told (explain_result (Explain.ran Explain.panicked)) = panics
told (search_tables_result (inl e)) = error_text validation_text
told (search_tables_result (inr r)) = structured
