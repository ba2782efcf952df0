-- ===== src/Security.antt =====
-- internal/security: the parser's summary of a statement, the checker and the rewriter.
pub mod Ast
pub mod Parser
pub mod Checker
pub mod Rewriter
