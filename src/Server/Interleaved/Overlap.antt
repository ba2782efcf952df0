-- ===== src/Server/Interleaved/Overlap.antt =====
-- internal/server/http.go: two calls of UpdateConfig that overlap, by their updates of the rules.
use safe_my_sqlmcp_server.Base.{Text, Bool, [], ◌∷◌, Option, some, ◌≡◌, refl}
use safe_my_sqlmcp_server.Config.{SecurityRules}
use safe_my_sqlmcp_server.Audit.{Entry}
use safe_my_sqlmcp_server.Security.Checker.{update_checker}
use safe_my_sqlmcp_server.Security.Rewriter.{update_rewriter}
use safe_my_sqlmcp_server.Server.{Server}
use safe_my_sqlmcp_server.Server.Interleaved.{
  set_checker, set_rewriter, apply_update, apply_updates,
}

-- If a reload to the rules `b` runs whole after the first one has given the checker the rules `a`
-- and before it gives them to the rewriter, the checker has `b` at the end and the rewriter `a`.
overlapping_updates_differ :
    (sql_open : Text → Bool) (marshal : Entry → Option Text) (mkdir : Text → Bool)
    (a b : SecurityRules) (s : Server)
    → let end =
        apply_updates sql_open marshal mkdir
          (set_checker a ∷ set_checker b ∷ set_rewriter b ∷ set_rewriter a ∷ [])
          s in
      (end.handler.checker.rules ≡ some b) × (end.handler.rewriter.rules ≡ some a)
unfolding apply_updates apply_update update_checker update_rewriter
overlapping_updates_differ sql_open marshal mkdir a b s = (refl, refl)
