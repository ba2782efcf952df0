-- ===== src/Examples/Interleaved.antt =====
-- A call of `query` whose statement is checked before a reload and rewritten after a part of it.
use safe_my_sqlmcp_server.Base.{codes, true, [], ◌∷◌, some}
use safe_my_sqlmcp_server.Config.{SecurityConfig}
use safe_my_sqlmcp_server.Server.Interleaved.{
  Job, parsing, advance, finish, updates_of, apply_update, Live, reloads, set_config, set_checker,
  set_rewriter, set_pool, set_log,
}
use safe_my_sqlmcp_server.Examples.Auth.{validator}
use safe_my_sqlmcp_server.Examples.Samples.{
  rules, config, env, marshal, mkdir, handler, state, delete_all,
}

abbrev idle : Live
idle = record {
  server = record { validator = validator; handler = handler; state = state };
  jobs = [];
  reloads = [];
}

abbrev job : Job
job = record { env = env; database = codes "app"; sql = delete_all; phase = parsing }

abbrev checked_job : Job
checked_job = advance handler job

abbrev asked : Live
asked = record idle { jobs = checked_job ∷ [] }

abbrev loaded : SecurityConfig
loaded = record { security = rules }

abbrev reloading : Live
reloading = record asked { reloads = updates_of config (some loaded) ∷ [] }

abbrev updated : Live
updated = record reloading {
  server =
      apply_update (λ dsn. true) marshal mkdir (set_config config (some loaded)) reloading.server;
  reloads = (set_checker rules ∷ set_rewriter rules ∷ set_pool config ∷ set_log config ∷ []) ∷ [];
}

abbrev rewritten_job : Job
rewritten_job = advance updated.server.handler checked_job

abbrev rewriting : Live
rewriting = record updated { jobs = rewritten_job ∷ [] }

abbrev done : Live
done = record rewriting {
  server = finish rewritten_job handler.checker handler.rewriter rewriting.server;
  jobs = [];
}
