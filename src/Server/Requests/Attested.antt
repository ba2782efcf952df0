-- ===== src/Server/Requests/Attested.antt =====
-- internal/audit/logger.go behind internal/server/http.go: for whom the lines of the audit log are.
use safe_my_sqlmcp_server.Base.{
  ℕ, Text, Bool, true, List, [], ◌∷◌, ◌++◌, Option, some, All, All-append, ◌≡◌, ◌∙◌, ◌⊎◌, inl, inr,
  refl, ap, subst, sym, arith, Bool-cases, Option-cases,
}
use safe_my_sqlmcp_server.Config.{AuditConfig}
use safe_my_sqlmcp_server.Audit.{Entry, Logger, prepare, write, log, update_logger}
use safe_my_sqlmcp_server.Audit.Laws.{lines_of, prepare-IsRecordOf}
use safe_my_sqlmcp_server.Auth.{Claims, Validator, Method, hmac, Jwt, token, key_for}
use safe_my_sqlmcp_server.Auth.Context.{context_with_user, get_user_id, get_user_email}
use safe_my_sqlmcp_server.Mcp.Handler.{Env, Handler, State}
use safe_my_sqlmcp_server.Mcp.Query.Audited.{execute_query-Audited}
use safe_my_sqlmcp_server.Mcp.Explain.Steps.{explain_sends}
use safe_my_sqlmcp_server.Mcp.Tools.{Call, Outside, env_for, told, call_tool}
use safe_my_sqlmcp_server.Mcp.Tools.Effects.{Effect, silent, queries, explains, call_tool-Effect}
use safe_my_sqlmcp_server.Server.Main.{Process, tool_call, happen}
use safe_my_sqlmcp_server.Server.Requests.{is_panic, call_tools}
use safe_my_sqlmcp_server.Server.Requests.Trace.{IsSigned}

-- What became of the lines of a logger: they are as they were, or one was added, for a user.
abbrev LogsFor : (Entry → Option Text) → (id email : Text) → Logger → Logger → Type 0
LogsFor marshal id email l l' =
    (lines_of l' ≡ lines_of l)
    ⊎ ((f : Entry) × (line : Text) × (marshal f ≡ some line)
        × (f.user_id ≡ id)
        × (f.user_email ≡ email)
        × (lines_of l' ≡ lines_of l ++ (line ++ 10 ∷ []) ∷ []))

log-LogsFor :
    (marshal : Entry → Option Text) (mkdir : Text → Bool) (now : ℕ) (e : Entry) (l : Logger)
    → LogsFor marshal e.user_id e.user_email l (log marshal mkdir now e l)
unfolding log write
log-LogsFor marshal mkdir now e l =
    let f = prepare l.max_sql_len now e in
    let same = (prepare-IsRecordOf l.max_sql_len now e).user in
    elim (Bool-cases l.enabled) [
      | inr off ↦ inl (ground arith)
      | inl on ↦ elim (Option-cases (marshal f)) [
        | inl failed ↦ inl (ground arith)
        | inr (line, written) ↦ elim (Option-cases l.writer) [
          | inl closed ↦ inl (ground arith)
          | inr (w, there) ↦ inr (f, line, written, same.0, same.1, ground arith)
        ]
      ]
    ]

Effect-LogsFor :
    (env : Env) (h : Handler) (st st' : State)
    → Effect env h st st'
    → LogsFor env.marshal env.user_id env.user_email st.logger st'.logger
Effect-LogsFor env h st st' (silent unsent same) = inl (ap lines_of same)
Effect-LogsFor env h st st' (explains db sql e) =
    inl (rw e (ap lines_of (explain_sends env h db sql st).1))
Effect-LogsFor env h st st' (queries db sql e) = elim (execute_query-Audited env h db sql st) [
  | inr (quiet, same) ↦ inl (rw e (ap lines_of same))
  | inl (entry, (id, email, database, text), told, logged) ↦
      rw (e, logged, ← id, ← email) (log-LogsFor env.marshal env.mkdir env.now entry st.logger)
]

pub lines_of-update_logger :
    (marshal : Entry → Option Text) (mkdir : Text → Bool) (cfg : AuditConfig) (l : Logger)
    → (lines_of (update_logger marshal mkdir cfg l).0 ≡ lines_of l)
      ⊎ (lines_of (update_logger marshal mkdir cfg l).0 ≡ [])
unfolding update_logger
lines_of-update_logger marshal mkdir cfg l = elim (Bool-cases cfg.enabled) [
  | inr off ↦ inr (ground arith)
  | inl on ↦ elim (Bool-cases (mkdir cfg.log_file)) [
    | inl made ↦ inr (ground arith)
    | inr failed ↦ inl (ground arith)
  ]
]

abbrev pub logger_of : Process → Logger
logger_of m = m.server.state.logger

-- The calls marshal an entry as the process does.
abbrev pub MarshalsBy : (Entry → Option Text) → Outside → Type 0
MarshalsBy marshal o = o.env.marshal ≡ marshal

module _ (marshal : Entry → Option Text) (Verifies : Method → Text → Text → Type 0) (jwt : ℕ → Jwt)
    (v : Validator) where
  -- A line that is the record of an entry, as `json.Marshal` gives it, for the user of a token that the
  -- library has verified with the secret of the validator, by an HMAC method, at some time
  pub record IsAttested (line : Text) : Type 0 where
    pub entry : Entry
    pub text : Text
    pub written : (marshal entry ≡ some text) × (line ≡ text ++ 10 ∷ [])
    pub now : ℕ
    pub bearer : Text
    pub claims : Claims
    pub verified : Verifies hmac bearer v.secret
    pub read : jwt now bearer (key_for v) ≡ token claims true
    pub user : (entry.user_id ≡ claims.user_id) × (entry.user_email ≡ claims.user_email)

  abbrev pub IsTrail : Logger → Type 0
  IsTrail l = All IsAttested (lines_of l)

  LogsFor-IsTrail :
      (now : ℕ) (header id email : Text) (l l' : Logger)
      → IsSigned Verifies (jwt now) v header id email
      → LogsFor marshal id email l l'
      → IsTrail l
      → IsTrail l'
  LogsFor-IsTrail now header id email l l' signed (inl same) h = rw same h
  LogsFor-IsTrail now header id email l l'
        (scheme, t, claims, bearer, carried, verified, answer, by_id, by_email)
        (inr (f, line, written, same_id, same_email, added)) h =
      rw added (
        All-append IsAttested (lines_of l) ((line ++ 10 ∷ []) ∷ []) h (
          record {
            entry = f;
            text = line;
            written = (written, refl);
            now = now;
            bearer = t;
            claims = claims;
            verified = verified;
            read = answer;
            user = (same_id ∙ sym by_id, same_email ∙ sym by_email);
          },
          tt,
        ))

  pub call_tools-IsTrail :
      (now : ℕ) (header id email : Text) (o : Outside) (cs : List Call) (m : Process)
      → MarshalsBy marshal o
      → IsSigned Verifies (jwt now) v header id email
      → IsTrail (logger_of m)
      → IsTrail (logger_of (call_tools (context_with_user [] id email) o cs m).0)
  unfolding call_tools happen context_with_user get_user_id get_user_email
  call_tools-IsTrail now header id email o [] m one signed h = h
  call_tools-IsTrail now header id email o (c ∷ cs) m one signed h =
      let ctx = context_with_user [] id email in
      let m' = happen (tool_call ctx o c) m in
      let logs =
        Effect-LogsFor (env_for ctx o) m.server.handler m.server.state _
          (call_tool-Effect ctx o m.server.handler c m.server.state) in
      let next : IsTrail (logger_of m') =
        LogsFor-IsTrail now header id email (logger_of m) (logger_of m') signed
          (subst (λ f. LogsFor f id email (logger_of m) (logger_of m')) one logs) h in
      let rest = call_tools-IsTrail now header id email o cs m' one signed next in
      elim (Bool-cases (is_panic (told (call_tool ctx o m.server.handler c m.server.state).1))) [
        | inl stops ↦ rw (call_tools, stops) next
        | inr goes_on ↦ rw (call_tools, goes_on) rest
      ]
