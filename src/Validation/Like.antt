-- ===== src/Validation/Like.antt =====
-- internal/validation/validator.go: the search pattern of `search_tables`, read by MySQL's rule for
-- LIKE.
use safe_my_sqlmcp_server.Base.{ℕ, Text, [], ◌∷◌, ◌≡◌, ◌≢◌}

-- MySQL's LIKE: `%` stands for any run of bytes, `_` for any byte, a backslash makes the byte behind
-- it stand for itself, and any other byte stands for itself.
pub data Like : Text → Text → Type 0 where
  done : Like [] []
  run_end : {k : ℕ} {p t : Text} → k ≡ b'%' → Like p t → Like (k ∷ p) t
  run_more : {k c : ℕ} {p t : Text} → k ≡ b'%' → Like (k ∷ p) t → Like (k ∷ p) (c ∷ t)
  single : {k c : ℕ} {p t : Text} → k ≡ b'_' → Like p t → Like (k ∷ p) (c ∷ t)
  escaped : {k c : ℕ} {p t : Text} → k ≡ b'\\' → Like p t → Like (k ∷ c ∷ p) (c ∷ t)
  literal : {c : ℕ} {p t : Text} → c ≢ b'%' → c ≢ b'_' → c ≢ b'\\' → Like p t → Like (c ∷ p) (c ∷ t)
