-- ===== src/Validation/Names.antt =====
-- internal/validation/validator.go: which names and texts the validators accept.
use safe_my_sqlmcp_server.Base.{
  ℕ, ◌≤◌, Text, [], ◌∷◌, ◌≡◌, ◌↔◌, ◌⊎◌, true, none, length, All, arith,
}
use safe_my_sqlmcp_server.Validation.{all_following, validate_database_name, validate_table_name}

-- The bytes of a name: letters, digits and the underscore.
abbrev pub IsLetter : ℕ → Type 0
IsLetter c = ((b'a' ≤ c) × (c ≤ b'z')) ⊎ ((b'A' ≤ c) × (c ≤ b'Z')) ⊎ (c ≡ b'_')

abbrev pub IsLetterOrDigit : ℕ → Type 0
IsLetterOrDigit c = IsLetter c ⊎ ((b'0' ≤ c) × (c ≤ b'9'))

-- A MySQL identifier that needs no quotes and does not begin with a digit.
abbrev pub IsIdentifier : Text → Type 0
IsIdentifier [] = ⊥
IsIdentifier (c ∷ s) = IsLetter c × All IsLetterOrDigit s × (length s ≤ 63)

all_following_iff : (s : Text) → (all_following s ≡ true) ↔ All IsLetterOrDigit s
unfolding all_following
all_following_iff [] = ground arith
all_following_iff (c ∷ s) = ground (arith, all_following_iff s)

-- A database name passes exactly if it is an identifier of at most 64 bytes; table names follow the
-- same rule.
pub validate_names_iff :
    (name : Text)
    → ((validate_database_name name ≡ none) ↔ IsIdentifier name)
      × ((validate_table_name name ≡ none) ↔ IsIdentifier name)
unfolding validate_database_name validate_table_name
validate_names_iff [] = ground arith
validate_names_iff (c ∷ s) = ground (arith, all_following_iff s)
