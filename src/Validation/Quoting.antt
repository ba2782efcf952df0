-- ===== src/Validation/Quoting.antt =====
-- internal/validation/validator.go: quoted identifiers, read back by MySQL's rule.
use safe_my_sqlmcp_server.Base.{
  Text, [], ◌∷◌, ◌++◌, append-nil, append_assoc, Bool, true, false, ◌≡◌, ◌≢◌, Option, none, some,
  ◌==◌, if◌then◌else◌, arith,
}
use safe_my_sqlmcp_server.Validation.{double_backticks, quote_identifier}

-- How MySQL reads a quoted identifier behind its first backtick: two backticks stand for one, and a
-- single one ends it. `pending` is whether the byte before was a backtick that no other has paired.
-- The result is the name and the text behind it.
unfoldable pub read_quoted : Text → Bool → Text → Option (Text × Text)
read_quoted name false [] = none
read_quoted name true [] = some (name, [])
read_quoted name false (c ∷ s) =
    let closing = read_quoted name true s in
    let plain = read_quoted (name ++ c ∷ []) false s in if c == b'`' then closing else plain
read_quoted name true (d ∷ s) =
    let paired = read_quoted (name ++ d ∷ []) false s in
    if d == b'`' then paired else some (name, d ∷ s)

unfoldable pub read_identifier : Text → Option (Text × Text)
unfolding read_quoted
read_identifier [] = none
read_identifier (c ∷ s) = if c == b'`' then read_quoted [] false s else none

-- The text behind the identifier does not go on with a backtick.
abbrev pub NoBacktick : Text → Type 0
NoBacktick [] = Unit
NoBacktick (c ∷ s) = c ≢ b'`'

read_quoted-double :
    (s name rest : Text)
    → NoBacktick rest
    → read_quoted name false (double_backticks s ++ b'`' ∷ rest) ≡ some (name ++ s, rest)
unfolding read_quoted double_backticks
read_quoted-double [] name [] h = ground (arith, append-nil name)
read_quoted-double [] name (d ∷ rest) h = ground (arith, append-nil name)
read_quoted-double (c ∷ s) name rest h =
    ground (arith, read_quoted-double s (name ++ c ∷ []) rest h, append_assoc name (c ∷ []) s)

-- A name that is quoted reads back as itself, whatever bytes it holds, and the text behind it is left
-- as it was, if it does not begin with a backtick: no name can end its quotes early.
pub read_identifier-quote_identifier :
    (name rest : Text)
    → NoBacktick rest
    → read_identifier (quote_identifier name ++ rest) ≡ some (name, rest)
unfolding read_identifier quote_identifier
read_identifier-quote_identifier name rest h =
    rw (append_assoc (double_backticks name) (b'`' ∷ []) rest) (read_quoted-double name [] rest h)
