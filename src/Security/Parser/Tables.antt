-- ===== src/Security/Parser/Tables.antt =====
-- internal/security/parser.go: the tables that the parser reports for a FROM clause.
use safe_my_sqlmcp_server.Base.{
  Text, List, [], ◌∷◌, ◌++◌, Exists, none, some, ◌≡◌, ◌↔◌, ◌⊎◌, inl, inr, arith,
}
use safe_my_sqlmcp_server.Security.Ast.{
  ResultSetNode, nil_node, table_source, join, table_name, other_node,
}
use safe_my_sqlmcp_server.Security.Parser.{extract_tables_from_node}

-- A table stands in a FROM clause if it is named there outright, on either side of a join at any
-- depth, but not inside a subquery.
pub data Joins (t : Text) : ResultSetNode → Type 0 where
  source : Joins t (table_source (some t))
  name : Joins t (table_name t)
  left : {a b : ResultSetNode} → Joins t a → Joins t (join a b)
  right : {a b : ResultSetNode} → Joins t b → Joins t (join a b)

Exists-append :
    (P : Text → Type 0) (xs ys : List Text) → Exists P (xs ++ ys) ↔ (Exists P xs ⊎ Exists P ys)
Exists-append P [] ys = ground arith
Exists-append P (x ∷ xs) ys = ground (arith, Exists-append P xs ys)

joined-Joins :
    (t : Text) (n : ResultSetNode) → Joins t n → Exists (λ u. t ≡ u) (extract_tables_from_node n)
unfolding extract_tables_from_node
joined-Joins t _ source = ground arith
joined-Joins t _ name = ground arith
joined-Joins t _ (left {a} {b} h) =
    (Exists-append _ (extract_tables_from_node a) (extract_tables_from_node b)).1
      (inl (joined-Joins t a h))
joined-Joins t _ (right {a} {b} h) =
    (Exists-append _ (extract_tables_from_node a) (extract_tables_from_node b)).1
      (inr (joined-Joins t b h))

Joins-joined :
    (t : Text) (n : ResultSetNode) → Exists (λ u. t ≡ u) (extract_tables_from_node n) → Joins t n
unfolding extract_tables_from_node
Joins-joined t nil_node h = absurd h
Joins-joined t (table_source none) h = absurd h
Joins-joined t (table_source (some u)) (inl e) = rw (← e) source
Joins-joined t (table_source (some u)) (inr h) = absurd h
Joins-joined t (table_name u) (inl e) = rw (← e) name
Joins-joined t (table_name u) (inr h) = absurd h
Joins-joined t other_node h = absurd h
Joins-joined t (join a b) h =
    elim ((Exists-append _ (extract_tables_from_node a) (extract_tables_from_node b)).0 h) [
      | inl x ↦ left (Joins-joined t a x)
      | inr x ↦ right (Joins-joined t b x)
    ]

-- A table is reported exactly when it stands in the FROM clause outside every subquery.
pub extract_tables_iff :
    (t : Text) (n : ResultSetNode) → Exists (λ u. t ≡ u) (extract_tables_from_node n) ↔ Joins t n
extract_tables_iff t n = (Joins-joined t n, joined-Joins t n)
