-- ===== src/Mcp/Rows/Laws.antt =====
-- internal/mcp/tools.go: what the loop over the rows returns.
use safe_my_sqlmcp_server.Base.{
  ℕ, ◌+◌, ◌≤◌, ltb, List, [], ◌∷◌, ◌++◌, append-nil, append_assoc, map, length, length-map, take,
  zero, suc, true, false, ◌≡◌, ◌⊎◌, ◌∙◌, ap, inl, inr, refl, arith, Bool-cases,
}
use safe_my_sqlmcp_server.Mcp.Rows.{Value, Step, row, bad_row, to_json_value, fetch}

-- What the loop has read: the rows that it took, in order, and the rounds that it left. It leaves some
-- only when it has taken as many rows as it may.
pub record IsPrefixOf (max count : ℕ) (out : List (List Value)) (steps : List Step) : Type 0 where
  pub taken : List (List Value)
  pub left : List Step
  pub order : steps ≡ map row taken ++ left
  pub kept : out ≡ map (map to_json_value) taken
  pub bounded : (taken ≡ []) ⊎ (count + length taken ≤ max)
  pub complete : (left ≡ []) ⊎ (max ≤ count + length taken)

module _ (max : ℕ) where
  fetch-IsPrefixOf :
      (count : ℕ) (rows out : List (List Value)) (steps : List Step)
      → fetch max count rows steps ≡ inr out
      → (more : List (List Value)) × (out ≡ rows ++ more) × IsPrefixOf max count more steps
  unfolding fetch
  fetch-IsPrefixOf count rows out [] e = (
    [],
    ground (arith, append-nil rows),
    record {
      taken = [];
      left = [];
      order = refl;
      kept = refl;
      bounded = inl refl;
      complete = inl refl;
    },
  )
  fetch-IsPrefixOf count rows out (row values ∷ steps) e = elim (Bool-cases (ltb count max)) [
    | inl room ↦
        let (more, same, ih) =
          fetch-IsPrefixOf (count + 1) (rows ++ map to_json_value values ∷ []) out steps
            (ground arith) in
        (
          map to_json_value values ∷ more,
          same ∙ append_assoc rows (map to_json_value values ∷ []) more,
          record {
            taken = values ∷ ih.taken;
            left = ih.left;
            order = ap (λ r. row values ∷ r) ih.order;
            kept = ap (λ r. map to_json_value values ∷ r) ih.kept;
            bounded = ground arith;
            complete = ground arith;
          },
        )
    | inr full ↦ (
      [],
      ground (arith, append-nil rows),
      record {
        taken = [];
        left = row values ∷ steps;
        order = refl;
        kept = refl;
        bounded = inl refl;
        complete = inr (ground arith);
      },
    )
  ]
  fetch-IsPrefixOf count rows out (bad_row b ∷ steps) e = (
    [],
    ground (arith, append-nil rows),
    record {
      taken = [];
      left = bad_row b ∷ steps;
      order = refl;
      kept = refl;
      bounded = inl refl;
      complete = inr (ground arith);
    },
  )

bound_of :
    (max : ℕ) (taken : List (List Value)) (more : List (List Value))
    → length more ≡ length taken
    → (taken ≡ []) ⊎ (0 + length taken ≤ max)
    → length more ≤ max
bound_of max taken more same (inl e) = omega (arith, same, ap length e)
bound_of max taken more same (inr h) = omega arith

-- The rows that a query returns are the first rows of the server, in order and converted, never more
-- than the limit, and all of them unless the limit was reached.
pub fetch_prefix :
    (max : ℕ) (out : List (List Value)) (steps : List Step)
    → fetch max 0 [] steps ≡ inr out
    → (length out ≤ max) × IsPrefixOf max 0 out steps
fetch_prefix max out steps e =
    let (more, same, first) = fetch-IsPrefixOf max 0 [] out steps e in
    let counted : length more ≡ length first.taken =
      ap length first.kept ∙ length-map first.taken (map to_json_value) in
    rw same (bound_of max first.taken more counted first.bounded, first)

take-nil {ℓ} : {A : Type ℓ} (n : ℕ) → take {A = A} n [] ≡ []
take-nil zero = refl
take-nil (suc n) = refl

-- A result set whose rows can all be scanned: the loop reads as many as it has room for.
fetch_room :
    (max count room : ℕ) (out rows : List (List Value))
    → max ≡ count + room
    → fetch max count out (map row rows) ≡ inr (out ++ map (map to_json_value) (take room rows))
unfolding fetch
fetch_room max count room out [] e = rw (take-nil room, append-nil out)
fetch_room max count zero out (r ∷ rows) e =
    let full : ltb count max ≡ false = ground arith in rw (full, append-nil out)
fetch_room max count (suc room) out (r ∷ rows) e =
    let going : ltb count max ≡ true = ground arith in
    rw (going) (
      fetch_room max (count + 1) room (out ++ map to_json_value r ∷ []) rows (omega arith)
      ∙ ap inr
          (append_assoc out (map to_json_value r ∷ []) (map (map to_json_value) (take room rows))))

pub fetch_rows :
    (max : ℕ) (rows : List (List Value))
    → fetch max 0 [] (map row rows) ≡ inr (map (map to_json_value) (take max rows))
fetch_rows max rows = fetch_room max 0 max [] rows (omega arith)
