-- ===== src/Server/RateLimit/Entries.antt =====
-- internal/server/ratelimit.go: what a cleanup leaves of the entries.
use safe_my_sqlmcp_server.Base.{
  ℕ, ◌-◌, ◌*◌, ltb, Text, text_eq, text_eq_iff, Map, lookup, insert, delete, lookup-insert,
  lookup-delete, Bool, [], ◌∷◌, Option, none, some, ◌≡◌, ◌∙◌, inl, inr, refl, arith, Bool-cases,
  if◌then◌else◌,
}
use safe_my_sqlmcp_server.Config.{minute}
use safe_my_sqlmcp_server.Server.RateLimit.{IpEntry, cleanup}

-- A key stands once in a map.
abbrev pub IsMap {ℓ} : {V : Type ℓ} → Map V → Type ℓ
IsMap [] = Unit
IsMap ((k, v) ∷ m) = (lookup k m ≡ none) × IsMap m

module _ {ℓ} {V : Type ℓ} where
  pub insert-IsMap : (k : Text) (v : V) (m : Map V) → IsMap m → IsMap (insert k v m)
  unfolding insert lookup
  insert-IsMap k v [] h = (refl, tt)
  insert-IsMap k v ((j, w) ∷ m) h = elim (Bool-cases (text_eq j k)) [
    | inl same ↦ rw (insert, same) (rw (← (text_eq_iff j k).0 same) h.0, h.1)
    | inr other ↦
        rw (insert, other)
          (
            lookup-insert k j v m ∙ ground (arith, text_eq_iff k j, text_eq_iff j k, h.0),
            insert-IsMap k v m h.1,
          )
  ]

  delete-IsMap : (k : Text) (m : Map V) → IsMap m → IsMap (delete k m)
  unfolding delete lookup
  delete-IsMap k [] h = tt
  delete-IsMap k ((j, w) ∷ m) h = elim (Bool-cases (text_eq j k)) [
    | inl same ↦ rw (delete, same) (delete-IsMap k m h.1)
    | inr other ↦
        rw (delete, other) (lookup-delete k j m ∙ ground (arith, h.0), delete-IsMap k m h.1)
  ]

-- An entry that a cleanup takes away
abbrev pub is_old {ℓ} : {L : Type ℓ} → ℕ → IpEntry L → Bool
is_old now e = ltb e.last_seen (now - 5 * minute)

module _ {ℓ} {L : Type ℓ} where
  pub cleanup-IsMap : (now : ℕ) (es m : Map (IpEntry L)) → IsMap m → IsMap (cleanup now es m)
  unfolding cleanup
  cleanup-IsMap now [] m h = h
  cleanup-IsMap now ((j, e) ∷ es) m h = elim (Bool-cases (is_old now e)) [
    | inl old ↦ rw (cleanup, old) (cleanup-IsMap now es (delete j m) (delete-IsMap j m h))
    | inr recent ↦ rw (cleanup, recent) (cleanup-IsMap now es m h)
  ]

  -- What a cleanup leaves of an entry
  abbrev pub left : ℕ → Option (IpEntry L) → Option (IpEntry L) → Option (IpEntry L)
  left now none o = o
  left now (some e) o = if is_old now e then none else o

  lookup-cleanup_from :
      (now : ℕ) (k : Text) (es m : Map (IpEntry L))
      → IsMap es
      → lookup k (cleanup now es m) ≡ left now (lookup k es) (lookup k m)
  unfolding cleanup lookup
  lookup-cleanup_from now k [] m h = refl
  lookup-cleanup_from now k ((j, e) ∷ es) m h = ground (
    arith,
    text_eq_iff j k,
    lookup-delete j k m,
    lookup-cleanup_from now k es m h.1,
    lookup-cleanup_from now k es (delete j m) h.1,
  )

  pub lookup-cleanup :
      (now : ℕ) (k : Text) (m : Map (IpEntry L))
      → IsMap m
      → lookup k (cleanup now m m) ≡ left now (lookup k m) (lookup k m)
  lookup-cleanup now k m h = lookup-cleanup_from now k m m h
