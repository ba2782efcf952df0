-- ===== src/Server/RateLimit/Decides.antt =====
-- internal/server/ratelimit.go: by what the rate limiter decides, and that a client can choose it.
use safe_my_sqlmcp_server.Base.{
  ℕ, Text, Map, lookup, insert, lookup-insert, text_eq, text_eq_iff, text_eq_refl, trim_space, Bool,
  true, List, [], ◌∷◌, All, Option, none, some, ◌≡◌, ◌≢◌, ◌∙◌, ap, sym, inl, inr, refl, arith,
  Option-cases, Bool-cases,
}
use safe_my_sqlmcp_server.Server.RateLimit.{
  IpEntry, Request, before_comma, get_real_ip, get_limiter, limit, rate_limit,
}

module _ {ℓ} {L : Type ℓ} (new : L) (allow : ℕ → L → L × Bool) where
  -- The limiter of an address: a new one if it has no entry.
  abbrev pub limiter_of : Text → Map (IpEntry L) → L
  limiter_of ip m = elim (lookup ip m) [ none ↦ new | some e ↦ e.limiter ]

  lookup_other :
      (ip j : Text) (e : IpEntry L) (m : Map (IpEntry L))
      → j ≢ ip
      → lookup j (insert ip e m) ≡ lookup j m
  lookup_other ip j e m other = elim (Bool-cases (text_eq ip j)) [
    | inl same ↦ absurd (other (sym ((text_eq_iff ip j).0 same)))
    | inr differs ↦ rw (lookup-insert ip j e m, differs)
  ]

  limiter_of-insert :
      (ip : Text) (e : IpEntry L) (m : Map (IpEntry L)) → limiter_of ip (insert ip e m) ≡ e.limiter
  limiter_of-insert ip e m = rw (limiter_of, lookup-insert ip ip e m, text_eq_refl ip)

  pub get_limiter_is :
      (now : ℕ) (ip : Text) (m : Map (IpEntry L)) → (get_limiter new now ip m).1 ≡ limiter_of ip m
  unfolding get_limiter
  get_limiter_is now ip m = elim (Option-cases (lookup ip m)) [
    | inl absent ↦ rw (get_limiter, limiter_of, absent)
    | inr (e, known) ↦ rw (get_limiter, limiter_of, known)
  ]

  get_limiter_leaves :
      (now : ℕ) (ip j : Text) (m : Map (IpEntry L))
      → j ≢ ip
      → lookup j (get_limiter new now ip m).0 ≡ lookup j m
  unfolding get_limiter
  get_limiter_leaves now ip j m other = elim (Option-cases (lookup ip m)) [
    | inl absent ↦ rw (get_limiter, absent) (lookup_other ip j _ m other)
    | inr (e, known) ↦ rw (get_limiter, known) (lookup_other ip j _ m other)
  ]

  -- A request is decided by the limiter of its address alone, a new one if the address has none; this
  -- limiter is kept for the next request, and the limiters of the other addresses are left alone.
  pub limit_decides :
      (now : ℕ) (ip j : Text) (m : Map (IpEntry L))
      → ((limit new allow now ip m).1 ≡ (allow now (limiter_of ip m)).1)
        × (limiter_of ip (limit new allow now ip m).0 ≡ (allow now (limiter_of ip m)).0)
        × (j ≢ ip → lookup j (limit new allow now ip m).0 ≡ lookup j m)
  unfolding limit
  limit_decides now ip j m = (
    ap (λ l. (allow now l).1) (get_limiter_is now ip m),
    limiter_of-insert ip _ (get_limiter new now ip m).0
        ∙ ap (λ l. (allow now l).0) (get_limiter_is now ip m),
    (λ other.
        lookup_other ip j _ (get_limiter new now ip m).0 other
        ∙ get_limiter_leaves now ip j m other),
  )

-- A client that names an address of its choice in X-Forwarded-For, one that is valid and has no entry,
-- is decided by a new limiter, whatever its real address is and however many requests it has made.
pub forwarded_address_is_new {ℓ} :
    {L : Type ℓ} (parse_ip : Text → Bool) (host_of : Text → Option Text) (new : L)
    (allow : ℕ → L → L × Bool) (now : ℕ) (r : Request) (m : Map (IpEntry L))
    → r.forwarded_for ≢ []
    → parse_ip (trim_space (before_comma r.forwarded_for)) ≡ true
    → lookup (trim_space (before_comma r.forwarded_for)) m ≡ none
    → (rate_limit parse_ip host_of new allow now r m).1 ≡ (allow now new).1
unfolding rate_limit get_real_ip
forwarded_address_is_new parse_ip host_of new allow now r m named valid unseen =
    let ip = trim_space (before_comma r.forwarded_for) in
    let chosen : get_real_ip parse_ip host_of r ≡ ip = ground arith in
    rw (chosen) ((limit_decides new allow now ip ip m).0 ∙ rw (limiter_of, unseen))

-- The address that a request names in X-Forwarded-For
abbrev pub named_address : Request → Text
named_address r = trim_space (before_comma r.forwarded_for)

-- Requests with their times, each of which names a valid address that has no entry and that no later
-- one names.
abbrev pub IsRotating {ℓ} :
    {L : Type ℓ} → (Text → Bool) → Map (IpEntry L) → List (ℕ × Request) → Type ℓ
IsRotating parse_ip m [] = Unit
IsRotating parse_ip m ((now, r) ∷ rs) =
    ((r.forwarded_for ≢ []) × (parse_ip (named_address r) ≡ true))
    × (lookup (named_address r) m ≡ none)
    × All (λ s. named_address s.1 ≢ named_address r) rs
    × IsRotating parse_ip m rs

module _ {ℓ} {L : Type ℓ} (parse_ip : Text → Bool) (host_of : Text → Option Text) (new : L)
    (allow : ℕ → L → L × Bool) where
  -- What the middleware answers to requests, one after the other
  abbrev pub rate_limits : Map (IpEntry L) → List (ℕ × Request) → List Bool
  rate_limits m [] = []
  rate_limits m ((now, r) ∷ rs) =
      (rate_limit parse_ip host_of new allow now r m).1
      ∷ rate_limits (rate_limit parse_ip host_of new allow now r m).0 rs

  -- What a new limiter would answer to each of them
  abbrev pub anew : List (ℕ × Request) → List Bool
  anew [] = []
  anew ((now, r) ∷ rs) = (allow now new).1 ∷ anew rs

  IsRotating-later :
      (m n : Map (IpEntry L)) (ip : Text) (rs : List (ℕ × Request))
      → ((j : Text) → j ≢ ip → lookup j n ≡ lookup j m)
      → All (λ s. named_address s.1 ≢ ip) rs
      → IsRotating parse_ip m rs
      → IsRotating parse_ip n rs
  IsRotating-later m n ip [] kept others h = tt
  IsRotating-later m n ip ((now, r) ∷ rs) kept (other, others) (named, unseen, differ, h) = (
    named,
    kept (named_address r) other ∙ unseen,
    differ,
    IsRotating-later m n ip rs kept others h,
  )

  -- A client that names another valid address in X-Forwarded-For each time, one that has no entry, is
  -- answered by a new limiter each time, however many requests it makes, whatever its real address is
  -- and however much of its limit that has used up.
  pub rotating_answered_anew :
      (m : Map (IpEntry L)) (rs : List (ℕ × Request))
      → IsRotating parse_ip m rs
      → rate_limits m rs ≡ anew rs
  unfolding rate_limit get_real_ip
  rotating_answered_anew m [] h = refl
  rotating_answered_anew m ((now, r) ∷ rs) ((named, valid), unseen, differ, h) =
      let ip = named_address r in
      let chosen : get_real_ip parse_ip host_of r ≡ ip = ground arith in
      let first = forwarded_address_is_new parse_ip host_of new allow now r m named valid unseen in
      let after = (limit new allow now ip m).0 in
      let rest =
        rotating_answered_anew after rs
          (IsRotating-later m after ip rs (λ j. (limit_decides new allow now ip j m).2) differ h) in
      rw (chosen) (cc (rw (chosen) at first, rest))
