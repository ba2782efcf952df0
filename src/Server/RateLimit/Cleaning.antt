-- ===== src/Server/RateLimit/Cleaning.antt =====
-- internal/server/ratelimit.go: the cleanup of the entries cannot be noticed by a client.
use safe_my_sqlmcp_server.Base.{
  ℕ, ◌-◌, ◌*◌, ◌≤◌, Text, text_eq, text_eq_iff, text_eq_refl, Map, lookup, lookup-insert, Bool,
  true, false, List, [], ◌∷◌, Option, none, some, ◌≡◌, ◌≢◌, ◌∙◌, ap, sym, inl, inr, refl, arith,
  Option-cases, Bool-cases, if◌then◌else◌,
}
use safe_my_sqlmcp_server.Config.{second}
use safe_my_sqlmcp_server.Server.RateLimit.{
  RateLimiterConfig, IpEntry, IpRateLimiter, limit, get_limiter, cleanup, cleanup_tick,
  new_ip_rate_limiter, default_rate_limiter_config,
}
use safe_my_sqlmcp_server.Server.RateLimit.Entries.{
  IsMap, insert-IsMap, cleanup-IsMap, is_old, left, lookup-cleanup,
}
use safe_my_sqlmcp_server.Server.RateLimit.Decides.{limiter_of, get_limiter_is, limit_decides}

-- What happens to the limiters: a request from an address, or a round of the cleanup.
pub data Event : Type 0 where
  request : ℕ → Text → Event
  tick : ℕ → Event

-- The clock does not go back.
abbrev pub IsTimely : ℕ → List Event → Type 0
IsTimely now [] = Unit
IsTimely now (request t ip ∷ es) = (now ≤ t) × IsTimely t es
IsTimely now (tick t ∷ es) = (now ≤ t) × IsTimely t es

-- The times at which an address sends requests
abbrev pub requests_of : Text → List Event → List ℕ
requests_of ip [] = []
requests_of ip (request now j ∷ es) =
    let rest = requests_of ip es in if text_eq j ip then now ∷ rest else rest
requests_of ip (tick now ∷ es) = requests_of ip es

module _ {ℓ} {L : Type ℓ} (new : L) (allow : ℕ → L → L × Bool) where
  -- What one limiter answers at some times
  abbrev pub answers_alone : L → List ℕ → List Bool
  answers_alone l [] = []
  answers_alone l (t ∷ ts) = (allow t l).1 ∷ answers_alone (allow t l).0 ts

  -- What the server answers to the requests of an address
  abbrev pub answers_to : Text → List Event → IpRateLimiter L → List Bool
  answers_to ip [] s = []
  answers_to ip (request now j ∷ es) s =
      let rest = answers_to ip es (record s { ips = (limit new allow now j s.ips).0 }) in
      if text_eq j ip then (limit new allow now j s.ips).1 ∷ rest else rest
  answers_to ip (tick now ∷ es) s = answers_to ip es (cleanup_tick now s)

  -- The documented behaviour of a limiter: it is a bucket of `burst` tokens, full at first, to which
  -- tokens are added at a rate. So once it could be filled since it was used, it is as if it was new.
  abbrev pub Refills : RateLimiterConfig → Type ℓ
  Refills c =
      (last t : ℕ) (l : L)
      → c.burst * second ≤ (t - last) * c.requests_per_second
      → allow t (allow last l).0 ≡ allow t new

  -- An address has an entry with the limiter `l`, which was used when it was seen last, or it has no
  -- entry and `l` answers as a new limiter from now on.
  abbrev Stands : ℕ → L → Option (IpEntry L) → Type ℓ
  Stands now l none = (t : ℕ) → now ≤ t → allow t l ≡ allow t new
  Stands now l (some e) = (e.limiter ≡ l) × ((before : L) × (l ≡ (allow e.last_seen before).0))

  limit-IsMap :
      (t : ℕ) (ip : Text) (m : Map (IpEntry L)) → IsMap m → IsMap (limit new allow t ip m).0
  unfolding limit get_limiter
  limit-IsMap t ip m h = elim (Option-cases (lookup ip m)) [
    | inl absent ↦ rw (limit, get_limiter, absent) (insert-IsMap ip _ _ (insert-IsMap ip _ m h))
    | inr (e, known) ↦ rw (limit, get_limiter, known) (insert-IsMap ip _ _ (insert-IsMap ip _ m h))
  ]

  lookup-limit :
      (t : ℕ) (ip : Text) (m : Map (IpEntry L))
      → lookup ip (limit new allow t ip m).0
        ≡ some (record { limiter = (allow t (limiter_of new allow ip m)).0; last_seen = t })
  unfolding limit
  lookup-limit t ip m =
      lookup-insert ip ip _ (get_limiter new t ip m).0
      ∙ rw (text_eq_refl ip, get_limiter_is new allow t ip m)

  -- The limiter of an address answers as the one that it stands for.
  Stands-answers :
      (now t : ℕ) (l : L) (ip : Text) (m : Map (IpEntry L))
      → now ≤ t
      → Stands now l (lookup ip m)
      → allow t (limiter_of new allow ip m) ≡ allow t l
  Stands-answers now t l ip m later h = elim (Option-cases (lookup ip m)) [
    | inl absent ↦ rw (limiter_of, absent) (sym ((rw absent at h) t later))
    | inr (e, known) ↦ rw (limiter_of, known) (ap (allow t) (rw known at h).0)
  ]

  Stands-later :
      (now t : ℕ) (l : L) (o : Option (IpEntry L)) → now ≤ t → Stands now l o → Stands t l o
  Stands-later now t l none later h = λ u after. h u (omega arith)
  Stands-later now t l (some e) later h = h

  -- A cleanup takes away only what answers as a new limiter.
  Stands-left :
      (now t : ℕ) (l : L) (o : Option (IpEntry L))
      → Refills default_rate_limiter_config
      → now ≤ t
      → Stands now l o
      → Stands t l (left t o o)
  Stands-left now t l none refills later h = Stands-later now t l none later h
  Stands-left now t l (some e) refills later (same, (before, used)) =
      elim (Bool-cases (is_old t e)) [
        | inl old ↦ rw old (λ u after. rw used (refills e.last_seen u before (ground arith)))
        | inr recent ↦ rw recent (same, (before, used))
      ]

  cleanup_tick-done : (t : ℕ) (s : IpRateLimiter L) → s.is_done ≡ true → cleanup_tick t s ≡ s
  unfolding cleanup_tick
  cleanup_tick-done t s done = ground arith

  cleanup_tick-going :
      (t : ℕ) (s : IpRateLimiter L)
      → s.is_done ≡ false
      → cleanup_tick t s ≡ record s { ips = cleanup t s.ips s.ips }
  unfolding cleanup_tick
  cleanup_tick-going t s going = ground arith

  answers-Stands :
      (ip : Text) (es : List Event) (now : ℕ) (l : L) (s : IpRateLimiter L)
      → Refills default_rate_limiter_config
      → IsTimely now es
      → IsMap s.ips
      → Stands now l (lookup ip s.ips)
      → answers_to ip es s ≡ answers_alone l (requests_of ip es)
  answers-Stands ip [] now l s refills timely one h = refl
  answers-Stands ip (request t j ∷ es) now l s refills (later, timely) one h =
      elim (Bool-cases (text_eq j ip)) [
        | inl own ↦
            let used = (limit new allow t ip s.ips).0 in
            let same = Stands-answers now t l ip s.ips later h in
            let first = (limit_decides new allow t ip ip s.ips).0 ∙ ap (λ o. o.1) same in
            let rest =
              answers-Stands ip es t (allow t l).0 (record s { ips = used }) refills timely
                (limit-IsMap t ip s.ips one)
                (rw (lookup-limit t ip s.ips) (ap (λ o. o.0) same, (l, refl))) in
            rw ((text_eq_iff j ip).0 own, text_eq_refl ip) (cc (first, rest))
        | inr other ↦
            let differs : ip ≢ j = λ e. ground (arith, text_eq_iff j ip) in
            let kept = (limit_decides new allow t j ip s.ips).2 differs in
            rw other (
              answers-Stands ip es t l (record s { ips = (limit new allow t j s.ips).0 }) refills
                timely (limit-IsMap t j s.ips one)
                (rw kept (Stands-later now t l (lookup ip s.ips) later h)))
      ]
  answers-Stands ip (tick t ∷ es) now l s refills (later, timely) one h =
      elim (Bool-cases s.is_done) [
        | inl done ↦ rw (cleanup_tick-done t s done) (
            answers-Stands ip es t l s refills timely one
              (Stands-later now t l (lookup ip s.ips) later h))
        | inr going ↦ rw (cleanup_tick-going t s going) (
            answers-Stands ip es t l (record s { ips = cleanup t s.ips s.ips }) refills timely
              (cleanup-IsMap t s.ips s.ips one)
              (rw (lookup-cleanup t ip s.ips one)
                (Stands-left now t l (lookup ip s.ips) refills later h)))
      ]

  -- The limiter of the server, with its entries taken away when they were not used for five minutes:
  -- however the requests of all addresses and the rounds of the cleanup follow one another, an address
  -- is answered as one limiter of its own would answer it that nobody else uses and that is never
  -- taken away. A limiter is a bucket of 20 tokens that gets 10 a second, and the clock does not go
  -- back.
  pub cleanup_unnoticed :
      (ip : Text) (es : List Event) (now : ℕ)
      → Refills default_rate_limiter_config
      → IsTimely now es
      → answers_to ip es (new_ip_rate_limiter default_rate_limiter_config)
        ≡ answers_alone new (requests_of ip es)
  unfolding new_ip_rate_limiter lookup
  cleanup_unnoticed ip es now refills timely =
      answers-Stands ip es now new (new_ip_rate_limiter default_rate_limiter_config) refills timely
        tt (λ t later. refl)
