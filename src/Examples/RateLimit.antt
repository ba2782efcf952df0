-- ===== src/Examples/RateLimit.antt =====
-- A limiter that counts down, and a client that has used its own up.
use safe_my_sqlmcp_server.Base.{
  ◌≢◌, text_eq, text_eq_iff, ℕ, zero, suc, ◌+◌, ◌-◌, ◌*◌, ◌≤◌, min, leb, List, if◌then◌else◌, arith,
  Text, codes, lookup, insert, delete, Map, Bool, true, false, [], ◌∷◌, Option, some, ◌≡◌, refl,
  trim_space, trim_left, trim_right,
}
use safe_my_sqlmcp_server.Config.{second}
use safe_my_sqlmcp_server.Server.RateLimit.{
  IpEntry, default_rate_limiter_config, new_ip_rate_limiter, Request, before_comma, rate_limit,
  limit, get_limiter, get_real_ip, proxied_ip, remote_ip, cleanup,
}
use safe_my_sqlmcp_server.Server.RateLimit.Decides.{rate_limits, anew, rotating_answered_anew}
use safe_my_sqlmcp_server.Server.RateLimit.Cleaning.{
  Event, request, tick, Refills, answers_to, answers_alone, requests_of, cleanup_unnoticed,
}

abbrev pub count_down : ℕ → ℕ → ℕ × Bool
count_down now zero = (0, false)
count_down now (suc n) = (n, true)

abbrev used_up : Map (IpEntry ℕ)
used_up = (codes "9.9.9.9", record { limiter = 0; last_seen = 5 }) ∷ []

abbrev pub host_of : Text → Option Text
host_of address = some (codes "9.9.9.9")

abbrev pub plain : Request
plain = record { forwarded_for = []; real_ip = []; remote_addr = codes "9.9.9.9:4000" }

abbrev first_address : Text
first_address = codes "1.1.1.1"

abbrev second_address : Text
second_address = codes "2.2.2.2"

abbrev third_address : Text
third_address = codes "3.3.3.3"

-- Three requests that pretend to come from three addresses
abbrev forged : List (ℕ × Request)
forged =
    (6, record plain { forwarded_for = codes "1.1.1.1, 2.2.2.2" })
    ∷ (7, record plain { forwarded_for = second_address })
    ∷ (8, record plain { forwarded_for = third_address })
    ∷ []

plain_test : (rate_limit (λ ip. true) host_of 20 count_down 6 plain used_up).1 ≡ false
unfolding rate_limit get_real_ip proxied_ip remote_ip limit get_limiter lookup insert
plain_test = refl

cleanup_test : cleanup 400_000_000_000 used_up used_up ≡ []
unfolding cleanup delete
cleanup_test = refl

distinct : (a b : Text) → text_eq a b ≡ false → a ≢ b
distinct a b differ = λ e. ground (arith, text_eq_iff a b)

rotating_answered_anew_example :
    rate_limits (λ ip. true) host_of 20 count_down used_up forged
    ≡ anew (λ ip. true) host_of 20 count_down forged
unfolding before_comma trim_space trim_left trim_right lookup
rotating_answered_anew_example =
    rotating_answered_anew (λ ip. true) host_of 20 count_down used_up forged
      (
        ((λ e. cc e), refl),
        refl,
        (
          distinct second_address first_address refl,
          (distinct third_address first_address refl, tt),
        ),
        (
          ((λ e. cc e), refl),
          refl,
          (distinct third_address second_address refl, tt),
          (((λ e. cc e), refl), refl, tt, tt),
        ),
      )

-- A bucket, with the billionths of a token in it and the time of its last use
record Bucket : Type 0 where
  level : ℕ
  used : ℕ

abbrev full : ℕ
full = 20 * second

abbrev level_at : ℕ → Bucket → ℕ
level_at now b = min full (b.level + (now - b.used) * 10)

abbrev take_token : ℕ → Bucket → Bucket × Bool
take_token now b =
    if leb second (level_at now b)
    then (record { level = level_at now b - second; used = now }, true)
    else (record { level = level_at now b; used = now }, false)

abbrev full_bucket : Bucket
full_bucket = record { level = full; used = 0 }

used_at : (now : ℕ) (b : Bucket) → (take_token now b).0.used ≡ now
used_at now b = ground arith

level_full : (now : ℕ) (b : Bucket) → full ≤ (now - b.used) * 10 → level_at now b ≡ full
level_full now b h = ground arith

take_token-Refills : Refills full_bucket take_token default_rate_limiter_config
take_token-Refills last t b h =
    let used = (take_token last b).0 in
    let level : level_at t used ≡ full = level_full t used (rw (used_at last b) h) in
    let fresh : level_at t full_bucket ≡ full = ground arith in rw (level, fresh) refl

-- Nine minutes in which one address comes back after its entry was taken away
abbrev minutes : List Event
minutes =
    request (second) (codes "9.9.9.9")
    ∷ request (second + 1) (codes "1.1.1.1")
    ∷ tick (60 * second)
    ∷ tick (420 * second)
    ∷ request (540 * second) (codes "9.9.9.9")
    ∷ []

cleanup_unnoticed_example :
    answers_to full_bucket take_token
      (codes "9.9.9.9")
      minutes
      (new_ip_rate_limiter default_rate_limiter_config)
    ≡ answers_alone full_bucket take_token full_bucket (requests_of (codes "9.9.9.9") minutes)
cleanup_unnoticed_example =
    cleanup_unnoticed full_bucket take_token (codes "9.9.9.9") minutes 0 take_token-Refills
      (omega arith)
