-- ===== src/Base/Decimal.antt =====
-- Decimal numbers: `fmt.Sprintf("%d", n)`, and the reading of a run of digits.
use Prim.Native.Nat.{ℕ, zero, suc, ◌+◌, ◌-◌, ◌*◌, ◌/◌, ◌%◌, ◌^◌, ◌<◌}
use mathlib.Core.Path.{◌≡◌}
use mathlib.Core.Logic.{◌≢◌}
use mathlib.Core.Bool.{true}
use mathlib.Core.Option.{Option, none, some}
use mathlib.Core.List.{[], ◌∷◌}
use native.Mathlib.Omega.{arith}
use safe_my_sqlmcp_server.Base.Tests.{ltb, ◌==◌, if◌then◌else◌}
use safe_my_sqlmcp_server.Base.Lists.{All}
use safe_my_sqlmcp_server.Base.Int.{ℤ, pos, negsuc}
use safe_my_sqlmcp_server.Base.Strings.{Text, is_digit}

-- The digits of a number in front of a text; the fuel is an upper bound of the number.
unfoldable pub digits_before : ℕ → ℕ → Text → Text
digits_before zero n rest = rest
digits_before (suc f) n rest =
    let d = b'0' + n % 10 in
    let more = digits_before f (n / 10) (d ∷ rest) in if n / 10 == 0 then d ∷ rest else more

-- `%d` of a number that is not negative
unfoldable pub format_ℕ : ℕ → Text
unfolding digits_before
format_ℕ n = digits_before (suc n) n []

-- `%d`
unfoldable pub format_ℤ : ℤ → Text
unfolding format_ℕ
format_ℤ (pos n) = format_ℕ n
format_ℤ (negsuc n) = b'-' ∷ format_ℕ (suc n)

-- The value of a run of digits behind digits of value `n`.
unfoldable pub value_from : ℕ → Text → ℕ
value_from n [] = n
value_from n (c ∷ s) = value_from (n * 10 + (c - b'0')) s

-- `strconv.ParseInt(s, 10, 64)` of a run of digits, which fails from 2^63 on.
unfoldable pub parse_int64 : Text → Option ℕ
unfolding value_from
parse_int64 s = let n = value_from 0 s in if ltb n (2 ^ 63) then some n else none

value_from-digits_before :
    (f n : ℕ) (rest : Text) → n < f → value_from 0 (digits_before f n rest) ≡ value_from n rest
unfolding digits_before value_from
value_from-digits_before zero n rest h = absurd (omega arith)
value_from-digits_before (suc f) n rest h =
    ground (arith, value_from-digits_before f (n / 10) ((b'0' + n % 10) ∷ rest))

pub value_from-format_ℕ : (n : ℕ) → value_from 0 (format_ℕ n) ≡ n
unfolding format_ℕ value_from
value_from-format_ℕ n = value_from-digits_before (suc n) n [] (omega arith)

-- Reading a printed number gives it back, if it fits a signed word of 64 bits.
pub parse_int64-format_ℕ : (n : ℕ) → n < 2 ^ 63 → parse_int64 (format_ℕ n) ≡ some n
unfolding parse_int64
parse_int64-format_ℕ n h = ground (arith, value_from-format_ℕ n)

digits_before-digits :
    (f n : ℕ) (rest : Text)
    → All (λ c. is_digit c ≡ true) rest
    → All (λ c. is_digit c ≡ true) (digits_before f n rest)
unfolding digits_before
digits_before-digits zero n rest h = h
digits_before-digits (suc f) n rest h =
    ground (arith, digits_before-digits f (n / 10) ((b'0' + n % 10) ∷ rest))

pub format_ℕ-digits : (n : ℕ) → All (λ c. is_digit c ≡ true) (format_ℕ n)
unfolding format_ℕ
format_ℕ-digits n = digits_before-digits (suc n) n [] tt

digits_before-ne-nil : (f n : ℕ) (rest : Text) → n < f → digits_before f n rest ≢ []
unfolding digits_before
digits_before-ne-nil zero n rest h = absurd (omega arith)
digits_before-ne-nil (suc f) n rest h =
    ground (arith, digits_before-ne-nil f (n / 10) ((b'0' + n % 10) ∷ rest))

pub format_ℕ-ne-nil : (n : ℕ) → format_ℕ n ≢ []
unfolding format_ℕ
format_ℕ-ne-nil n = digits_before-ne-nil (suc n) n [] (omega arith)
