-- ===== src/Sentinel/Approval/Gate/Duration.antt =====
-- `parseApprovalDuration` of packages/sentinel/src/approval/ApprovalGate.ts. `Number` of a run of digits
-- that is above 2^53 - 1 is a double that `Number.isSafeInteger` refuses, so that the exact number
-- stands for it here, and so is a product above it.
use Prim.Native.Char.{code}
use mcp_suite.Common.{
  ℕ, zero, suc, ◌+◌, ◌-◌, ◌*◌, ◌≤◌, String, ◌≡◌, refl, subst, sym, Bool, false, not, ◌&&◌, ◌||◌,
  Option, none, some, arith, leb, if◌then◌else◌, trim, ◌==◌,
}
use mcp_suite.Effect.{Result, ok, err}

pub data DurationError : Type 0 where
  no_match unsafe_value too_large : DurationError

abbrev is_digit : ℕ → Bool
is_digit c = leb 48 c && leb c 57

-- `Number.MAX_SAFE_INTEGER`
abbrev pub max_safe_integer : ℕ
max_safe_integer = 9007199254740991

abbrev pub duration_multiplier : String → Option ℕ
duration_multiplier unit =
    if unit == "ms"
    then some 1
    else if unit == "s"
    then some 1000
    else if unit == "m"
    then some 60000
    else if unit == "h"
    then some 3600000
    else none

-- The number that the leading digits make after `value`, and what follows them.
unfoldable pub read_digits : ℕ → String → ℕ × String
read_digits value String.[] = (value, "")
read_digits value (String.◌∷◌ c rest) =
    let more = read_digits (value * 10 + (code c - 48)) rest in
    if is_digit (code c) then more else (value, String.◌∷◌ c rest)

abbrev pub starts_with_digit : String → Bool
starts_with_digit String.[] = false
starts_with_digit (String.◌∷◌ c rest) = is_digit (code c)

abbrev pub checked_duration : ℕ → Option ℕ → Result DurationError ℕ
checked_duration value none = err no_match
checked_duration value (some multiplier) =
    if not (leb value max_safe_integer) || leb value 0
    then err unsafe_value
    else if leb (value * multiplier) max_safe_integer
    then ok (value * multiplier)
    else err too_large

unfoldable pub parse_approval_duration : String → Result DurationError ℕ
parse_approval_duration timeout =
    let text = trim timeout in
    let (value, unit) = read_digits 0 text in
    if starts_with_digit text
    then checked_duration value (duration_multiplier unit)
    else err no_match

checked_duration-bounds :
    (value d : ℕ) (m : Option ℕ)
    → checked_duration value m ≡ ok d
    → (multiplier : ℕ) × (m ≡ some multiplier)
      × (d ≡ value * multiplier)
      × (1 ≤ value)
      × (d ≤ max_safe_integer)
checked_duration-bounds value d none h = absurd (ground arith)
checked_duration-bounds value d (some m) h = (m, refl, ground arith, ground arith, ground arith)

product_positive : (a b : ℕ) → 1 ≤ a → 1 ≤ b → 1 ≤ a * b
product_positive zero b h k = absurd (omega arith)
product_positive (suc a) b h k = omega arith

multiplier_positive : (unit : String) (m : ℕ) → duration_multiplier unit ≡ some m → 1 ≤ m
multiplier_positive unit m h = ground arith

parsed :
    (timeout : String) (d : ℕ)
    → parse_approval_duration timeout ≡ ok d
    → checked_duration
        (read_digits 0 (trim timeout)).0
        (duration_multiplier (read_digits 0 (trim timeout)).1)
      ≡ ok d
unfolding parse_approval_duration
parsed timeout d h = ground arith

-- A duration that parses is at least one millisecond and a safe integer.
pub parse_approval_duration-bounds :
    (timeout : String) (d : ℕ)
    → parse_approval_duration timeout ≡ ok d
    → (1 ≤ d) × (d ≤ max_safe_integer)
parse_approval_duration-bounds timeout d h =
    let (value, unit) = read_digits 0 (trim timeout) in
    let (m, known, product, positive, safe) =
      checked_duration-bounds value d (duration_multiplier unit) (parsed timeout d h) in
    let some_unit = multiplier_positive unit m known in
    (subst (λ x. 1 ≤ x) (sym product) (product_positive value m positive some_unit), safe)
