-- ===== src/Amount.antt =====
-- cpp/common/amount.hpp: decimal 314ST text to pi, and pi to decimal text. `parse_314st_pi` returns
-- the amount or the reason that the source writes; `uint64_t` arithmetic wraps at 2^64.
pub mod Decimal
pub mod Parse
pub mod Format
mod Examples
use Prim.Native.Nat.{min}
use pi_secure.Prelude.{
  ℕ, zero, suc, ◌+◌, ◌-◌, ◌*◌, ◌/◌, ◌%◌, ◌^◌, ◌≡◌, refl, Bool, true, false, not, ◌&&◌, ◌||◌, List,
  [], ◌∷◌, ◌++◌, Option, none, some, Bytes, codes, u64_mod, u64_max, ltb, leb, ◌==◌, if◌then◌else◌,
  length, take, drop, Result, ok, err, Reason,
}
use pi_secure.Prelude.Reason.{amount_format, too_many_decimals, amount_overflow, amount_zero}

-- kPiPer314ST
abbrev pub pi_per_314st : ℕ
pi_per_314st = 1_000_000

-- `std::string::find` of one character: its first position, or npos.
unfoldable pub find_char : ℕ → Bytes → Option ℕ
find_char c [] = none
find_char c (b ∷ s) =
    if b == c then some 0 else elim (find_char c s) [ none ↦ none | some i ↦ some (suc i) ]

is_digit : ℕ → Bool
is_digit c = leb b'0' c && leb c b'9'

-- The loop that refuses a sign, an exponent, a comma or a space.
all_amount_chars : Bytes → Bool
unfolding is_digit
all_amount_chars [] = true
all_amount_chars (c ∷ s) = (c == b'.' || is_digit c) && all_amount_chars s

-- The lambda `accumulate`. It is called on digits only, so `c - '0'` does not go below zero.
accumulate : Bytes → ℕ → Option ℕ
accumulate [] out = some out
accumulate (c ∷ digits) out =
    let digit = c - b'0' in
    if ltb ((u64_max - digit) / 10) out
    then none
    else accumulate digits ((out * 10 + digit) % u64_mod)

-- `for (i = frac.size(); i < 6; ++i)`, by the rounds that are left.
scale_up : ℕ → ℕ → Option ℕ
scale_up zero frac_v = some frac_v
scale_up (suc rounds) frac_v =
    if ltb (u64_max / 10) frac_v then none else scale_up rounds (frac_v * 10 % u64_mod)

-- From `const uint64_t scaled` on.
combine : ℕ → ℕ → Result ℕ
combine whole_v frac_v =
    let scaled = whole_v * pi_per_314st % u64_mod in
    let pi = (scaled + frac_v) % u64_mod in
    if ltb (u64_max / pi_per_314st) whole_v
    then err amount_overflow
    else if ltb (u64_max - frac_v) scaled
    then err amount_overflow
    else if pi == 0
    then err amount_zero
    else ok pi

-- The two halves of the text, from the length test of the fraction on.
parse_parts : Bytes → Bytes → Result ℕ
unfolding accumulate scale_up combine
parse_parts whole frac =
    if ltb 6 (length frac) then err too_many_decimals else elim (accumulate whole 0) [
      | none ↦ err amount_overflow
      | some whole_v ↦ elim (accumulate frac 0) [
        | none ↦ err amount_overflow
        | some frac_v ↦ elim (scale_up (6 - length frac) frac_v) [
          | none ↦ err amount_overflow
          | some padded ↦ combine whole_v padded
        ]
      ]
    ]

is_empty : Bytes → Bool
is_empty [] = true
is_empty (c ∷ s) = false

is_some : Option ℕ → Bool
is_some none = false
is_some (some i) = true

-- `text.find('.', dot + 1) != npos`
has_second_dot : Bytes → Option ℕ → Bool
unfolding is_some
has_second_dot text none = false
has_second_dot text (some dot) = is_some (find_char b'.' (drop (suc dot) text))

-- The text cut at its dot, if it has one.
parse_at : Bytes → Option ℕ → Result ℕ
unfolding is_empty
parse_at text none = if is_empty text then err amount_format else parse_parts text []
parse_at text (some dot) =
    let whole = take dot text in
    let frac = drop (suc dot) text in
    if is_empty whole || is_empty frac then err amount_format else parse_parts whole frac

unfoldable pub parse_314st_pi : Bytes → Result ℕ
unfolding is_empty all_amount_chars find_char has_second_dot parse_at parse_parts
parse_314st_pi text =
    let dot = find_char b'.' text in
    if is_empty text
    then err amount_format
    else if not (all_amount_chars text)
    then err amount_format
    else if has_second_dot text dot
    then err amount_format
    else parse_at text dot

-- `%llu`: the decimal digits of a number, most significant first.
put_digits : ℕ → ℕ → Bytes → Bytes
put_digits zero n out = out
put_digits (suc fuel) n out =
    let rest = put_digits fuel (n / 10) ((b'0' + n % 10) ∷ out) in
    if ltb n 10 then (b'0' + n) ∷ out else rest

unfoldable pub to_decimal : ℕ → Bytes
unfolding put_digits
to_decimal n = put_digits (suc n) n []

-- `%06llu` of a number below 10^6: as many digits as the width, zeros in front.
zero_padded : ℕ → ℕ → Bytes → Bytes
zero_padded zero n out = out
zero_padded (suc width) n out = zero_padded width (n / 10) ((b'0' + n % 10) ∷ out)

unfoldable pub format_314st_pi : ℕ → Bytes
unfolding to_decimal zero_padded
format_314st_pi pi = to_decimal (pi / pi_per_314st) ++ (b'.' ∷ zero_padded 6 (pi % pi_per_314st) [])
