-- ===== src/Hex.antt =====
-- cpp/pisecured/src/chain_rpc.cpp: `to_hex`, `from_hex`, `decode_hex`, `lower_hex`. A hash is the list
-- of its 32 bytes; `none` is the failure of the source.
pub mod RoundTrip
mod Examples
use pi_secure.Prelude.{
  ltb, leb, ◌==◌, if◌then◌else◌, ltb→lt, lt→ltb, leb→le, ==_iff, Bool-cases, Option-cases, tests,
  length, get_elem?, set, length-append, length-set, get_elem?-set_self, get_elem?-set_ne,
  get_elem?-append_left, get_elem?-append_end, get_or, take, drop, replicate, take-append-drop,
  length-take, length-drop, length-replicate, length-map, take-append, drop-append, drop-suc-append,
  Bytes, codes, u64_mod, u64_max, u32_mod, All, All-append, All-append_left, All-append_right,
  IsByte, bytes_eq, bytes_eq_iff, bytes_eq_refl, fail_if, ◌>>=◌, is_ok, ◌>>◌, Result-cases, Reason,
  Result, ok, err, add64, sub64, mul64, sub_ℕ, ℤ, pos, negsuc, ℕ, zero, suc, ◌+◌, ◌-◌, ◌*◌, ◌/◌,
  ◌%◌, ◌^◌, ◌≤◌, ◌<◌, ◌≡◌, refl, sym, ap, ap₂, subst, ◌∙◌, ◌≢◌, ◌↔◌, ◌⊎◌, inl, inr, Bool, true,
  false, not, ◌&&◌, ◌||◌, Option, none, some, List, [], ◌∷◌, ◌++◌, map, append-nil, append_assoc,
  arith, dec_lt, ℕ_discrete,
}

abbrev hexd : Bytes
hexd = codes "0123456789abcdef"

unfoldable pub to_hex : Bytes → Bytes
to_hex [] = []
to_hex (b ∷ dig) = get_or hexd (b / 16) 0 ∷ get_or hexd (b % 16) 0 ∷ to_hex dig

-- The lambda of both decoders, which returns -1 on any other character.
nybble : ℕ → Option ℕ
nybble c =
    if leb b'0' c && leb c b'9'
    then some (c - b'0')
    else if leb b'a' c && leb c b'f'
    then some (c - b'a' + 10)
    else if leb b'A' c && leb c b'F'
    then some (c - b'A' + 10)
    else none

-- `(hi << 4) | lo`, if both are digits.
hex_byte : ℕ → ℕ → Option ℕ
unfolding nybble
hex_byte a b = elim (nybble a) [
  | none ↦ none
  | some hi ↦ elim (nybble b) [ none ↦ none | some lo ↦ some (hi * 16 + lo) ]
]

push_byte : Option ℕ → Option Bytes → Option Bytes
push_byte none rest = none
push_byte (some v) none = none
push_byte (some v) (some out) = some (v ∷ out)

-- The loop over the pairs of characters, which both decoders run after a test of the length.
decode_pairs : Bytes → Option Bytes
decode_pairs [] = some []
decode_pairs (a ∷ []) = none
decode_pairs (a ∷ b ∷ s) = push_byte (hex_byte a b) (decode_pairs s)

unfoldable pub from_hex : Bytes → Option Bytes
unfolding decode_pairs hex_byte push_byte
from_hex hex = if length hex == 64 then decode_pairs hex else none

-- What `decode_hex` has written when it returns, after its test of the length: the bytes before the
-- first character that is no digit.
pub decoded_part : Bytes → Bytes
unfolding hex_byte
decoded_part [] = []
decoded_part (a ∷ []) = []
decoded_part (a ∷ b ∷ s) =
    let rest = decoded_part s in elim (hex_byte a b) [ none ↦ [] | some v ↦ v ∷ rest ]

unfoldable pub decode_hex : Bytes → Option Bytes
unfolding decode_pairs hex_byte push_byte
decode_hex hex = if length hex % 2 == 0 then decode_pairs hex else none

lower_digit : ℕ → ℕ
lower_digit c = if leb b'A' c && leb c b'F' then c - b'A' + b'a' else c

unfoldable pub lower_hex : Bytes → Bytes
unfolding lower_digit
lower_hex [] = []
lower_hex (c ∷ hex) = lower_digit c ∷ lower_hex hex

-- `is_zero`
unfoldable pub is_zero : Bytes → Bool
is_zero [] = true
is_zero (b ∷ d) = b == 0 && is_zero d
