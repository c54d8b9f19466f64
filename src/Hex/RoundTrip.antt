-- ===== src/Hex/RoundTrip.antt =====
-- Hex text and bytes correspond.
use pi_secure.Prelude.{
  ◌∙◌, Option-cases, inl, inr, ◌==◌, Option-cases, length, get_or, Bytes, All, IsByte, ℕ, zero, suc,
  ◌+◌, ◌*◌, ◌/◌, ◌%◌, ◌≤◌, ◌<◌, ◌≡◌, refl, ap, ◌∙◌, ◌⊎◌, inl, inr, Bool, true, false, ◌&&◌, Option,
  none, some, [], ◌∷◌, arith,
}
use pi_secure.Hex.{push_byte, hexd, to_hex, nybble, hex_byte, decode_pairs, from_hex, decode_hex}

abbrev pub IsHash : Bytes → Type 0
IsHash d = (length d ≡ 32) × All IsByte d

-- A test of every value below a bound.
holds_below : (ℕ → Bool) → ℕ → Bool
holds_below test zero = true
holds_below test (suc bound) = holds_below test bound && test bound

holds_below_lem :
    (test : ℕ → Bool) (bound b : ℕ) → b < bound → holds_below test bound ≡ true → test b ≡ true
unfolding holds_below
holds_below_lem test zero b below all = absurd (omega arith)
holds_below_lem test (suc bound) b below all = ground (arith, holds_below_lem test bound b)

is_value : Option ℕ → ℕ → Bool
is_value none n = false
is_value (some m) n = m == n

is_value_iff : (o : Option ℕ) (n : ℕ) → is_value o n ≡ true → o ≡ some n
unfolding is_value
is_value_iff none n h = cc
is_value_iff (some m) n h = ground arith

hex_byte_table :
    holds_below (λ b. is_value (hex_byte (get_or hexd (b / 16) 0) (get_or hexd (b % 16) 0)) b) 256
    ≡ true
unfolding holds_below is_value hex_byte
hex_byte_table = refl

hex_byte_digits :
    (b : ℕ) → IsByte b → hex_byte (get_or hexd (b / 16) 0) (get_or hexd (b % 16) 0) ≡ some b
hex_byte_digits b h = is_value_iff _ b (holds_below_lem _ 256 b h hex_byte_table)

decode_pairs-nil : decode_pairs [] ≡ some []
unfolding decode_pairs
decode_pairs-nil = refl

decode_pairs_step :
    (a b : ℕ) (s : Bytes) → decode_pairs (a ∷ b ∷ s) ≡ push_byte (hex_byte a b) (decode_pairs s)
unfolding decode_pairs
decode_pairs_step a b s = refl

decode_pairs-to_hex : (d : Bytes) → All IsByte d → decode_pairs (to_hex d) ≡ some d
unfolding to_hex push_byte
decode_pairs-to_hex [] h = decode_pairs-nil
decode_pairs-to_hex (b ∷ d) (hb, hd) =
    let e = hex_byte_digits b hb in
    let ih = decode_pairs-to_hex d hd in decode_pairs_step _ _ (to_hex d) ∙ rw (e, ih)

pub length-to_hex : (d : Bytes) → length (to_hex d) ≡ 2 * length d
unfolding to_hex
length-to_hex [] = refl
length-to_hex (b ∷ d) = omega (arith, length-to_hex d)

-- A hash, 32 bytes, is read back from its hex text.
pub from_hex-to_hex : (d : Bytes) → IsHash d → from_hex (to_hex d) ≡ some d
unfolding from_hex
from_hex-to_hex d (len, bytes) =
    let e : (length (to_hex d) == 64) ≡ true = ground (arith, length-to_hex d) in
    rw e (decode_pairs-to_hex d bytes)

-- Any bytes are read back from their hex text by `decode_hex`.
pub decode_hex-to_hex : (d : Bytes) → All IsByte d → decode_hex (to_hex d) ≡ some d
unfolding decode_hex
decode_hex-to_hex d bytes =
    let e : (length (to_hex d) % 2 == 0) ≡ true = ground (arith, length-to_hex d) in
    rw e (decode_pairs-to_hex d bytes)

-- Different bytes have different hex texts.
pub to_hex-injective : (d e : Bytes) → All IsByte d → All IsByte e → to_hex d ≡ to_hex e → d ≡ e
to_hex-injective d e hd he h =
    cc (decode_pairs-to_hex d hd, decode_pairs-to_hex e he, ap decode_pairs h)

abbrev pub IsHexDigit : ℕ → Type 0
IsHexDigit c = ((b'0' ≤ c) × (c ≤ b'9')) ⊎ ((b'a' ≤ c) × (c ≤ b'f')) ⊎ ((b'A' ≤ c) × (c ≤ b'F'))

nybble_sound : (c v : ℕ) → nybble c ≡ some v → IsHexDigit c × (v < 16)
unfolding nybble
nybble_sound c v h = ground arith

hex_byte_sound : (a b v : ℕ) → hex_byte a b ≡ some v → IsHexDigit a × IsHexDigit b × IsByte v
unfolding hex_byte
hex_byte_sound a b v h = elim (Option-cases (nybble a)) [
  | inl e ↦ ground arith
  | inr (hi, ea) ↦ elim (Option-cases (nybble b)) [
    | inl e ↦ ground arith
    | inr (lo, eb) ↦
        let (da, la) = nybble_sound a hi ea in
        let (db, lb) = nybble_sound b lo eb in
        let v' : hi * 16 + lo ≡ v = ground arith in (da, db, omega arith)
  ]
]
