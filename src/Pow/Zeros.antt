-- ===== src/Pow/Zeros.antt =====
-- The proof of work is a bound on the hash as a number.
use pi_secure.Prelude.{
  ltb, leb, ◌==◌, Bool-cases, length, Bytes, All, IsByte, ℕ, zero, suc, ◌+◌, ◌-◌, ◌*◌, ◌%◌, ◌^◌,
  ◌≤◌, ◌<◌, ◌≡◌, refl, ◌↔◌, inl, inr, true, false, [], ◌∷◌, arith, dec_lt,
}
use native.Mathlib.Nat.{
  pow-succ', pow-le-pow_right, one-le-pow, mul-le-mul_right, add-mul, mul_assoc,
}
use pi_secure.Hex.RoundTrip.{IsHash}
use pi_secure.Pow.{byte_loop, zero_bits_from, validate_block_pow}

-- The number that a hash spells, its first byte the highest.
abbrev pub big_endian : Bytes → ℕ
big_endian [] = 0
big_endian (b ∷ s) = b * 2 ^ (8 * length s) + big_endian s

-- `n` has exactly `e` bits.
abbrev pub HasBits : ℕ → ℕ → Type 0
HasBits n zero = n ≡ 0
HasBits n (suc e) = (2 ^ e ≤ n) × (n < 2 ^ suc e)

halve : (b e : ℕ) → 0 < b → HasBits (b * 2) (suc e) → (d : ℕ) × (e ≡ suc d) × HasBits b (suc d)
halve b zero above (lo, hi) = absurd (omega arith)
halve b (suc d) above (lo, hi) =
    let low = pow-succ' 2 d in
    let high = pow-succ' 2 (suc d) in (d, refl, (omega (arith, low), omega (arith, high)))

byte_loop-step :
    (fuel b acc : ℕ)
    → b < 128
    → acc < 256
    → byte_loop (suc fuel) b acc ≡ byte_loop fuel (b * 2) (acc + 1)
unfolding byte_loop
byte_loop-step fuel b acc low room =
    let twice : b * 2 % 256 ≡ b * 2 = omega arith in
    let byte_low : ltb b 128 ≡ true = ground arith in
    let acc_low : ltb acc 256 ≡ true = ground arith in rw (byte_low, acc_low, twice) refl

byte_loop-stop : (fuel b acc : ℕ) → 128 ≤ b → byte_loop fuel b acc ≡ acc
unfolding byte_loop
byte_loop-stop zero b acc high = refl
byte_loop-stop (suc fuel) b acc high =
    let byte_high : ltb b 128 ≡ false = ground arith in rw byte_high refl

-- The loop adds what the byte lacks of eight bits.
byte_loop_lem :
    (fuel b acc : ℕ)
    → 0 < b
    → b < 256
    → 128 ≤ b * 2 ^ fuel
    → acc + fuel ≤ 256
    → (e : ℕ) × (byte_loop fuel b acc + suc e ≡ acc + 8) × HasBits b (suc e)
byte_loop_lem zero b acc above small enough room =
    let stop = byte_loop-stop zero b acc (omega arith) in
    (7, omega (arith, stop), (omega arith, omega arith))
byte_loop_lem (suc fuel) b acc above small enough room = elim (dec_lt b 128) [
  | no high ↦
      let stop = byte_loop-stop (suc fuel) b acc (omega arith) in
      (7, omega (arith, stop), (omega arith, omega arith))
  | yes low ↦
      let enough' : 128 ≤ b * 2 * 2 ^ fuel =
        rw (mul_assoc b 2 (2 ^ fuel)) (rw (pow-succ' 2 fuel) at enough) in
      let (e, sum, bits) =
        byte_loop_lem fuel (b * 2) (acc + 1) (omega arith) (omega arith) enough' (omega arith) in
      let (d, is, bits') = halve b e above bits in
      let step = byte_loop-step fuel b acc low (omega arith) in
      (d, omega (arith, sum, is, step), bits')
]

pow_append : (m n : ℕ) → 2 ^ (m + n) ≡ 2 ^ n * 2 ^ m
pow_append m zero = let e : m + 0 ≡ m = omega arith in rw e (omega arith)
pow_append m (suc n) =
    let e : m + suc n ≡ suc (m + n) = omega arith in
    rw (e, pow-succ' 2 (m + n), pow-succ' 2 n, pow_append m n) (grind arith)

scaled : (x y r w : ℕ) → x < y → r < w → x * w + r < y * w
scaled x y r w lt small =
    omega (arith, mul-le-mul_right {m = x + 1} {n = y} w (omega arith), add-mul x 1 w)

big_endian_small : (s : Bytes) → All IsByte s → big_endian s < 2 ^ (8 * length s)
big_endian_small [] a = omega arith
big_endian_small (b ∷ s) (small, a) =
    let ih = big_endian_small s a in
    let e : 8 * suc (length s) ≡ 8 * length s + 8 = omega arith in
    rw (e, pow_append (8 * length s) 8) (scaled b 256 (big_endian s) (2 ^ (8 * length s)) small ih)

HasBits-shift :
    (b r m e : ℕ) → HasBits b (suc e) → r < 2 ^ m → HasBits (b * 2 ^ m + r) (suc (m + e))
HasBits-shift b r m e (lo, hi) small =
    let low = pow_append m e in
    let high = pow_append m (suc e) in
    let e' : suc (m + e) ≡ m + suc e = omega arith in
    let up = scaled b (2 ^ suc e) r (2 ^ m) hi small in
    let down = mul-le-mul_right {m = 2 ^ e} {n = b} (2 ^ m) lo in
    (rw low (omega (arith, down)), rw (e', high) up)

-- The count and the bits of the number make up the bits of the hash.
zero_bits_from_lem :
    (s : Bytes) (acc : ℕ)
    → All IsByte s
    → acc + 8 * length s ≤ 256
    → (e : ℕ) × (zero_bits_from s acc + e ≡ acc + 8 * length s) × HasBits (big_endian s) e
unfolding zero_bits_from
zero_bits_from_lem [] acc a room = (0, omega arith, refl)
zero_bits_from_lem (b ∷ s) acc (small, a) room = elim (Bool-cases (b == 0)) [
  | inl z ↦
      let none_set : b ≡ 0 = ground arith in
      let (e, sum, bits) = zero_bits_from_lem s (acc + 8) a (omega arith) in
      let same : big_endian (b ∷ s) ≡ big_endian s = rw none_set (omega arith) in
      (e, rw z (omega (arith, sum)), rw same bits)
  | inr z ↦
      let set : 0 < b = ground arith in
      let (e, sum, bits) = byte_loop_lem 8 b acc set small (omega arith) (omega arith) in
      (
        suc (8 * length s + e),
        rw z (omega (arith, sum)),
        HasBits-shift b (big_endian s) (8 * length s) e bits (big_endian_small s a),
      )
]

HasBits-lt : (n e k : ℕ) → HasBits n e → ((e ≤ k) → n < 2 ^ k) × (n < 2 ^ k → e ≤ k)
HasBits-lt n zero k bits = (λ le. omega (arith, one-le-pow k 2 (omega arith)), λ lt. omega arith)
HasBits-lt n (suc e) k (lo, hi) = (
  λ le. omega (arith, pow-le-pow_right {n = 2} (omega arith) {i = suc e} {j = k} le),
  λ lt. elim (dec_lt e k) [
    | yes less ↦ less
    | no more ↦
        absurd (omega (arith, pow-le-pow_right {n = 2} (omega arith) {i = k} {j = e} (omega arith)))
  ],
)

-- Of a hash of 32 bytes, and a difficulty up to 256, the test holds exactly when the hash, as a
-- number with its first byte the highest, is below 2^(256 - difficulty).
pub validate_block_pow_iff :
    (hash : Bytes) (difficulty : ℕ)
    → IsHash hash
    → difficulty ≤ 256
    → (validate_block_pow hash difficulty ≡ true) ↔ (big_endian hash < 2 ^ (256 - difficulty))
unfolding validate_block_pow
validate_block_pow_iff hash difficulty (len, bytes) le =
    let (e, sum, bits) = zero_bits_from_lem hash 0 bytes (omega arith) in
    let (below, above) = HasBits-lt (big_endian hash) e (256 - difficulty) bits in
    let low : ltb difficulty (2 ^ 31) ≡ true = ground arith in
    let count : zero_bits_from hash 0 + e ≡ 256 = omega (arith, sum, len) in
    (
      λ accepted.
          let enough : leb difficulty (zero_bits_from hash 0) ≡ true = rw low at accepted in
          below (ground arith),
      λ small. let le' = above small in rw low (ground arith),
    )
