-- ===== src/Pow/Examples.antt =====
-- A hash with five zero bits in front, and an instance of the theorem on it.
use pi_secure.Prelude.{
  replicate, Bytes, All, IsByte, ℕ, zero, suc, ◌-◌, ◌^◌, ◌<◌, ◌≡◌, refl, ◌↔◌, true, false, ◌∷◌,
  arith,
}
use pi_secure.Hex.RoundTrip.{IsHash}
use pi_secure.Pow.{byte_loop, zero_bits_from, validate_block_pow}
use pi_secure.Pow.Zeros.{big_endian, validate_block_pow_iff}

abbrev hash : Bytes
hash = 7 ∷ replicate 31 255

five_bits : validate_block_pow hash 5 ≡ true
unfolding validate_block_pow zero_bits_from byte_loop
five_bits = refl

six_bits : validate_block_pow hash 6 ≡ false
unfolding validate_block_pow zero_bits_from byte_loop
six_bits = refl

replicate-IsByte : (n : ℕ) → All IsByte (replicate n 255)
replicate-IsByte zero = tt
replicate-IsByte (suc n) = (omega arith, replicate-IsByte n)

mined-IsHash : IsHash hash
mined-IsHash = (refl, (omega arith, replicate-IsByte 31))

validate_block_pow_iff_example :
    (validate_block_pow hash 5 ≡ true) ↔ (big_endian hash < 2 ^ (256 - 5))
validate_block_pow_iff_example = validate_block_pow_iff hash 5 mined-IsHash (omega arith)
