-- ===== src/Pow.antt =====
-- cpp/pisecured/src/storage.cpp: `validate_block_pow`, the test of a block's proof of work, and
-- `validate_block_header`.
pub mod Zeros
mod Examples
use pi_secure.Prelude.{
  ltb, leb, ◌==◌, if◌then◌else◌, ltb→lt, lt→ltb, leb→le, ==_iff, Bool-cases, Option-cases, tests,
  length, get_elem?, set, length-append, length-set, get_elem?-set_self, get_elem?-set_ne, get_or,
  take, drop, replicate, take-append-drop, length-take, length-drop, length-replicate, length-map,
  take-append, drop-append, drop-suc-append, Bytes, codes, u64_mod, u64_max, u32_mod, All,
  All-append, All-append_left, All-append_right, IsByte, bytes_eq, bytes_eq_iff, bytes_eq_refl,
  fail_if, ◌>>=◌, is_ok, ◌>>◌, Result-cases, Reason, Result, ok, err, add64, sub64, mul64, sub_ℕ, ℤ,
  pos, negsuc, ℕ, zero, suc, ◌+◌, ◌-◌, ◌*◌, ◌/◌, ◌%◌, ◌^◌, ◌≤◌, ◌<◌, ◌≡◌, refl, sym, ap, ap₂, subst,
  ◌∙◌, ◌≢◌, ◌↔◌, ◌⊎◌, inl, inr, Bool, true, false, not, ◌&&◌, ◌||◌, Option, none, some, List, [],
  ◌∷◌, ◌++◌, map, append-nil, append_assoc, arith, dec_lt, ℕ_discrete,
}

-- `while ((byte & 0x80) == 0 && zero_bits < 256)`. A byte above zero has its highest bit set after at
-- most seven rounds.
pub byte_loop : ℕ → ℕ → ℕ → ℕ
byte_loop zero byte zero_bits = zero_bits
byte_loop (suc fuel) byte zero_bits =
    let rest = byte_loop fuel (byte * 2 % 256) (zero_bits + 1) in
    if ltb byte 128 && ltb zero_bits 256 then rest else zero_bits

-- The loop over the bytes of the hash.
pub zero_bits_from : Bytes → ℕ → ℕ
zero_bits_from [] zero_bits = zero_bits
zero_bits_from (b ∷ hash) zero_bits =
    let rest = zero_bits_from hash (zero_bits + 8) in
    if b == 0 then rest else byte_loop 8 b zero_bits

-- A difficulty from 2^31 on is negative as an `int`, so any count is enough.
unfoldable pub validate_block_pow : Bytes → ℕ → Bool
validate_block_pow hash difficulty =
    let zero_bits = zero_bits_from hash 0 in
    if ltb difficulty (2 ^ 31) then leb difficulty zero_bits else true
