-- ===== src/Retarget.antt =====
-- cpp/pisecured/include/pisecured/retarget.hpp: the difficulty retarget. `1ull << n` and 64-bit
-- products wrap at 2^64, `unsigned __int128` products at 2^128.
pub mod Log2
pub mod Bounds
mod Examples
use pi_secure.Prelude.{
  ltb, leb, ◌==◌, if◌then◌else◌, ltb→lt, lt→ltb, leb→le, ==_iff, Bool-cases, Option-cases, tests,
  length, get_elem?, set, length-append, length-set, get_elem?-set_self, get_elem?-set_ne, get_or,
  take, drop, replicate, take-append-drop, length-take, length-drop, length-replicate, length-map,
  take-append, drop-append, drop-suc-append, Bytes, codes, u64_mod, u64_max, u32_mod, All,
  All-append, All-append_left, All-append_right, IsByte, bytes_eq, bytes_eq_iff, bytes_eq_refl,
  ◌>>=◌, ◌>>◌, fail_if, is_ok, Result-cases, Reason, Result, ok, err, add64, sub64, mul64, sub_ℕ, ℤ,
  pos, negsuc, ℕ, zero, suc, ◌+◌, ◌-◌, ◌*◌, ◌/◌, ◌%◌, ◌^◌, ◌≤◌, ◌<◌, ◌≡◌, refl, sym, ap, subst, ◌∙◌,
  ◌≢◌, ◌↔◌, ◌⊎◌, inl, inr, Bool, true, false, not, ◌&&◌, ◌||◌, Option, none, some, List, [], ◌∷◌,
  ◌++◌, map, append-nil, append_assoc, arith, dec_lt, ℕ_discrete,
}

abbrev pub retarget_min_bits : ℕ
retarget_min_bits = 2

abbrev pub retarget_max_bits : ℕ
retarget_max_bits = 24

abbrev pub retarget_target_seconds : ℕ
retarget_target_seconds = 540

abbrev u128_mod : ℕ
u128_mod = 2 ^ 128

-- `while (shifted > 1) { shifted >>= 1; ++floor; }`. A 64-bit value takes at most 63 rounds.
unfoldable pub floor_loop : ℕ → ℕ → ℕ → ℕ
floor_loop zero shifted floor = floor
floor_loop (suc fuel) shifted floor =
    let rest = floor_loop fuel (shifted / 2) (suc floor) in if ltb 1 shifted then rest else floor

unfoldable pub round_log2 : ℕ → ℕ
round_log2 value =
    let floor = floor_loop 64 value 0 in
    let base = 2 ^ floor % u64_mod in
    let squared = value * value % u128_mod in
    let half = base * base * 2 % u128_mod in
    if leb value 1 then 0 else if leb half squared then floor + 1 else floor

-- The two tests on `bits` that stand at both ends of the function.
unfoldable pub clamp_bits : ℕ → ℕ
clamp_bits bits =
    let low = if ltb bits retarget_min_bits then retarget_min_bits else bits in
    if ltb retarget_max_bits low then retarget_max_bits else low

clamp_span : ℕ → ℕ
clamp_span span =
    let low =
      if ltb span (retarget_target_seconds / 4) then retarget_target_seconds / 4 else span in
    if ltb (retarget_target_seconds * 4) low then retarget_target_seconds * 4 else low

-- The work of the next block, from the work of this one and the clamped span.
next_work : ℕ → ℕ → ℕ
next_work bits span =
    let work = 2 ^ bits % u64_mod in
    let scaled = mul64 work retarget_target_seconds / span in
    let min_work = work / 4 in
    let max_work = mul64 work 4 in
    let low = if ltb scaled min_work then min_work else scaled in
    let high = if ltb max_work low then max_work else low in if ltb high 1 then 1 else high

-- What follows `elapsed <= 0`.
retarget_positive : ℕ → ℕ → ℕ
unfolding clamp_span next_work
retarget_positive bits elapsed = clamp_bits (round_log2 (next_work bits (clamp_span elapsed)))

unfoldable pub retarget_difficulty_bits : ℕ → ℤ → ℕ
unfolding clamp_bits retarget_positive
retarget_difficulty_bits bits (negsuc n) = clamp_bits bits
retarget_difficulty_bits bits (pos n) =
    if n == 0 then clamp_bits bits else retarget_positive (clamp_bits bits) n
