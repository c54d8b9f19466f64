-- ===== src/Retarget/Log2.antt =====
-- `round_log2` is the integer nearest to the logarithm.
use native.Mathlib.Nat.{pow-le-pow_right, pow-succ', mod-eq_of_lt}
use pi_secure.Prelude.{
  dec_lt, ltb, leb, if◌then◌else◌, ltb→lt, leb→le, Bool-cases, u64_mod, ℕ, zero, suc, ◌+◌, ◌*◌, ◌/◌,
  ◌%◌, ◌^◌, ◌≤◌, ◌<◌, ◌≡◌, refl, inl, inr, arith, dec_lt,
}
use pi_secure.Retarget.{floor_loop, round_log2}

-- The loop ends at the floor of the logarithm, above where it started.
floor_loop_lem :
    (k s f : ℕ)
    → 0 < s
    → s < 2 ^ suc k
    → (d : ℕ) × (floor_loop k s f ≡ f + d) × (2 ^ d ≤ s) × (s < 2 * 2 ^ d)
unfolding floor_loop
floor_loop_lem zero s f p h = (0, omega arith, omega arith, omega arith)
floor_loop_lem (suc k) s f p h = elim (Bool-cases (ltb 1 s)) [
  | inl more ↦
      let lt = ltb→lt 1 s more in
      let e = pow-succ' 2 (suc k) in
      let (d, step, lo, hi) = floor_loop_lem k (s / 2) (suc f) (omega arith) (omega (arith, e)) in
      let e' = pow-succ' 2 d in
      (suc d, rw more (omega (arith, step)), omega (arith, e'), omega (arith, e'))
  | inr stop ↦ (0, rw stop (omega arith), omega arith, ground arith)
]

pub four-pow : (d : ℕ) → 4 ^ d ≡ 2 ^ d * 2 ^ d
four-pow zero = refl
four-pow (suc d) = rw (pow-succ' 4 d, pow-succ' 2 d) (omega (arith, four-pow d))

-- `n` is the integer nearest to log2 of `v`: 2^(n - 1/2) <= v < 2^(n + 1/2), squared.
abbrev pub IsNearestLog2 : ℕ → ℕ → Type 0
IsNearestLog2 v n = (4 ^ n ≤ 2 * (v * v)) × (v * v < 2 * 4 ^ n)

square_lt : (a b : ℕ) → a < b → a * a < b * b
square_lt a b h = grind arith

pub square_le : (a b : ℕ) → a ≤ b → a * a ≤ b * b
square_le a b h = grind arith

exponent_lt : (d n : ℕ) → 2 ^ d < 2 ^ n → d < n
exponent_lt d n h = elim (dec_lt d n) [
  | yes lt ↦ lt
  | no ge ↦
      let up = pow-le-pow_right {n = 2} (omega arith) {i = n} {j = d} (omega arith) in
      absurd (omega arith)
]

nearest_choice :
    (v b d : ℕ)
    → 4 ^ d ≡ b * b
    → b ≤ v
    → v < 2 * b
    → IsNearestLog2 v (if leb (b * b * 2) (v * v) then d + 1 else d)
nearest_choice v b d e lo hi =
    let s : d + 1 ≡ suc d = omega arith in
    let up : 4 ^ (d + 1) ≡ 4 * (b * b) = rw (s, pow-succ' 4 d, e) refl in
    let below = square_le b v lo in
    let above = square_lt v (2 * b) hi in
    elim (Bool-cases (leb (b * b * 2) (v * v))) [
      | inl yes_half ↦
          let le = leb→le (b * b * 2) (v * v) yes_half in
          rw yes_half (omega (arith, up), omega (arith, up))
      | inr no_half ↦ rw no_half (omega (arith, e), rw e (ground arith))
    ]

-- Of every 64-bit value above zero `round_log2` is the nearest integer to the logarithm.
pub round_log2-IsNearestLog2 : (v : ℕ) → 0 < v → v < u64_mod → IsNearestLog2 v (round_log2 v)
unfolding round_log2
round_log2-IsNearestLog2 v p h = elim (Bool-cases (leb v 1)) [
  | inl one ↦ let le = leb→le v 1 one in let e : v ≡ 1 = omega arith in rw e (omega arith)
  | inr more ↦
      let (d, step, lo, hi) = floor_loop_lem 64 v 0 p (omega arith) in
      let at : floor_loop 64 v 0 ≡ d = omega (arith, step) in
      let room = exponent_lt d 64 (omega arith) in
      let top = pow-le-pow_right {n = 2} (omega arith) {i = d} {j = 63} (omega arith) in
      let fits : 2 ^ d % u64_mod ≡ 2 ^ d = mod-eq_of_lt (omega arith) in
      let sq : v * v % 2 ^ 128 ≡ v * v = mod-eq_of_lt (square_lt v u64_mod h) in
      let bb = square_le (2 ^ d) (2 ^ 63) top in
      let hf : 2 ^ d * 2 ^ d * 2 % 2 ^ 128 ≡ 2 ^ d * 2 ^ d * 2 = mod-eq_of_lt (omega arith) in
      rw (more, at, fits, sq, hf) (nearest_choice v (2 ^ d) d (four-pow d) lo hi)
]
