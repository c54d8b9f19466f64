-- ===== src/Retarget/Bounds.antt =====
-- How far one retarget moves the difficulty, and in which direction.
use native.Mathlib.Nat.{
  pow-succ', pow-le-pow_right, mod-eq_of_lt, le-div_iff_mul-le, div-mul-le_self,
}
use pi_secure.Prelude.{
  ◌==◌, Bool-cases, u64_mod, mul64, ℤ, pos, negsuc, ℕ, suc, ◌+◌, ◌-◌, ◌*◌, ◌/◌, ◌%◌, ◌^◌, ◌≤◌, ◌<◌,
  ◌≡◌, ap, ◌∙◌, inl, inr, false, arith, dec_lt,
}
use pi_secure.Retarget.{
  round_log2, clamp_bits, clamp_span, next_work, retarget_positive, retarget_difficulty_bits,
}
use pi_secure.Retarget.Log2.{IsNearestLog2, round_log2-IsNearestLog2, four-pow, square_le}

clamp_bits_range : (bits : ℕ) → (2 ≤ clamp_bits bits) × (clamp_bits bits ≤ 24)
unfolding clamp_bits
clamp_bits_range bits = ground arith

clamp_bits_mono : (a b : ℕ) → a ≤ b → clamp_bits a ≤ clamp_bits b
unfolding clamp_bits
clamp_bits_mono a b h = ground arith

clamp_bits_within :
    (a b : ℕ)
    → 2 ≤ b
    → b ≤ 24
    → a ≤ b + 2
    → b ≤ a + 2
    → (clamp_bits a ≤ b + 2) × (b ≤ clamp_bits a + 2)
unfolding clamp_bits
clamp_bits_within a b lo hi up down = ground arith

clamp_bits_self : (b : ℕ) → 2 ≤ b → b ≤ 24 → clamp_bits b ≡ b
unfolding clamp_bits
clamp_bits_self b lo hi = ground arith

-- Whatever the old bits and the elapsed time, the new bits lie between 2 and 24.
pub retarget_bounds :
    (bits : ℕ) (elapsed : ℤ)
    → (2 ≤ retarget_difficulty_bits bits elapsed) × (retarget_difficulty_bits bits elapsed ≤ 24)
unfolding retarget_difficulty_bits
retarget_bounds bits (negsuc n) = clamp_bits_range bits
retarget_bounds bits (pos n) = elim (Bool-cases (n == 0)) [
  | inl e ↦ rw e (clamp_bits_range bits)
  | inr e ↦ rw e (clamp_bits_range (round_log2 (next_work (clamp_bits bits) (clamp_span n))))
]

-- The nearest logarithm grows with the number.
nearest_mono : (v v' r r' : ℕ) → IsNearestLog2 v r → IsNearestLog2 v' r' → v ≤ v' → r ≤ r'
nearest_mono v v' r r' (lo, hi) (lo', hi') h = elim (dec_lt r' r) [
  | no ge ↦ omega arith
  | yes lt ↦
      let up = pow-le-pow_right {n = 4} (omega arith) {i = suc r'} {j = r} lt in
      let e = pow-succ' 4 r' in let sq = square_le v v' h in absurd (omega arith)
]

four-pow-three : (b : ℕ) → 4 ^ (b + 3) ≡ 64 * 4 ^ b
four-pow-three b =
    let e : b + 3 ≡ suc (suc (suc b)) = omega arith in
    rw (e, pow-succ' 4 (suc (suc b)), pow-succ' 4 (suc b), pow-succ' 4 b) (omega arith)

nearest_at_most : (v b r : ℕ) → IsNearestLog2 v r → v ≤ 4 * 2 ^ b → r ≤ b + 2
nearest_at_most v b r (lo, hi) h = elim (dec_lt (b + 2) r) [
  | no ge ↦ omega arith
  | yes lt ↦
      let up = pow-le-pow_right {n = 4} (omega arith) {i = b + 3} {j = r} (omega arith) in
      let one = pow-le-pow_right {n = 4} (omega arith) {i = 0} {j = b} (omega arith) in
      let e = four-pow-three b in
      let f = four-pow b in let sq = square_le v (4 * 2 ^ b) h in absurd (omega arith)
]

nearest_at_least : (v b r : ℕ) → IsNearestLog2 v r → 2 ^ b ≤ 4 * v → b ≤ r + 2
nearest_at_least v b r (lo, hi) h = elim (dec_lt (r + 2) b) [
  | no ge ↦ omega arith
  | yes lt ↦
      let up = pow-le-pow_right {n = 4} (omega arith) {i = r + 3} {j = b} (omega arith) in
      let e = four-pow-three r in
      let f = four-pow b in let sq = square_le (2 ^ b) (4 * v) h in absurd (omega arith)
]

work_range : (b : ℕ) → 2 ≤ b → b ≤ 24 → (k : ℕ) × (2 ^ b ≡ 4 * k) × (0 < k) × (2 ^ b ≤ 2 ^ 24)
work_range b lo hi =
    let e : b ≡ suc (suc (b - 2)) = omega arith in
    let one = pow-le-pow_right {n = 2} (omega arith) {i = 0} {j = b - 2} (omega arith) in
    let top = pow-le-pow_right {n = 2} (omega arith) {i = b} {j = 24} hi in
    let quad : 2 ^ b ≡ 4 * 2 ^ (b - 2) =
      ap (λ t. 2 ^ t) e ∙ (rw (pow-succ' 2 (suc (b - 2)), pow-succ' 2 (b - 2)) (omega arith)) in
    (2 ^ (b - 2), quad, one, top)

next_work_range :
    (b span : ℕ)
    → 2 ≤ b
    → b ≤ 24
    → (2 ^ b ≤ 4 * next_work b span)
      × (next_work b span ≤ 4 * 2 ^ b)
      × (0 < next_work b span)
      × (next_work b span < u64_mod)
unfolding next_work
next_work_range b span lo hi =
    let (k, quad, p, top) = work_range b lo hi in
    let fits : 2 ^ b % u64_mod ≡ 2 ^ b = mod-eq_of_lt (omega arith) in rw fits (ground arith)

div_antitone : (y s t : ℕ) → 0 < s → s ≤ t → y / t ≤ y / s
div_antitone y s t p h =
    let le = div-mul-le_self y t in
    let less : y / t * s ≤ y / t * t = grind arith in (le-div_iff_mul-le p).1 (omega arith)

next_work_antitone : (b s t : ℕ) → 2 ≤ b → b ≤ 24 → 0 < s → s ≤ t → next_work b t ≤ next_work b s
unfolding next_work
next_work_antitone b s t lo hi p h =
    let (k, quad, q, top) = work_range b lo hi in
    let fits : 2 ^ b % u64_mod ≡ 2 ^ b = mod-eq_of_lt (omega arith) in
    let scaled : mul64 (2 ^ b) 540 ≡ 2 ^ b * 540 = mod-eq_of_lt (omega arith) in
    let anti = div_antitone (2 ^ b * 540) s t p h in rw (fits, scaled) (ground arith)

clamp_span_range : (n : ℕ) → (135 ≤ clamp_span n) × (clamp_span n ≤ 2160)
unfolding clamp_span
clamp_span_range n = ground arith

clamp_span_mono : (s t : ℕ) → s ≤ t → clamp_span s ≤ clamp_span t
unfolding clamp_span
clamp_span_mono s t h = ground arith

next_log2 :
    (b n : ℕ)
    → 2 ≤ b
    → b ≤ 24
    → IsNearestLog2 (next_work b (clamp_span n)) (round_log2 (next_work b (clamp_span n)))
next_log2 b n lo hi =
    let (a, c, p, h) = next_work_range b (clamp_span n) lo hi in
    round_log2-IsNearestLog2 (next_work b (clamp_span n)) p h

positive_step :
    (b n : ℕ) → 2 ≤ b → b ≤ 24 → (retarget_positive b n ≤ b + 2) × (b ≤ retarget_positive b n + 2)
unfolding retarget_positive
positive_step b n lo hi =
    let (down, up, p, h) = next_work_range b (clamp_span n) lo hi in
    let v = next_work b (clamp_span n) in
    let near = next_log2 b n lo hi in
    clamp_bits_within (round_log2 v) b lo hi (nearest_at_most v b (round_log2 v) near up)
      (nearest_at_least v b (round_log2 v) near down)

-- One retarget moves the bits by two at most, from the old bits taken into the band 2 to 24.
pub retarget_step :
    (bits : ℕ) (elapsed : ℤ)
    → (retarget_difficulty_bits bits elapsed ≤ clamp_bits bits + 2)
      × (clamp_bits bits ≤ retarget_difficulty_bits bits elapsed + 2)
unfolding retarget_difficulty_bits
retarget_step bits (negsuc n) = (omega arith, omega arith)
retarget_step bits (pos n) =
    let (lo, hi) = clamp_bits_range bits in
    elim (Bool-cases (n == 0)) [
      | inl e ↦ rw e (omega arith, omega arith)
      | inr e ↦ rw e (positive_step (clamp_bits bits) n lo hi)
    ]

-- Of two positive spans the longer never gives the higher difficulty.
pub retarget_antitone :
    (bits s t : ℕ)
    → 0 < s
    → s ≤ t
    → retarget_difficulty_bits bits (pos t) ≤ retarget_difficulty_bits bits (pos s)
unfolding retarget_difficulty_bits
retarget_antitone bits s t p h =
    let (lo, hi) = clamp_bits_range bits in
    let b = clamp_bits bits in
    let (s_lo, s_hi) = clamp_span_range s in
    let less =
      next_work_antitone b (clamp_span s) (clamp_span t) lo hi (omega arith)
        (clamp_span_mono s t h) in
    let near = nearest_mono _ _ _ _ (next_log2 b t lo hi) (next_log2 b s lo hi) less in
    let down = clamp_bits_mono _ _ near in
    let es : (s == 0) ≡ false = ground arith in
    let et : (t == 0) ≡ false = ground arith in rw (es, et) down

next_work_on_target : (b : ℕ) → 2 ≤ b → b ≤ 24 → next_work b (clamp_span 540) ≡ 2 ^ b
unfolding next_work clamp_span
next_work_on_target b lo hi =
    let (k, quad, q, top) = work_range b lo hi in
    let fits : 2 ^ b % u64_mod ≡ 2 ^ b = mod-eq_of_lt (omega arith) in
    let scaled : mul64 (2 ^ b) 540 ≡ 2 ^ b * 540 = mod-eq_of_lt (omega arith) in
    let same : 2 ^ b * 540 / 540 ≡ 2 ^ b = omega arith in rw (fits, scaled, same) (ground arith)

-- If the elapsed time is the target of 540 seconds, the bits stay, taken into the band 2 to 24.
pub retarget_on_target : (bits : ℕ) → retarget_difficulty_bits bits (pos 540) ≡ clamp_bits bits
unfolding retarget_difficulty_bits
retarget_on_target bits =
    let b = clamp_bits bits in
    let (lo, hi) = clamp_bits_range bits in
    let e = next_work_on_target b lo hi in
    let one = pow-le-pow_right {n = 2} (omega arith) {i = 0} {j = b} (omega arith) in
    let near = next_log2 b 540 lo hi in
    let exact : IsNearestLog2 (2 ^ b) b =
      (rw (four-pow b) (omega arith), rw (four-pow b) (omega (arith, square_le 1 (2 ^ b) one))) in
    let r = round_log2 (next_work b (clamp_span 540)) in
    let up = nearest_mono _ _ r b near exact (rw e (omega arith)) in
    let down = nearest_mono _ _ b r exact near (rw e (omega arith)) in
    let same : r ≡ b = omega arith in rw same (clamp_bits_self b lo hi)
