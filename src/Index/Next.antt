-- ===== src/Index/Next.antt =====
-- How the difficulty of the next block follows from the tip.
use pi_secure.Prelude.{
  ltb, leb, Bool-cases, Option-cases, u32_mod, sub_ℕ, pos, ℕ, ◌+◌, ◌-◌, ◌%◌, ◌≤◌, ◌<◌, ◌≡◌, refl,
  ◌∙◌, ◌⊎◌, inl, inr, true, false, some, arith,
}
use pi_secure.Retarget.{clamp_bits, retarget_difficulty_bits}
use pi_secure.Retarget.Bounds.{retarget_bounds, retarget_step, retarget_on_target}
use pi_secure.Index.{
  Index, BlockHeader, has_tip, tip_difficulty, known_bits, get_header_by_hash, get_header_by_height,
  elapsed_between, window_at, next_difficulty_window, clamp_difficulty, legacy_step, legacy_at,
  next_difficulty_legacy, next_difficulty,
}

-- The tip's bits, taken into the band 2 to 24.
abbrev pub tip_bits : Index → ℕ
tip_bits s = clamp_bits (known_bits (tip_difficulty s))

-- The same for the older rule.
abbrev pub legacy_bits : Index → ℕ
legacy_bits s = clamp_difficulty (known_bits (tip_difficulty s))

clamp_bits_range : (bits : ℕ) → (2 ≤ clamp_bits bits) × (clamp_bits bits ≤ 24)
unfolding clamp_bits
clamp_bits_range bits = ground arith

clamp_bits_idem : (bits : ℕ) → clamp_bits (clamp_bits bits) ≡ clamp_bits bits
unfolding clamp_bits
clamp_bits_idem bits = ground arith

-- What the window gives on a chain: the tip's bits, or their retarget.
window_cases :
    (s : Index)
    → has_tip s ≡ true
    → (next_difficulty_window s ≡ tip_bits s)
      ⊎ ((tip : BlockHeader) × (older : BlockHeader) × (next_difficulty_window s
            ≡ retarget_difficulty_bits (tip_bits s) (elapsed_between tip older)))
unfolding next_difficulty_window window_at
window_cases s tipped = elim (Option-cases (get_header_by_hash s s.best_block_hash)) [
  | inl e ↦ inl (rw (tipped, e) refl)
  | inr (tip, e) ↦ elim (Bool-cases (ltb tip.height 10)) [
    | inl low ↦ inl (rw tipped (rw e (rw low refl)))
    | inr high ↦ elim (Option-cases (get_header_by_height s (tip.height - 9))) [
      | inl n ↦ inl (rw tipped (rw e (rw high (rw n refl))))
      | inr (older, o) ↦ inr (tip, older, rw tipped (rw e (rw high (rw o refl))))
    ]
  ]
]

next_is_window :
    (s : Index)
    → has_tip s ≡ true
    → s.best_height + 1 < u32_mod
    → next_difficulty s ≡ next_difficulty_window s
unfolding next_difficulty
next_is_window s tipped fits =
    let same : (s.best_height + 1) % u32_mod ≡ s.best_height + 1 = omega arith in
    let active : ltb (s.best_height + 1) 1 ≡ false = ground arith in rw (tipped, same, active) refl

-- On a chain with a tip below height 2^32 - 1 the next difficulty lies between 2 and 24 bits, and
-- within two of the tip's bits, which are first taken into that band.
pub next_difficulty_step :
    (s : Index)
    → has_tip s ≡ true
    → s.best_height + 1 < u32_mod
    → (2 ≤ next_difficulty s)
      × (next_difficulty s ≤ 24)
      × (next_difficulty s ≤ tip_bits s + 2)
      × (tip_bits s ≤ next_difficulty s + 2)
next_difficulty_step s tipped fits =
    let bits = known_bits (tip_difficulty s) in
    let (lo, hi) = clamp_bits_range bits in
    rw (next_is_window s tipped fits) (elim (window_cases s tipped) [
      | inl e ↦ rw e (omega arith, omega arith, omega arith, omega arith)
      | inr (tip, older, e) ↦
          let (low, high) = retarget_bounds (tip_bits s) (elapsed_between tip older) in
          let (up, down) = retarget_step (tip_bits s) (elapsed_between tip older) in
          let idem = clamp_bits_idem bits in
          rw e (low, high, omega (arith, up, idem), omega (arith, down, idem))
    ])

-- Let the tip, at a height of 10 at least and below 2^32 - 1, and the block nine below it be known.
-- If they are 540 seconds apart, the next difficulty is the tip's bits, taken into the band 2 to
-- 24.
pub next_difficulty_on_pace :
    (s : Index) (tip older : BlockHeader)
    → has_tip s ≡ true
    → s.best_height + 1 < u32_mod
    → get_header_by_hash s s.best_block_hash ≡ some tip
    → 10 ≤ tip.height
    → get_header_by_height s (tip.height - 9) ≡ some older
    → tip.timestamp ≡ older.timestamp + 540
    → next_difficulty s ≡ tip_bits s
unfolding next_difficulty_window window_at elapsed_between
next_difficulty_on_pace s tip older tipped fits e high o pace =
    let late : ltb tip.height 10 ≡ false = ground arith in
    let not_before : leb older.timestamp tip.timestamp ≡ true = ground arith in
    let gap : tip.timestamp - older.timestamp ≡ 540 = omega arith in
    let span : sub_ℕ tip.timestamp older.timestamp ≡ pos 540 = rw (not_before, gap) refl in
    rw (next_is_window s tipped fits) (
      rw tipped (
        rw e (
          rw late (
            rw o (
              rw span (
                retarget_on_target (tip_bits s)
                ∙ clamp_bits_idem (known_bits (tip_difficulty s))))))))

clamp_difficulty_range : (bits : ℕ) → (2 ≤ clamp_difficulty bits) × (clamp_difficulty bits ≤ 4)
unfolding clamp_difficulty
clamp_difficulty_range bits = ground arith

-- `n` is in the band 2 to 4, and within one of `bits`.
abbrev OneStep : ℕ → ℕ → Type 0
OneStep bits n = (2 ≤ n) × (n ≤ 4) × (n ≤ bits + 1) × (bits ≤ n + 1)

legacy_step-OneStep :
    (bits : ℕ) (tip parent : BlockHeader)
    → 2 ≤ bits
    → bits ≤ 4
    → OneStep bits (legacy_step bits tip parent)
unfolding legacy_step
legacy_step-OneStep bits tip parent lo hi = ground arith

legacy_at-OneStep :
    (s : Index) (bits : ℕ) (tip : BlockHeader)
    → 2 ≤ bits
    → bits ≤ 4
    → OneStep bits (legacy_at s bits tip)
unfolding legacy_at
legacy_at-OneStep s bits tip lo hi = elim (Bool-cases (ltb tip.height 2)) [
  | inl low ↦ rw low (omega arith, omega arith, omega arith, omega arith)
  | inr high ↦ elim (Option-cases (get_header_by_height s (tip.height - 1))) [
    | inl e ↦ rw high (rw e (omega arith, omega arith, omega arith, omega arith))
    | inr (parent, e) ↦ rw high (rw e (legacy_step-OneStep bits tip parent lo hi))
  ]
]

-- On a chain the older rule keeps to 2 to 4 bits, and within one of the tip's bits, which are first
-- taken into that band.
pub next_difficulty_legacy_step :
    (s : Index)
    → has_tip s ≡ true
    → (2 ≤ next_difficulty_legacy s)
      × (next_difficulty_legacy s ≤ 4)
      × (next_difficulty_legacy s ≤ legacy_bits s + 1)
      × (legacy_bits s ≤ next_difficulty_legacy s + 1)
unfolding next_difficulty_legacy
next_difficulty_legacy_step s tipped =
    let (lo, hi) = clamp_difficulty_range (known_bits (tip_difficulty s)) in
    elim (Option-cases (get_header_by_hash s s.best_block_hash)) [
      | inl e ↦ rw tipped (rw e (omega arith, omega arith, omega arith, omega arith))
      | inr (tip, e) ↦ rw tipped (rw e (legacy_at-OneStep s (legacy_bits s) tip lo hi))
    ]
