-- ===== src/Amount/Decimal.antt =====
-- What a decimal amount is, independently of the code that reads it.
use pi_secure.Prelude.{
  ℕ, ◌+◌, ◌-◌, ◌*◌, ◌^◌, ◌≤◌, ◌≡◌, ◌≢◌, ◌⊎◌, [], ◌∷◌, ◌++◌, arith, Bytes, All, length,
}

abbrev pub IsDigit : ℕ → Type 0
IsDigit c = (b'0' ≤ c) × (c ≤ b'9')

-- The number that digits spell behind `n`, with no bound.
abbrev pub value : ℕ → Bytes → ℕ
value n [] = n
value n (c ∷ s) = value (n * 10 + (c - b'0')) s

-- `whole` alone, or `whole`, a dot and `frac`.
abbrev pub Spells : Bytes → Bytes → Bytes → Type 0
Spells text whole frac =
    ((text ≡ whole) × (frac ≡ [])) ⊎ ((text ≡ whole ++ (b'.' ∷ frac)) × (frac ≢ []))

-- A 314ST amount: digits, and behind a dot up to six more.
pub record IsAmount (text whole frac : Bytes) : Type 0 where
  pub spelled : Spells text whole frac
  pub has_whole : whole ≢ []
  pub whole_digits : All IsDigit whole
  pub frac_digits : All IsDigit frac
  pub six : length frac ≤ 6

-- Its value in pi.
abbrev pub in_pi : Bytes → Bytes → ℕ
in_pi whole frac = value 0 whole * 1_000_000 + value 0 frac * 10 ^ (6 - length frac)

pub value-le : (n : ℕ) (digits : Bytes) → n ≤ value n digits
value-le n [] = omega arith
value-le n (d ∷ digits) = let next = n * 10 + (d - b'0') in omega (arith, value-le next digits)
