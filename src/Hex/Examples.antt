-- ===== src/Hex/Examples.antt =====
-- Runs of the hex codec.
use pi_secure.Prelude.{codes, ◌≡◌, refl, some, [], ◌∷◌}
use pi_secure.Hex.{to_hex, decode_hex}
use pi_secure.Prelude.{All, IsByte, replicate, ℕ, zero, suc, arith}
use pi_secure.Hex.RoundTrip.{IsHash}

shown : to_hex (0 ∷ 171 ∷ []) ≡ codes "00ab"
unfolding to_hex
shown = refl

mixed_case : decode_hex (codes "aB0f") ≡ some (171 ∷ 15 ∷ [])
unfolding decode_hex
mixed_case = refl

replicate-IsByte : (n : ℕ) → All IsByte (replicate n 200)
replicate-IsByte zero = tt
replicate-IsByte (suc n) = (omega arith, replicate-IsByte n)

sample-IsHash : IsHash (replicate 32 200)
sample-IsHash = (refl, replicate-IsByte 32)
