-- ===== src/Emission/Shares.antt =====
-- The fee shares add up to the fee.
use pi_secure.Prelude.{u64_mod, ℕ, ◌+◌, ◌*◌, ◌≤◌, ◌<◌, ◌≡◌, arith}
use pi_secure.Emission.{FeeShares, fee_shares}

abbrev pub total : FeeShares → ℕ
total s = s.miner + s.stakers + s.loans + s.foundation + s.burn

-- Of a fee below 2^64 / 60 nothing is lost and nothing is made: the five shares add up to the fee,
-- and what is burnt is a twentieth of it at least and less than a twentieth and four units.
pub fee_shares-total :
    (fee : ℕ)
    → fee * 60 < u64_mod
    → (total (fee_shares fee) ≡ fee)
      × (fee ≤ 20 * (fee_shares fee).burn)
      × (20 * (fee_shares fee).burn < fee + 80)
unfolding fee_shares
fee_shares-total fee h = omega arith

-- Of any 64-bit fee the miner's share is below a hundredth of 2^64, so it fits beside a subsidy.
pub miner_share_bound : (fee : ℕ) → (fee_shares fee).miner * 100 < u64_mod
unfolding fee_shares
miner_share_bound fee = omega arith
