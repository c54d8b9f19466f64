-- ===== src/Emission/Schedule.antt =====
-- What a block may pay, by height, and the unit in which it is stored.
use pi_secure.Prelude.{ok, ℕ, ◌+◌, ◌≤◌, ◌<◌, ◌≡◌, ◌↔◌, ◌⊎◌, arith}
use pi_secure.Emission.{
  fee_shares, subsidy_for_height, validator_for_height, miner_subsidy_for_height, stored_to_pi,
  coinbase_subsidy_ok,
}
use pi_secure.Emission.Shares.{miner_share_bound}

-- The payments due for a block, in the unit of its height.
abbrev pub MinerDue : ℕ → ℕ → ℕ → Type 0
MinerDue height share paid =
    ((3000 ≤ height) × (paid ≡ 216_000 + share))
    ⊎ ((32 ≤ height) × (height < 3000) × (paid ≡ 216 + share))
    ⊎ ((height < 32) × ((paid ≡ 198 + share) ⊎ (paid ≡ 216 + share)))

abbrev pub ValidatorDue : ℕ → ℕ → Type 0
ValidatorDue height paid = ((3000 ≤ height) × (paid ≡ 2000)) ⊎ ((height < 3000) × (paid ≡ 2))

-- The rule accepts exactly the payments that the schedule states: the extra test on old units at and
-- above height 3000 refuses nothing else.
pub coinbase_subsidy_ok_iff :
    (height fee paid_miner paid_validator : ℕ)
    → (coinbase_subsidy_ok height fee paid_miner paid_validator ≡ ok tt)
      ↔ (MinerDue height (fee_shares fee).miner paid_miner × ValidatorDue height paid_validator)
unfolding coinbase_subsidy_ok
coinbase_subsidy_ok_iff height fee paid_miner paid_validator =
    let share = miner_share_bound fee in
    (λ accepted. ground (arith, share), λ due. ground (arith, share))

-- The change of unit at height 3000 keeps the worth of a block: in pi, the whole subsidy, the
-- validator's part and the miner's part are the same at any height from 32 to 2999 and at any
-- height from 3000 on.
pub subsidy_continuous :
    (before after : ℕ)
    → 32 ≤ before
    → before < 3000
    → 3000 ≤ after
    → (stored_to_pi (subsidy_for_height before) before
        ≡ stored_to_pi (subsidy_for_height after) after)
      × (stored_to_pi (validator_for_height before) before
          ≡ stored_to_pi (validator_for_height after) after)
      × (stored_to_pi (miner_subsidy_for_height before) before
          ≡ stored_to_pi (miner_subsidy_for_height after) after)
unfolding stored_to_pi miner_subsidy_for_height
subsidy_continuous before after h h' k = ground arith
