-- ===== src/Coinbase/Wrap.antt =====
-- The sums by role are taken modulo 2^64, with no test of overflow.
use pi_secure.Prelude.{
  dec_lt, inl, inr, ◌==◌, Bytes, u64_mod, ok, ℕ, ◌+◌, ◌-◌, ◌≤◌, ◌<◌, ◌≡◌, inl, inr, true, false,
  none, List, [], ◌∷◌, arith, dec_lt,
}
use pi_secure.Emission.{
  fee_shares, subsidy_for_height, validator_for_height, miner_subsidy_for_height,
  coinbase_subsidy_ok,
}
use pi_secure.Emission.Schedule.{coinbase_subsidy_ok_iff}
use pi_secure.Address.{is_ps1_payout}
use pi_secure.Coinbase.{
  Role, CbOut, Paid, nothing_paid, emission_for, tally, tally_role, paid_ok, validators_ok,
  accept_coinbase, nonempty_ok, coinbase_from, paid_outputs, is_validator,
}
use pi_secure.Coinbase.Tally.{total_units}

-- The miner's part in two outputs, `x` units and what is missing to 2^64 and the part.
abbrev pub split_payout : ℕ → Bytes → Bytes → ℕ → List CbOut
split_payout height wallet validator_payout x =
    record { role = Role.miner; address = wallet; units = x }
    ∷ record {
      role = Role.miner;
      address = wallet;
      units = u64_mod + miner_subsidy_for_height height - x;
    }
    ∷ record {
      role = Role.validator;
      address = validator_payout;
      units = validator_for_height height;
    }
    ∷ []

abbrev split_paid : ℕ → Paid
split_paid height = record nothing_paid {
  paid_miner = miner_subsidy_for_height height;
  paid_validator = validator_for_height height;
}

tally-split :
    (height : ℕ) (w v : Bytes) (x : ℕ)
    → miner_subsidy_for_height height < x
    → x < u64_mod
    → tally (split_payout height w v x) nothing_paid ≡ ok (split_paid height)
unfolding tally tally_role validator_for_height
tally-split height w v x above below = ground arith

rule-split :
    (height : ℕ)
    → 32 ≤ height
    → coinbase_subsidy_ok height 0 (miner_subsidy_for_height height) (validator_for_height height)
      ≡ ok tt
unfolding miner_subsidy_for_height fee_shares
rule-split height h =
    (coinbase_subsidy_ok_iff height 0 (miner_subsidy_for_height height)
        (validator_for_height height)).1
      (elim (dec_lt height 3000) [
        | yes old ↦ (inr (inl (h, old, ground arith)), inr (old, ground arith))
        | no new ↦ (inl (ground arith, ground arith), inl (ground arith, ground arith))
      ])

paid_ok-split :
    (height : ℕ) (w v : Bytes) (x : ℕ)
    → 32 ≤ height
    → is_ps1_payout v ≡ true
    → paid_ok height (emission_for height 0) (split_paid height) (split_payout height w v x) ≡ ok tt
unfolding paid_ok emission_for validators_ok is_validator fee_shares
paid_ok-split height w v x h ps1 = ground (arith, rule-split height h)

nonempty-split :
    (sha256 : Bytes → Bytes) (height : ℕ) (w v : Bytes) (x : ℕ)
    → 0 < x
    → let cb = coinbase_from sha256 height (split_payout height w v x) in
      nonempty_ok sha256 cb cb.outputs none ≡ ok cb
unfolding coinbase_from nonempty_ok paid_outputs
nonempty-split sha256 height w v x h = let e : (x == 0) ≡ false = ground arith in rw e

split-total :
    (height : ℕ) (w v : Bytes) (x : ℕ)
    → x < u64_mod
    → total_units (split_payout height w v x) ≡ u64_mod + subsidy_for_height height
unfolding miner_subsidy_for_height
split-total height w v x below = ground arith

-- From height 32 on a block without fees may pay 2^64 units more than the subsidy: a coinbase is
-- accepted that pays the miner any 64-bit amount above its part in one output and the wrapped rest
-- in another, and the validator its part at a ps1 address.
pub accept_coinbase-wraps :
    (sha256 : Bytes → Bytes) (height : ℕ) (wallet validator_payout : Bytes) (x : ℕ)
    → 32 ≤ height
    → is_ps1_payout validator_payout ≡ true
    → miner_subsidy_for_height height < x
    → x < u64_mod
    → let outs = split_payout height wallet validator_payout x in
      (accept_coinbase sha256 height 0 outs none ≡ ok (coinbase_from sha256 height outs))
      × (total_units outs ≡ u64_mod + subsidy_for_height height)
accept_coinbase-wraps sha256 height wallet validator_payout x h ps1 above below = (
  unfold accept_coinbase in
      rw
        (
          tally-split height wallet validator_payout x above below,
          paid_ok-split height wallet validator_payout x h ps1,
        )
        (nonempty-split sha256 height wallet validator_payout x (omega arith)),
  split-total height wallet validator_payout x below,
)
