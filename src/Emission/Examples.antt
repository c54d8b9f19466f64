-- ===== src/Emission/Examples.antt =====
-- Runs of the schedule, as in pi_amount_test.cpp.
use pi_secure.Prelude.{ok, err, ◌≡◌, refl}
use pi_secure.Prelude.Reason.{subsidy_mismatch}
use pi_secure.Emission.{fee_shares, coinbase_subsidy_ok}
use pi_secure.Prelude.{◌≤◌, ◌<◌, ◌+◌, ◌*◌, ◌↔◌, arith}
use pi_secure.Emission.Shares.{total, fee_shares-total}
use pi_secure.Emission.Schedule.{MinerDue, ValidatorDue, coinbase_subsidy_ok_iff}

before_activation : coinbase_subsidy_ok 2999 0 216 2 ≡ ok tt
unfolding coinbase_subsidy_ok fee_shares
before_activation = refl

old_unit_refused : coinbase_subsidy_ok 3000 0 216 2 ≡ err subsidy_mismatch
unfolding coinbase_subsidy_ok fee_shares
old_unit_refused = refl

new_unit : coinbase_subsidy_ok 3000 0 216000 2000 ≡ ok tt
unfolding coinbase_subsidy_ok fee_shares
new_unit = refl

all_of_fee :
    (total (fee_shares 1000) ≡ 1000)
    × (1000 ≤ 20 * (fee_shares 1000).burn)
    × (20 * (fee_shares 1000).burn < 1000 + 80)
all_of_fee = fee_shares-total 1000 (omega arith)

due_at_3000 :
    (coinbase_subsidy_ok 3000 1000 216_600 2000 ≡ ok tt)
    ↔ (MinerDue 3000 (fee_shares 1000).miner 216_600 × ValidatorDue 3000 2000)
due_at_3000 = coinbase_subsidy_ok_iff 3000 1000 216_600 2000
