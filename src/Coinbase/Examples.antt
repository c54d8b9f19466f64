-- ===== src/Coinbase/Examples.antt =====
-- Instances of the coinbase theorems, with the identity for SHA-256.
use pi_secure.Prelude.{Bytes, codes, u64_mod, ok, ◌+◌, ◌≤◌, ◌≡◌, refl, true, none, List, arith}
use pi_secure.Emission.{
  fee_shares, subsidy_for_height, validator_for_height, miner_subsidy_for_height,
}
use pi_secure.Address.{is_ps1_payout}
use pi_secure.Coinbase.{
  CbOut, emission_for, accept_coinbase, coinbase_from, template_coinbase, foundation_payout,
  miner_cap,
}
use pi_secure.Coinbase.Tally.{total_units}
use pi_secure.Coinbase.Template.{accept_coinbase-template}
use pi_secure.Coinbase.Supply.{accept_coinbase-total}
use pi_secure.Coinbase.Wrap.{split_payout, accept_coinbase-wraps}

abbrev same : Bytes → Bytes
same s = s

abbrev outs : List CbOut
outs = template_coinbase (codes "ada") foundation_payout (emission_for 3000 1000)

payout_is_ps1 : is_ps1_payout foundation_payout ≡ true
unfolding is_ps1_payout
payout_is_ps1 = refl

units_of_template : total_units outs ≡ 218_950
unfolding template_coinbase emission_for fee_shares subsidy_for_height validator_for_height
    miner_cap
units_of_template = refl

accept_coinbase-template_example :
    accept_coinbase same 3000 1000 outs none ≡ ok (coinbase_from same 3000 outs)
accept_coinbase-template_example =
    accept_coinbase-template same 3000 1000 (codes "ada") foundation_payout payout_is_ps1

accept_coinbase-total_example :
    total_units outs + (fee_shares 1000).burn ≤ subsidy_for_height 3000 + 1000
accept_coinbase-total_example =
    accept_coinbase-total same 3000 1000 outs none (coinbase_from same 3000 outs) (omega arith)
      (omega arith) (omega (arith, units_of_template))
      (accept_coinbase-template same 3000 1000 (codes "ada") foundation_payout payout_is_ps1)

abbrev split : List CbOut
split = split_payout 3000 (codes "ada") foundation_payout 300_000

miner_part : miner_subsidy_for_height 3000 ≡ 216_000
unfolding miner_subsidy_for_height
miner_part = refl

accept_coinbase-wraps_example :
    (accept_coinbase same 3000 0 split none ≡ ok (coinbase_from same 3000 split))
    × (total_units split ≡ u64_mod + subsidy_for_height 3000)
accept_coinbase-wraps_example =
    accept_coinbase-wraps same 3000 (codes "ada") foundation_payout 300_000 (omega arith)
      payout_is_ps1 (omega (arith, miner_part)) (omega arith)
