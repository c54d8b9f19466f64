-- ===== src/Coinbase/Supply.antt =====
-- What an accepted coinbase may mint.
use pi_secure.Prelude.{
  Bytes, u64_mod, Result-cases, ok, ℕ, ◌+◌, ◌*◌, ◌≤◌, ◌<◌, ◌≡◌, inl, inr, Option, List, arith,
}
use pi_secure.Emission.{fee_shares, subsidy_for_height, coinbase_subsidy_ok}
use pi_secure.Emission.Shares.{fee_shares-total}
use pi_secure.Emission.Schedule.{coinbase_subsidy_ok_iff}
use pi_secure.Tx.{Tx}
use pi_secure.Coinbase.{CbOut, Paid, nothing_paid, emission_for, tally, paid_ok, accept_coinbase}
use pi_secure.Coinbase.Tally.{total_units, total_paid, tally_total}

paid_within :
    (height fee : ℕ) (p : Paid) (outs : List CbOut)
    → 32 ≤ height
    → fee * 60 < u64_mod
    → paid_ok height (emission_for height fee) p outs ≡ ok tt
    → total_paid p + (fee_shares fee).burn ≤ subsidy_for_height height + fee
unfolding paid_ok emission_for subsidy_for_height
paid_within height fee p outs h fits accepted =
    let (sum, lo, hi) = fee_shares-total fee fits in
    let rule : coinbase_subsidy_ok height fee p.paid_miner p.paid_validator ≡ ok tt =
      elim (Result-cases (coinbase_subsidy_ok height fee p.paid_miner p.paid_validator)) [
        | inl (u, e) ↦ e
        | inr (r, e) ↦ ground arith
      ] in
    let (due, val) = (coinbase_subsidy_ok_iff height fee p.paid_miner p.paid_validator).0 rule in
    let s = fee_shares fee in
    let limits : (p.paid_stakers ≤ s.stakers)
        × (p.paid_loans ≤ s.loans)
        × (p.paid_foundation ≡ s.foundation) =
      ground arith in
    ground arith

-- From height 32 on an accepted coinbase whose units fit in 64 bits together, of a block whose fees
-- are below 2^64 / 60, mints at most the subsidy and the fees less the burnt share.
pub accept_coinbase-total :
    (sha256 : Bytes → Bytes) (height fee : ℕ) (outs : List CbOut) (claimed : Option Bytes) (cb : Tx)
    → 32 ≤ height
    → fee * 60 < u64_mod
    → total_units outs < u64_mod
    → accept_coinbase sha256 height fee outs claimed ≡ ok cb
    → total_units outs + (fee_shares fee).burn ≤ subsidy_for_height height + fee
unfolding accept_coinbase
accept_coinbase-total sha256 height fee outs claimed cb h fits small accepted =
    elim (Result-cases (tally outs nothing_paid)) [
      | inr (e, fail) ↦ ground arith
      | inl (p, sums) ↦ elim (Result-cases (paid_ok height (emission_for height fee) p outs)) [
        | inr (e, fail) ↦ ground arith
        | inl (u, passed) ↦
            let within = paid_within height fee p outs h fits passed in
            omega (arith, tally_total outs nothing_paid p (omega arith) sums)
      ]
    ]
