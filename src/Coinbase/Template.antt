-- ===== src/Coinbase/Template.antt =====
-- The coinbase that the node hands to a miner passes the node's own rules.
use pi_secure.Prelude.{
  dec_lt, inl, inr, bytes_eq_refl, ◌==◌, Bytes, u64_mod, bytes_eq_refl, ok, ℕ, ◌<◌, ◌≡◌, refl, inl,
  inr, true, false, none, arith, dec_lt,
}
use pi_secure.Emission.{fee_shares, subsidy_for_height, validator_for_height, coinbase_subsidy_ok}
use pi_secure.Emission.Shares.{miner_share_bound}
use pi_secure.Emission.Schedule.{coinbase_subsidy_ok_iff}
use pi_secure.Address.{is_ps1_payout}
use pi_secure.Coinbase.{
  Paid, Emitted, nothing_paid, emission_for, tally, tally_role, paid_ok, validators_ok,
  accept_coinbase, nonempty_ok, coinbase_from, paid_outputs, is_validator, push_share,
  template_coinbase, miner_cap, foundation_payout,
}

abbrev as_paid : Emitted → Paid
as_paid e = record {
  paid_miner = miner_cap e;
  paid_validator = e.validator;
  paid_stakers = e.stakers;
  paid_loans = e.loans;
  paid_foundation = e.foundation;
}

abbrev Fits : Emitted → Type 0
Fits e =
    (e.validator < u64_mod) × (e.stakers < u64_mod) × (e.loans < u64_mod) × (e.foundation < u64_mod)

tally-template :
    (w v : Bytes) (e : Emitted)
    → Fits e
    → tally (template_coinbase w v e) nothing_paid ≡ ok (as_paid e)
unfolding template_coinbase push_share tally tally_role miner_cap
tally-template w v e f = ground (arith, bytes_eq_refl foundation_payout)

validators_ok-template :
    (w v : Bytes) (e : Emitted)
    → is_ps1_payout v ≡ true
    → validators_ok (template_coinbase w v e) ≡ ok tt
unfolding template_coinbase push_share validators_ok is_validator
validators_ok-template w v e h = ground arith

emission-Fits : (height fee : ℕ) → Fits (emission_for height fee)
unfolding emission_for validator_for_height fee_shares
emission-Fits height fee = ground arith

template_due :
    (height fee : ℕ)
    → let e = emission_for height fee in
      coinbase_subsidy_ok height fee (miner_cap e) e.validator ≡ ok tt
unfolding emission_for miner_cap subsidy_for_height validator_for_height
template_due height fee =
    let share = miner_share_bound fee in
    let e = emission_for height fee in
    (coinbase_subsidy_ok_iff height fee (miner_cap e) e.validator).1 (elim (dec_lt height 32) [
      | yes early ↦
          (inr (inr (early, inl (ground (arith, share)))), inr (ground arith, ground arith))
      | no late ↦ elim (dec_lt height 3000) [
        | yes old ↦ (inr (inl (ground arith, old, ground (arith, share))), inr (old, ground arith))
        | no new ↦ (inl (ground arith, ground (arith, share)), inl (ground arith, ground arith))
      ]
    ])

miner_cap-pos : (height fee : ℕ) → (miner_cap (emission_for height fee) == 0) ≡ false
unfolding emission_for miner_cap subsidy_for_height validator_for_height
miner_cap-pos height fee = ground (arith, miner_share_bound fee)

same_fee : (height fee : ℕ) → (emission_for height fee).fee ≡ fee
unfolding emission_for
same_fee height fee = refl

paid_ok-template :
    (height fee : ℕ) (w v : Bytes)
    → is_ps1_payout v ≡ true
    → let e = emission_for height fee in
      paid_ok height e (as_paid e) (template_coinbase w v e) ≡ ok tt
unfolding paid_ok
paid_ok-template height fee w v h =
    let e = emission_for height fee in
    ground (arith, template_due height fee, validators_ok-template w v e h, same_fee height fee)

nonempty-template :
    (sha256 : Bytes → Bytes) (height fee : ℕ) (w v : Bytes)
    → let cb = coinbase_from sha256 height (template_coinbase w v (emission_for height fee)) in
      nonempty_ok sha256 cb cb.outputs none ≡ ok cb
unfolding template_coinbase coinbase_from nonempty_ok paid_outputs
nonempty-template sha256 height fee w v = rw (miner_cap-pos height fee)

-- At every height and whatever the fees, the template's coinbase is accepted where the block claims no
-- id for it, if its validator output goes to a ps1 address.
pub accept_coinbase-template :
    (sha256 : Bytes → Bytes) (height fee : ℕ) (wallet validator_payout : Bytes)
    → is_ps1_payout validator_payout ≡ true
    → let outs = template_coinbase wallet validator_payout (emission_for height fee) in
      accept_coinbase sha256 height fee outs none ≡ ok (coinbase_from sha256 height outs)
unfolding accept_coinbase
accept_coinbase-template sha256 height fee wallet validator_payout h =
    let e = emission_for height fee in
    rw
      (
        tally-template wallet validator_payout e (emission-Fits height fee),
        paid_ok-template height fee wallet validator_payout h,
      )
      (nonempty-template sha256 height fee wallet validator_payout)
