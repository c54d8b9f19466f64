-- ===== src/Coinbase.antt =====
-- cpp/pisecured/src/chain_rpc.cpp: the emission of a block, the coinbase that `rpc_getblocktemplate`
-- hands out, and the coinbase rules of `rpc_submitblock`. SHA-256 is a parameter, as in Tx.
pub mod Tally
pub mod Template
pub mod Supply
pub mod Wrap
mod Examples
use pi_secure.Prelude.{
  ltb, leb, ◌==◌, if◌then◌else◌, ltb→lt, lt→ltb, leb→le, ==_iff, Bool-cases, Option-cases, tests,
  length, get_elem?, set, length-append, length-set, get_elem?-set_self, get_elem?-set_ne, get_or,
  take, drop, replicate, take-append-drop, length-take, length-drop, length-replicate, length-map,
  take-append, drop-append, drop-suc-append, Bytes, codes, u64_mod, u64_max, u32_mod, All,
  All-append, All-append_left, All-append_right, IsByte, bytes_eq, bytes_eq_iff, bytes_eq_refl,
  ◌>>=◌, ◌>>◌, fail_if, is_ok, Result-cases, Reason, Result, ok, err, add64, sub64, mul64, sub_ℕ, ℤ,
  pos, negsuc, ℕ, zero, suc, ◌+◌, ◌-◌, ◌*◌, ◌/◌, ◌%◌, ◌^◌, ◌≤◌, ◌<◌, ◌≡◌, refl, sym, ap, ap₂, subst,
  ◌∙◌, ◌≢◌, ◌↔◌, ◌⊎◌, inl, inr, Bool, true, false, not, ◌&&◌, ◌||◌, Option, none, some, List, [],
  ◌∷◌, ◌++◌, map, append-nil, append_assoc, arith, dec_lt, ℕ_discrete,
}
use pi_secure.Prelude.Reason.{
  exceeds_emission, foundation_address, validator_address, coinbase_missing,
}
use pi_secure.Emission
use pi_secure.Emission.{
  subsidy_for_height, validator_for_height, fee_shares, coinbase_subsidy_ok,
  miner216_activation_height,
}
use pi_secure.Address.{is_ps1_payout}
use pi_secure.Hex.{to_hex}
use pi_secure.Tx.{Tx, TxOut, empty_tx, txid_of}

-- kFoundationPayout
abbrev pub foundation_payout : Bytes
foundation_payout = codes "ps1522db177e6452cbb6e48f296b19e6f2bdeb5b5e7a41a9552eb60a01464c3a5ba"

-- `Emission` of the source.
pub record Emitted : Type 0 where
  pub subsidy : ℕ
  pub miner_subsidy : ℕ
  pub validator : ℕ
  pub fee : ℕ
  pub miner_fee : ℕ
  pub stakers : ℕ
  pub loans : ℕ
  pub foundation : ℕ
  pub burn : ℕ

unfoldable pub miner_cap : Emitted → ℕ
miner_cap e = add64 e.miner_subsidy e.miner_fee

unfoldable pub emission_for : ℕ → ℕ → Emitted
emission_for height fee =
    let shares = fee_shares fee in
    record {
      subsidy = subsidy_for_height height;
      miner_subsidy = sub64 (subsidy_for_height height) (validator_for_height height);
      validator = validator_for_height height;
      fee = fee;
      miner_fee = shares.miner;
      stakers = shares.stakers;
      loans = shares.loans;
      foundation = shares.foundation;
      burn = shares.burn;
    }

-- The texts that the code compares a role with; any other text is `other`.
pub data Role : Type 0 where
  miner validator stakers loans foundation burn : Role
  other : Bytes → Role

pub record CbOut : Type 0 where
  pub role : Role
  pub address : Bytes
  pub units : ℕ

-- The loop of `coinbase_from`, which skips an output of no units.
paid_outputs : List CbOut → List TxOut
paid_outputs [] = []
paid_outputs (o ∷ outs) =
    let rest = paid_outputs outs in
    if o.units == 0 then rest else record { value = o.units; address = o.address } ∷ rest

module _ (sha256 : Bytes → Bytes) where
  pub coinbase_from : ℕ → List CbOut → Tx
  unfolding paid_outputs
  coinbase_from height outs =
      let tx = record empty_tx { coinbase = true; height = height; outputs = paid_outputs outs } in
      record tx { txid = txid_of sha256 tx }

-- `if (units > 0) outs.push_back(...)`
push_share : Role → Bytes → ℕ → List CbOut → List CbOut
push_share role address units rest =
    if ltb 0 units then record { role = role; address = address; units = units } ∷ rest else rest

pub template_coinbase : Bytes → Bytes → Emitted → List CbOut
unfolding push_share
template_coinbase wallet validator_payout e =
    record { role = miner; address = wallet; units = miner_cap e }
    ∷ record { role = validator; address = validator_payout; units = e.validator }
    ∷ push_share stakers (codes "stakers") e.stakers (
        push_share loans (codes "loans") e.loans
          (push_share foundation foundation_payout e.foundation []))

-- The sums by role in `rpc_submitblock`.
pub record Paid : Type 0 where
  pub paid_miner : ℕ
  pub paid_validator : ℕ
  pub paid_stakers : ℕ
  pub paid_loans : ℕ
  pub paid_foundation : ℕ

abbrev pub nothing_paid : Paid
nothing_paid = record {
  paid_miner = 0;
  paid_validator = 0;
  paid_stakers = 0;
  paid_loans = 0;
  paid_foundation = 0;
}

-- One output in the loop.
tally_role : Role → Bytes → ℕ → Paid → Result Paid
tally_role burn address units p = err exceeds_emission
tally_role miner address units p = ok (record p { paid_miner = add64 p.paid_miner units })
tally_role validator address units p =
    ok (record p { paid_validator = add64 p.paid_validator units })
tally_role stakers address units p = ok (record p { paid_stakers = add64 p.paid_stakers units })
tally_role loans address units p = ok (record p { paid_loans = add64 p.paid_loans units })
tally_role foundation address units p =
    if not (bytes_eq address foundation_payout)
    then err foundation_address
    else ok (record p { paid_foundation = add64 p.paid_foundation units })
tally_role (other text) address units p = err exceeds_emission

pub tally : List CbOut → Paid → Result Paid
tally [] p = ok p
tally (o ∷ outs) p = tally_role o.role o.address o.units p >>= tally outs

is_validator : Role → Bool
is_validator validator = true
is_validator _ = false

-- The loop over the validator outputs, from height 32 on.
validators_ok : List CbOut → Result (Unit {0})
unfolding is_validator
validators_ok [] = ok tt
validators_ok (o ∷ outs) =
    if is_validator o.role && not (is_ps1_payout o.address)
    then err validator_address
    else validators_ok outs

-- The tests on the sums, up to the addresses of the validators.
pub paid_ok : ℕ → Emitted → Paid → List CbOut → Result (Unit {0})
paid_ok height e p outs = do
  fail_if
      (ltb e.stakers p.paid_stakers
        || ltb e.loans p.paid_loans
        || not (p.paid_foundation == e.foundation))
      exceeds_emission
  coinbase_subsidy_ok height e.fee p.paid_miner p.paid_validator
  if leb miner216_activation_height height then validators_ok outs else ok tt

module _ (sha256 : Bytes → Bytes) where
  -- The transaction of the coinbase, and its id against the one that the block claims, if any.
  claimed_ok : Tx → Option Bytes → Result Tx
  claimed_ok cb none = ok cb
  claimed_ok cb (some txid) = if bytes_eq txid (to_hex cb.txid) then ok cb else err coinbase_missing

  nonempty_ok : Tx → List TxOut → Option Bytes → Result Tx
  unfolding claimed_ok
  nonempty_ok cb [] claimed = err coinbase_missing
  nonempty_ok cb (o ∷ outs) claimed = claimed_ok cb claimed

  -- The coinbase part of `rpc_submitblock`, from the sums by role on.
  pub accept_coinbase : ℕ → ℕ → List CbOut → Option Bytes → Result Tx
  unfolding nonempty_ok
  accept_coinbase height fee outs claimed = do
    p ← tally outs nothing_paid
    paid_ok height (emission_for height fee) p outs
    let cb = coinbase_from sha256 height outs
    nonempty_ok cb cb.outputs claimed
