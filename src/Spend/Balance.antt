-- ===== src/Spend/Balance.antt =====
-- An accepted transaction pays for its outputs, bs long bs their sum fits in 64 bits.
use pi_secure.Prelude.{
  u64_mod, All, Result-cases, ok, add64, ℕ, ◌+◌, ◌≤◌, ◌<◌, ◌≡◌, ◌≢◌, inl, inr, true, List, [], ◌∷◌,
  arith,
}
use pi_secure.Emission.{min_fee_for_height}
use pi_secure.Tx.{TxIn, Tx, FlagKind}
use pi_secure.Utxo.{Utxos}
use pi_secure.Spend.{sum_inputs, sum_outputs, balance_ok, has_inputs, check_spendable}
use pi_secure.Spend.Funds.{
  FitsRecord, FitsOutputs, total_outputs, total_worth, AllFound, sum_inputs_sound,
  sum_outputs_exact,
}

-- What `check_spendable` established.
pub record IsFunded (m : Utxos) (tx : Tx) (h : ℕ) (prior : List Tx) (release : ℕ) : Type 0 where
  pub nonempty : tx.inputs ≢ []
  pub fee_paid : min_fee_for_height h ≤ tx.fee
  pub all_found : AllFound m prior h tx.inputs
  pub covered :
      total_outputs tx.outputs + tx.fee + tx.escrow_lock ≤ total_worth m prior h tx.inputs + release

balance_le : (k : FlagKind) (need have : ℕ) → balance_ok k need have ≡ ok tt → need ≤ have
unfolding balance_ok
balance_le FlagKind.plain need have h = ground arith
balance_le FlagKind.create need have h = ground arith
balance_le FlagKind.claim need have h = ground arith

has_inputs-ne : (inputs : List TxIn) → has_inputs inputs ≡ true → inputs ≢ []
unfolding has_inputs
has_inputs-ne [] h e = cc
has_inputs-ne (i ∷ inputs) h e = cc

-- Let the recorded values be 64-bit numbers. If the outputs, the fee and the locked escrow fit in 64 bits together, an accepted transaction has
-- an input, pays the minimum fee, finds each of its inputs unspent by the earlier transactions, and
-- its inputs and the released bounty cover what it pays.
pub check_spendable-IsFunded :
    (m : Utxos) (tx : Tx) (h : ℕ) (prior : List Tx) (release : ℕ)
    → All FitsRecord m
    → All FitsOutputs prior
    → total_outputs tx.outputs + tx.fee + tx.escrow_lock < u64_mod
    → check_spendable m tx h prior release ≡ ok tt
    → IsFunded m tx h prior release
unfolding check_spendable
check_spendable-IsFunded m tx h prior release a bs fits e =
    elim (Result-cases (sum_inputs m prior h tx.inputs 0)) [
      | inr (reason, fail) ↦ ground arith
      | inl (total, sums) ↦
          let (exact, below, all) =
            sum_inputs_sound m prior h tx.inputs 0 total a bs (omega arith) sums in
          let paid = sum_outputs_exact tx.outputs 0 (omega arith) in
          let need = add64 (add64 (sum_outputs tx.outputs 0) tx.fee) tx.escrow_lock in
          let final : balance_ok tx.flag_kind need (add64 total release) ≡ ok tt = ground arith in
          let le = balance_le tx.flag_kind need (add64 total release) final in
          let some_input : has_inputs tx.inputs ≡ true = ground arith in
          record {
            nonempty = λ empty. has_inputs-ne tx.inputs some_input empty;
            fee_paid = ground arith;
            all_found = all;
            covered = omega (arith, exact, paid, le);
          }
    ]
