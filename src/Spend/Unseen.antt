-- ===== src/Spend/Unseen.antt =====
-- What `check_spendable` does not see: a sum of outputs that wraps, and an outpoint that one
-- transaction spends twice.
use pi_secure.Prelude.{
  ltb, u64_mod, u64_max, ok, add64, ℕ, ◌+◌, ◌-◌, ◌≤◌, ◌<◌, ◌≡◌, refl, false, List, [], ◌∷◌, arith,
}
use pi_secure.Emission.{min_fee_for_height}
use pi_secure.Tx.{TxIn, TxOut, Tx, FlagKind}
use pi_secure.Utxo.{Utxos}
use pi_secure.Spend.{
  worth_of, sum_inputs, sum_outputs, balance_ok, has_inputs, check_spendable, add_checked,
}
use pi_secure.Spend.Funds.{total_outputs, sum_outputs_exact}

-- Two outputs that add up to 2^64 units change nothing: whatever a transaction pays, the answer
-- with them in front is the answer without them.
pub check_spendable-wraps :
    (m : Utxos) (tx : Tx) (a b : TxOut) (h : ℕ) (prior : List Tx) (release : ℕ)
    → a.value + b.value ≡ u64_mod
    → check_spendable m (record tx { outputs = a ∷ b ∷ tx.outputs }) h prior release
      ≡ check_spendable m tx h prior release
unfolding check_spendable sum_outputs
check_spendable-wraps m tx a b h prior release e =
    let zero_sum : add64 (add64 0 a.value) b.value ≡ 0 = omega arith in rw zero_sum

sum_inputs-pair :
    (m : Utxos) (prior : List Tx) (h : ℕ) (i : TxIn) (w : ℕ)
    → worth_of m prior h i ≡ ok w
    → w + w < u64_mod
    → sum_inputs m prior h (i ∷ i ∷ []) 0 ≡ ok (w + w)
unfolding sum_inputs add_checked
sum_inputs-pair m prior h i w found small =
    let once : add64 0 w ≡ w = omega arith in
    let sum : add64 w w ≡ w + w = omega arith in
    let fits : ltb (u64_max - w) 0 ≡ false = ground arith in
    let fits' : ltb (u64_max - w) w ≡ false = ground arith in
    rw found (rw fits (rw once (rw fits' (rw sum refl))))

balance_ok-plain : (need have : ℕ) → need ≤ have → balance_ok FlagKind.plain need have ≡ ok tt
unfolding balance_ok
balance_ok-plain need have le = ground arith

-- A plain transaction that names one unspent outpoint twice, and nothing else, is accepted as soon as
-- twice the worth of the outpoint covers what it pays, if its fee is enough and twice the worth fits
-- in 64 bits.
pub check_spendable-twice :
    (m : Utxos) (tx : Tx) (i : TxIn) (h : ℕ) (prior : List Tx) (w : ℕ)
    → tx.inputs ≡ i ∷ i ∷ []
    → tx.flag_kind ≡ FlagKind.plain
    → min_fee_for_height h ≤ tx.fee
    → worth_of m prior h i ≡ ok w
    → w + w < u64_mod
    → total_outputs tx.outputs + tx.fee + tx.escrow_lock ≤ w + w
    → check_spendable m tx h prior 0 ≡ ok tt
unfolding check_spendable has_inputs
check_spendable-twice m tx i h prior w twice is_plain fee found small covered =
    let exact = sum_outputs_exact tx.outputs 0 (omega arith) in
    let sums = sum_inputs-pair m prior h i w found small in
    let low : ltb tx.fee (min_fee_for_height h) ≡ false = ground arith in
    let le : add64 (add64 (sum_outputs tx.outputs 0) tx.fee) tx.escrow_lock ≤ add64 (w + w) 0 =
      omega (arith, exact) in
    rw twice (rw low (rw sums (rw is_plain (balance_ok-plain _ _ le))))
