-- ===== src/Spend.antt =====
-- cpp/pisecured/src/chain_rpc.cpp: `find_outpoint`, `check_spendable`, and the update of the set of
-- unspent outputs that `rpc_submitblock` makes for a transaction. Where the source passes no earlier
-- transactions (a null pointer), the list `prior` is empty.
pub mod Funds
pub mod Balance
pub mod Unseen
pub mod Conserve
pub mod Sequential
pub mod Fits
mod Examples
use pi_secure.Prelude.{
  ltb, leb, ◌==◌, if◌then◌else◌, ltb→lt, lt→ltb, leb→le, ==_iff, Bool-cases, Option-cases, tests,
  length, get_elem?, set, length-append, length-set, get_elem?-set_self, get_elem?-set_ne, get_or,
  take, drop, replicate, take-append-drop, length-take, length-drop, length-replicate, length-map,
  take-append, drop-append, drop-suc-append, Bytes, codes, u64_mod, u64_max, u32_mod, All,
  All-append, All-append_left, All-append_right, IsByte, bytes_eq, bytes_eq_iff, bytes_eq_refl,
  ◌>>=◌, ◌>>◌, fail_if, is_ok, Result-cases, Reason, Result, ok, err, add64, sub64, mul64, sub_ℕ, ℤ,
  pos, negsuc, ℕ, zero, suc, ◌+◌, ◌-◌, ◌*◌, ◌/◌, ◌%◌, ◌^◌, ◌≤◌, ◌<◌, ◌≡◌, refl, sym, ap, ap₂, subst,
  ◌∙◌, ◌≢◌, ◌↔◌, ◌⊎◌, inl, inr, Bool, true, false, not, ◌&&◌, ◌||◌, Option, none, some, List, [],
  ◌∷◌, ◌++◌, map, append-nil, append_assoc, arith, dec_lt, ℕ_discrete,
}
use pi_secure.Prelude.Reason.{
  inputs_missing, fee_too_low, unknown_input, amount_overflow, insufficient_funds,
}
use pi_secure.Emission.{pi_activation_height, pi_per_old_unit, min_fee_for_height}
use pi_secure.Tx.{TxIn, TxOut, Tx, FlagKind}
use pi_secure.Utxo.{UtxoRecord, Utxos, UtxoSpend, UtxoCredit, utxo_lookup, apply_utxos}

-- What `find_outpoint` writes through its references.
pub record Found : Type 0 where
  pub value : ℕ
  pub owner : Bytes
  pub born : ℕ

-- The loop over the earlier transactions.
find_prior : Bytes → ℕ → ℕ → List Tx → Option Found
find_prior prev vout spend_height [] = none
find_prior prev vout spend_height (tx ∷ prior) =
    let rest = find_prior prev vout spend_height prior in
    if not (bytes_eq tx.txid prev) then rest else elim (get_elem? tx.outputs vout) [
      | none ↦ rest
      | some o ↦ some (record { value = o.value; owner = o.address; born = spend_height })
    ]

unfoldable pub find_outpoint : Utxos → List Tx → ℕ → Bytes → ℕ → Option Found
unfolding find_prior
find_outpoint m prior spend_height prev vout = elim (utxo_lookup m prev vout) [
  | some r ↦ some (record {
    value = r.value;
    owner = r.address;
    born = if r.height == 0 then spend_height else r.height;
  })
  | none ↦ find_prior prev vout spend_height prior
]

spends_outpoint : TxIn → List TxIn → Bool
spends_outpoint i [] = false
spends_outpoint i (spent ∷ inputs) =
    (spent.vout == i.vout && bytes_eq spent.prev i.prev) || spends_outpoint i inputs

-- Whether an earlier transaction spends the input.
unfoldable pub spent_before : TxIn → List Tx → Bool
unfolding spends_outpoint
spent_before i [] = false
spent_before i (earlier ∷ prior) = spends_outpoint i earlier.inputs || spent_before i prior

-- What an output is worth in the unit of the spending block: `none` is an overflow.
unfoldable pub input_worth : ℕ → Found → Option ℕ
input_worth spend_height f =
    if leb pi_activation_height spend_height && ltb f.born pi_activation_height
    then (if ltb (u64_max / pi_per_old_unit) f.value
        then none
        else some (mul64 f.value pi_per_old_unit))
    else some f.value

-- One round of the loop over the inputs, from the test of the earlier transactions on.
unfoldable pub worth_of : Utxos → List Tx → ℕ → TxIn → Result ℕ
worth_of m prior spend_height i =
    if spent_before i prior
    then err unknown_input
    else elim (find_outpoint m prior spend_height i.prev i.vout) [
      | none ↦ err unknown_input
      | some f ↦ elim (input_worth spend_height f) [ none ↦ err amount_overflow | some w ↦ ok w ]
    ]

add_checked : ℕ → ℕ → Result ℕ
add_checked input_value worth =
    if ltb (u64_max - worth) input_value then err amount_overflow else ok (add64 input_value worth)

unfoldable pub sum_inputs : Utxos → List Tx → ℕ → List TxIn → ℕ → Result ℕ
unfolding add_checked
sum_inputs m prior spend_height [] input_value = ok input_value
sum_inputs m prior spend_height (i ∷ inputs) input_value = do
  worth ← worth_of m prior spend_height i
  total ← add_checked input_value worth
  sum_inputs m prior spend_height inputs total

-- `output_value += o.value`, which is not tested for overflow.
unfoldable pub sum_outputs : List TxOut → ℕ → ℕ
sum_outputs [] output_value = output_value
sum_outputs (o ∷ outputs) output_value = sum_outputs outputs (add64 output_value o.value)

-- The comparison at the end. A flag's transaction has to balance exactly.
unfoldable pub balance_ok : FlagKind → ℕ → ℕ → Result (Unit {0})
balance_ok FlagKind.plain need have = if ltb have need then err insufficient_funds else ok tt
balance_ok FlagKind.create need have = if not (have == need) then err insufficient_funds else ok tt
balance_ok FlagKind.claim need have = if not (have == need) then err insufficient_funds else ok tt

has_inputs : List TxIn → Bool
has_inputs [] = false
has_inputs (i ∷ inputs) = true

unfoldable pub check_spendable : Utxos → Tx → ℕ → List Tx → ℕ → Result (Unit {0})
unfolding has_inputs
check_spendable m tx spend_height prior release = do
  fail_if (not (has_inputs tx.inputs)) inputs_missing
  fail_if (ltb tx.fee (min_fee_for_height spend_height)) fee_too_low
  input_value ← sum_inputs m prior spend_height tx.inputs 0
  let need = add64 (add64 (sum_outputs tx.outputs 0) tx.fee) tx.escrow_lock
  balance_ok tx.flag_kind need (add64 input_value release)

-- The spends and credits of a transaction, as `rpc_submitblock` and `apply_chain` collect them.
abbrev pub spend_of : TxIn → UtxoSpend
spend_of i = record { txid = i.prev; vout = i.vout }

unfoldable pub tx_spends : Tx → List UtxoSpend
tx_spends tx = map spend_of tx.inputs

unfoldable pub credits_from : Bytes → ℕ → ℕ → List TxOut → List UtxoCredit
credits_from txid height vout [] = []
credits_from txid height vout (o ∷ outputs) =
    record { txid = txid; vout = vout; value = o.value; address = o.address; height = height }
    ∷ credits_from txid height (vout + 1) outputs

unfoldable pub tx_credits : Tx → ℕ → List UtxoCredit
unfolding credits_from
tx_credits tx height = credits_from tx.txid height 0 tx.outputs

-- A failed update is reported, and the set stays as it is.
unfoldable pub apply_tx : ℕ → Tx → Utxos → Utxos
apply_tx height tx m = elim (apply_utxos (tx_spends tx) (tx_credits tx height) m) [
  | none ↦ m
  | some after ↦ after
]

unfoldable pub apply_txs : ℕ → List Tx → Utxos → Utxos
apply_txs height [] m = m
apply_txs height (tx ∷ txs) m = apply_txs height txs (apply_tx height tx m)
