-- ===== src/Spend/Conserve.antt =====
-- A transaction that is accepted and applied makes no value.
use pi_secure.Prelude.{
  Bool-cases, Option-cases, Bytes, u64_mod, All, bytes_eq, bytes_eq_iff, ok, ℕ, ◌+◌, ◌≤◌, ◌<◌, ◌≡◌,
  refl, ◌⊎◌, inl, inr, false, some, List, [], ◌∷◌, map, arith,
}
use pi_secure.Amount.Format.{to_decimal-injective}
use pi_secure.Hex.{to_hex}
use pi_secure.Tx.{TxIn, TxOut, Tx}
use pi_secure.Tx.Fields.{append_cancel, cons_cancel}
use pi_secure.Utxo.{UtxoRecord, Utxos, lookup, utxo_lookup, utxo_key, apply_utxos}
use pi_secure.Utxo.Map.{IsDistinct, total_value}
use pi_secure.Utxo.Value.{
  spent_value, credited_value, is_credited, value_or_zero, SpentOnce, CreditedOnce,
  apply_utxos-total,
}
use pi_secure.Spend.{
  find_prior, find_outpoint, spent_before, input_worth, worth_of, check_spendable, spend_of,
  tx_spends, credits_from, tx_credits,
}
use pi_secure.Spend.Funds.{FitsRecord, total_outputs, total_worth, AllFound}
use pi_secure.Spend.Balance.{check_spendable-IsFunded}

credited_value-outputs :
    (txid : Bytes) (height vout : ℕ) (outputs : List TxOut)
    → credited_value (credits_from txid height vout outputs) ≡ total_outputs outputs
unfolding credits_from
credited_value-outputs txid height vout [] = refl
credited_value-outputs txid height vout (o ∷ outputs) =
    omega (arith, credited_value-outputs txid height (vout + 1) outputs)

pub same_txid : (txid : Bytes) (v w : ℕ) → utxo_key txid v ≡ utxo_key txid w → v ≡ w
unfolding utxo_key
same_txid txid v w h =
    let (_, rest) = append_cancel (to_hex txid) (to_hex txid) _ _ refl h in
    let (_, digits) = cons_cancel _ _ _ _ rest in to_decimal-injective v w digits

credits_apart :
    (txid : Bytes) (height v vout : ℕ) (outputs : List TxOut)
    → v < vout
    → is_credited (utxo_key txid v) (credits_from txid height vout outputs) ≡ false
unfolding credits_from
credits_apart txid height v vout [] lt = refl
credits_apart txid height v vout (o ∷ outputs) lt =
    let ih = credits_apart txid height v (vout + 1) outputs (omega arith) in
    elim (Bool-cases (bytes_eq (utxo_key txid vout) (utxo_key txid v))) [
      | inr other ↦ rw (other, ih) refl
      | inl same ↦
          let e =
            same_txid txid vout v ((bytes_eq_iff (utxo_key txid vout) (utxo_key txid v)).0 same) in
          absurd (omega (arith, e))
    ]

pub credits-CreditedOnce :
    (txid : Bytes) (height vout : ℕ) (outputs : List TxOut)
    → CreditedOnce (credits_from txid height vout outputs)
unfolding credits_from
credits-CreditedOnce txid height vout [] = tt
credits-CreditedOnce txid height vout (o ∷ outputs) = (
  credits_apart txid height vout (vout + 1) outputs (omega arith),
  credits-CreditedOnce txid height (vout + 1) outputs,
)

-- Spends and records are in one unit.
abbrev pub SameUnit : ℕ → Utxos → Type 0
SameUnit h m = (h < 3000) ⊎ All (λ e. 3000 ≤ e.1.height) m

lookup_height :
    (key : Bytes) (m : Utxos) (r : UtxoRecord)
    → All (λ e. 3000 ≤ e.1.height) m
    → lookup key m ≡ some r
    → 3000 ≤ r.height
unfolding lookup
lookup_height key [] r a h = cc
lookup_height key ((k, s) ∷ m) r (new, a) h = elim (Bool-cases (bytes_eq k key)) [
  | inl e ↦ let same : s ≡ r = ground arith in rw (← same) new
  | inr e ↦ lookup_height key m r a (ground arith)
]

worth_is_value :
    (m : Utxos) (h : ℕ) (i : TxIn) (w : ℕ)
    → SameUnit h m
    → worth_of m [] h i ≡ ok w
    → value_or_zero (lookup (utxo_key i.prev i.vout) m) ≡ w
unfolding worth_of find_outpoint utxo_lookup find_prior spent_before input_worth
worth_is_value m h i w unit e = elim (Option-cases (lookup (utxo_key i.prev i.vout) m)) [
  | inl missing ↦ ground arith
  | inr (r, there) ↦ elim unit [
    | inl early ↦ ground arith
    | inr late ↦ let new = lookup_height (utxo_key i.prev i.vout) m r late there in ground arith
  ]
]

spent_value-inputs :
    (m : Utxos) (h : ℕ) (inputs : List TxIn)
    → SameUnit h m
    → AllFound m [] h inputs
    → spent_value (map spend_of inputs) m ≡ total_worth m [] h inputs
spent_value-inputs m h [] unit a = refl
spent_value-inputs m h (i ∷ inputs) unit ((w, found), a) =
    let one = worth_is_value m h i w unit found in
    rw found (omega (arith, one, spent_value-inputs m h inputs unit a))

-- Let the values in the set of unspent outputs be 64-bit numbers and its keys distinct. A
-- transaction that spends no outpoint twice, from outputs in the unit of its block and with no
-- earlier transaction in the block, and that pays below 2^64 in all, makes no value: if it is
-- accepted and the set takes it, then the value in the set, the fee and the locked escrow are
-- within what the set held and the bounty released.
pub check_spendable-total :
    (m : Utxos) (tx : Tx) (h release : ℕ) (after : Utxos)
    → All FitsRecord m
    → IsDistinct m
    → SameUnit h m
    → SpentOnce (tx_spends tx)
    → total_outputs tx.outputs + tx.fee + tx.escrow_lock < u64_mod
    → check_spendable m tx h [] release ≡ ok tt
    → apply_utxos (tx_spends tx) (tx_credits tx h) m ≡ some after
    → total_value after + tx.fee + tx.escrow_lock ≤ total_value m + release
unfolding tx_spends tx_credits
check_spendable-total m tx h release after fits distinct unit once small accepted applied =
    let funded = check_spendable-IsFunded m tx h [] release fits tt small accepted in
    let (sum, _) =
      apply_utxos-total (map spend_of tx.inputs) (credits_from tx.txid h 0 tx.outputs) m after
        distinct once (credits-CreditedOnce tx.txid h 0 tx.outputs) applied in
    let paid = credited_value-outputs tx.txid h 0 tx.outputs in
    let spent = spent_value-inputs m h tx.inputs unit funded.all_found in
    omega (arith, sum, paid, spent, funded.covered)
