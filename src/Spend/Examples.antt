-- ===== src/Spend/Examples.antt =====
-- Instances of the theorems on spending: a coin of 5000 pi pays 4000, and is then named twice.
use pi_secure.Prelude.{
  replicate, Bytes, codes, bytes_eq, ok, ℕ, ◌+◌, ◌≤◌, ◌≡◌, refl, inr, some, List, [], ◌∷◌, arith,
}
use pi_secure.Amount.{to_decimal}
use pi_secure.Hex.{to_hex}
use pi_secure.Emission.{min_fee_for_height}
use pi_secure.Tx.{Tx, TxIn, TxOut, empty_tx}
use pi_secure.Utxo.Map.{IsDistinct, total_value}
use pi_secure.Utxo.Value.{SpentOnce}
use pi_secure.Utxo.{
  put, erase, put_all, erase_all, apply_utxos, Utxos, utxo_key, lookup, utxo_lookup,
}
use pi_secure.Spend.{
  tx_spends, tx_credits, check_spendable, worth_of, sum_inputs, sum_outputs, balance_ok,
  find_outpoint, spent_before, input_worth,
}
use pi_secure.Spend.Balance.{IsFunded, check_spendable-IsFunded}
use pi_secure.Spend.Conserve.{check_spendable-total}
use pi_secure.Spend.Unseen.{check_spendable-wraps, check_spendable-twice}

abbrev coin : Bytes
coin = replicate 32 7

abbrev unspent : Utxos
unspent = (utxo_key coin 0, record { value = 5000; address = codes "ps1a"; height = 3001 }) ∷ []

abbrev spend : TxIn
spend = record { prev = coin; vout = 0; signature_hex = []; public_key_hex = [] }

abbrev pay : ℕ → TxOut
pay value = record { value = value; address = codes "ps1b" }

abbrev payment : List TxIn → ℕ → Tx
payment inputs value = record empty_tx { fee = 314; inputs = inputs; outputs = pay value ∷ [] }

worth : worth_of unspent [] 3002 spend ≡ ok 5000
unfolding worth_of find_outpoint utxo_lookup lookup utxo_key bytes_eq to_hex to_decimal spent_before
    input_worth
worth = refl

accepted : check_spendable unspent (payment (spend ∷ []) 4000) 3002 [] 0 ≡ ok tt
unfolding check_spendable sum_inputs sum_outputs balance_ok worth_of find_outpoint utxo_lookup
    bytes_eq to_hex to_decimal lookup utxo_key spent_before input_worth min_fee_for_height
accepted = refl

payment-IsFunded : IsFunded unspent (payment (spend ∷ []) 4000) 3002 [] 0
payment-IsFunded =
    check_spendable-IsFunded unspent (payment (spend ∷ []) 4000) 3002 [] 0 (omega arith, tt) tt
      (omega arith) accepted

check_spendable-wraps_example :
    check_spendable unspent
      (record (payment (spend ∷ []) 4000) {
        outputs = pay 18_000_000_000_000_000_000 ∷ pay 446_744_073_709_551_616 ∷ pay 4000 ∷ [];
      })
      3002
      []
      0
    ≡ check_spendable unspent (payment (spend ∷ []) 4000) 3002 [] 0
check_spendable-wraps_example =
    check_spendable-wraps unspent (payment (spend ∷ []) 4000) (pay 18_000_000_000_000_000_000)
      (pay 446_744_073_709_551_616) 3002 [] 0 (omega arith)

enough_fee : min_fee_for_height 3002 ≤ 314
unfolding min_fee_for_height
enough_fee = omega arith

check_spendable-twice_example :
    check_spendable unspent (payment (spend ∷ spend ∷ []) 9000) 3002 [] 0 ≡ ok tt
check_spendable-twice_example =
    check_spendable-twice unspent (payment (spend ∷ spend ∷ []) 9000) spend 3002 [] 5000 refl refl
      enough_fee worth (omega arith) (omega arith)

abbrev left : Utxos
left =
    (utxo_key (replicate 32 0) 0, record { value = 4000; address = codes "ps1b"; height = 3002 })
    ∷ []

applied :
    apply_utxos
      (tx_spends (payment (spend ∷ []) 4000))
      (tx_credits (payment (spend ∷ []) 4000) 3002)
      unspent
    ≡ some left
unfolding apply_utxos put_all erase_all put erase lookup tx_spends tx_credits utxo_key bytes_eq
    to_hex to_decimal
applied = refl

unspent-IsDistinct : IsDistinct unspent
unfolding lookup
unspent-IsDistinct = (refl, tt)

once : SpentOnce (tx_spends (payment (spend ∷ []) 4000))
unfolding tx_spends
once = (refl, tt)

one_payment_total : total_value left + 314 + 0 ≤ total_value unspent + 0
one_payment_total =
    check_spendable-total unspent (payment (spend ∷ []) 4000) 3002 0 left (omega arith, tt)
      unspent-IsDistinct (inr (omega arith, tt)) once (omega arith) accepted applied
