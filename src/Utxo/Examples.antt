-- ===== src/Utxo/Examples.antt =====
-- An instance of each theorem on the set of unspent outputs: one output is spent for two new ones.
use pi_secure.Prelude.{
  bytes_eq, if◌then◌else◌, replicate, Bytes, codes, All, IsByte, ℕ, zero, suc, ◌+◌, ◌≡◌, refl, none,
  some, List, [], ◌∷◌, arith,
}
use pi_secure.Amount.{to_decimal}
use pi_secure.Hex.{to_hex}
use pi_secure.Hex.RoundTrip.{IsHash}
use pi_secure.Utxo.{
  Utxos, UtxoSpend, UtxoCredit, utxo_key, lookup, put, erase, put_all, erase_all, apply_utxos,
}
use pi_secure.Utxo.Key.{utxo_key-injective}
use pi_secure.Utxo.Map.{IsDistinct, total_value}
use pi_secure.Utxo.Apply.{is_spent, credited, or_else, lookup-apply_utxos}
use pi_secure.Utxo.Value.{spent_value, credited_value, CreditedOnce, apply_utxos-total}

abbrev coin : Bytes
coin = replicate 32 7

abbrev paid : Bytes
paid = replicate 32 9

abbrev before : Utxos
before =
    (utxo_key coin 0, record { value = 5000; address = codes "ps1a"; height = 3001 })
    ∷ (utxo_key coin 1, record { value = 70; address = codes "ps1b"; height = 3001 })
    ∷ []

abbrev spends : List UtxoSpend
spends = record { txid = coin; vout = 0 } ∷ []

abbrev credits : List UtxoCredit
credits =
    record { txid = paid; vout = 0; value = 4000; address = codes "ps1c"; height = 3002 }
    ∷ record { txid = paid; vout = 1; value = 686; address = codes "ps1a"; height = 3002 }
    ∷ []

abbrev after : Utxos
after =
    (utxo_key coin 1, record { value = 70; address = codes "ps1b"; height = 3001 })
    ∷ (utxo_key paid 0, record { value = 4000; address = codes "ps1c"; height = 3002 })
    ∷ (utxo_key paid 1, record { value = 686; address = codes "ps1a"; height = 3002 })
    ∷ []

applied : apply_utxos spends credits before ≡ some after
unfolding apply_utxos put_all erase_all lookup put erase utxo_key bytes_eq to_hex to_decimal
applied = refl

replicate-IsByte : (n : ℕ) → All IsByte (replicate n 7)
replicate-IsByte zero = tt
replicate-IsByte (suc n) = (omega arith, replicate-IsByte n)

coin-IsHash : IsHash coin
coin-IsHash = (refl, replicate-IsByte 32)

keys_apart : (coin ≡ coin) × (Path ℕ 1 1)
keys_apart = utxo_key-injective coin coin 1 1 coin-IsHash coin-IsHash refl

lookup-apply_utxos_example :
    lookup (utxo_key coin 0) after
    ≡ or_else
        (credited (utxo_key coin 0) credits)
        (if is_spent (utxo_key coin 0) spends then none else lookup (utxo_key coin 0) before)
lookup-apply_utxos_example =
    lookup-apply_utxos spends credits before after (utxo_key coin 0) applied

before-IsDistinct : IsDistinct before
unfolding lookup utxo_key bytes_eq to_hex to_decimal
before-IsDistinct = (refl, (refl, tt))

credits-CreditedOnce : CreditedOnce credits
unfolding utxo_key bytes_eq to_hex to_decimal
credits-CreditedOnce = (refl, (refl, tt))

apply_utxos-total_example :
    (total_value after + spent_value spends before ≡ total_value before + credited_value credits)
    × IsDistinct after
apply_utxos-total_example =
    apply_utxos-total spends credits before after before-IsDistinct (refl, tt) credits-CreditedOnce
      applied
