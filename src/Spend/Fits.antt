-- ===== src/Spend/Fits.antt =====
-- Updates keep the set as the theorems on value want it.
use pi_secure.Prelude.{
  Bytes, u64_mod, All, ℕ, ◌+◌, ◌≤◌, ◌<◌, ◌≡◌, inl, inr, some, List, [], ◌∷◌, arith, dec_lt,
}
use pi_secure.Tx.{Tx, TxOut}
use pi_secure.Utxo.{Utxos, apply_utxos, credit_key, credit_record}
use pi_secure.Utxo.Map.{IsDistinct}
use pi_secure.Utxo.Keeps.{All-apply_utxos}
use pi_secure.Utxo.Value.{SpentOnce, apply_utxos-total}
use pi_secure.Spend.{tx_spends, tx_credits, credits_from}
use pi_secure.Spend.Funds.{FitsRecord, total_outputs}
use pi_secure.Spend.Conserve.{SameUnit, credits-CreditedOnce}

-- The set: 64-bit values, distinct keys, and records in the unit of the block.
pub record IsUtxoSet (h : ℕ) (m : Utxos) : Type 0 where
  pub fits : All FitsRecord m
  pub distinct : IsDistinct m
  pub unit : SameUnit h m

credits_fit :
    (txid : Bytes) (h start : ℕ) (outputs : List TxOut)
    → total_outputs outputs < u64_mod
    → All (λ c. FitsRecord (credit_key c, credit_record c)) (credits_from txid h start outputs)
unfolding credits_from
credits_fit txid h start [] small = tt
credits_fit txid h start (o ∷ outputs) small =
    (omega arith, credits_fit txid h (start + 1) outputs (omega arith))

credits_new :
    (txid : Bytes) (h start : ℕ) (outputs : List TxOut)
    → 3000 ≤ h
    → All (λ c. 3000 ≤ (credit_record c).height) (credits_from txid h start outputs)
unfolding credits_from
credits_new txid h start [] late = tt
credits_new txid h start (o ∷ outputs) late = (late, credits_new txid h (start + 1) outputs late)

pub apply_tx-IsUtxoSet :
    (h : ℕ) (tx : Tx) (m after : Utxos)
    → IsUtxoSet h m
    → SpentOnce (tx_spends tx)
    → total_outputs tx.outputs < u64_mod
    → apply_utxos (tx_spends tx) (tx_credits tx h) m ≡ some after
    → IsUtxoSet h after
unfolding tx_credits
apply_tx-IsUtxoSet h tx m after s once small applied =
    let credits = credits_from tx.txid h 0 tx.outputs in
    record {
      fits =
          All-apply_utxos FitsRecord (tx_spends tx) credits m after
            (credits_fit tx.txid h 0 tx.outputs small) s.fits applied;
      distinct =
          (apply_utxos-total (tx_spends tx) credits m after s.distinct once
            (credits-CreditedOnce tx.txid h 0 tx.outputs) applied).1;
      unit = elim (dec_lt h 3000) [
        | yes early ↦ inl early
        | no late ↦ elim s.unit [
          | inl early ↦ inl early
          | inr new ↦ inr (
              All-apply_utxos (λ e. 3000 ≤ e.1.height) (tx_spends tx) credits m after
                (credits_new tx.txid h 0 tx.outputs (omega arith)) new applied)
        ]
      ];
    }
