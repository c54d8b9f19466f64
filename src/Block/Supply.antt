-- ===== src/Block/Supply.antt =====
-- The value in the set of unspent outputs over the transactions of a block.
use pi_secure.Prelude.{
  set, u64_mod, All, All-append, Result-cases, ok, err, ℕ, ◌+◌, ◌≤◌, ◌<◌, ◌≡◌, refl, sym, ap, subst,
  inl, inr, Bool, some, List, [], ◌∷◌, ◌++◌, arith,
}
use pi_secure.Tx.{Tx}
use pi_secure.Utxo.{Utxos, apply_utxos}
use pi_secure.Utxo.Map.{total_value}
use pi_secure.Utxo.Value.{SpentOnce}
use pi_secure.Flags.{Flag}
use pi_secure.Spend.{check_spendable, tx_spends, tx_credits}
use pi_secure.Spend.Funds.{total_outputs}
use pi_secure.Spend.Conserve.{check_spendable-total}
use pi_secure.Spend.Fits.{IsUtxoSet, apply_tx-IsUtxoSet}
use pi_secure.Spend.Sequential.{HasHashes, Applied, check_spendable-Applied}
use pi_secure.Block.{Outside, check_tx, check_txs, claim_release}

-- A transaction of the block: the ids are 32 bytes, no outpoint is spent twice, and what it pays is
-- below 2^64 in all.
pub record IsSound (tx : Tx) : Type 0 where
  pub hashes : HasHashes tx
  pub once : SpentOnce (tx_spends tx)
  pub small : total_outputs tx.outputs + tx.fee + tx.escrow_lock < u64_mod

-- What the transactions pay into fees and escrow.
abbrev pub total_paid : List Tx → ℕ
total_paid [] = 0
total_paid (tx ∷ txs) = tx.fee + tx.escrow_lock + total_paid txs

-- What the flags release to the claims, each with the flags as they stand before it.
unfoldable pub total_released : Outside → Utxos → ℕ → Bool → List Tx → List Flag → List Tx → ℕ
total_released c m h local prior book [] = 0
total_released c m h local prior book (tx ∷ txs) =
    claim_release tx book prior + elim (check_tx c m h local prior book tx) [
      | err reason ↦ 0
      | ok staged ↦ total_released c m h local (prior ++ (tx ∷ [])) staged txs
    ]

check_tx_spendable :
    (c : Outside) (m : Utxos) (h : ℕ) (local : Bool) (prior : List Tx) (book staged : List Flag)
    (tx : Tx)
    → check_tx c m h local prior book tx ≡ ok staged
    → check_spendable m tx h prior (claim_release tx book prior) ≡ ok tt
unfolding check_tx
check_tx_spendable c m h local prior book staged tx e = ground arith

Applied-append :
    (h : ℕ) (prior : List Tx) (tx : Tx) (m now next : Utxos)
    → Applied h prior m now
    → apply_utxos (tx_spends tx) (tx_credits tx h) now ≡ some next
    → Applied h (prior ++ (tx ∷ [])) m next
Applied-append h [] tx m now next e step = (
  next,
  (subst (λ k. apply_utxos (tx_spends tx) (tx_credits tx h) k ≡ some next) (sym e) step, refl),
)
Applied-append h (p ∷ prior) tx m now next (k, (one, rest)) step =
    (k, (one, Applied-append h prior tx k now next rest step))

-- Every update of the block succeeds, and the set comes out as `after`.
block_total :
    (c : Outside) (m now after : Utxos) (h : ℕ) (local : Bool) (prior : List Tx)
    (book staged : List Flag) (txs : List Tx)
    → IsUtxoSet h now
    → All HasHashes prior
    → Applied h prior m now
    → All IsSound txs
    → Applied h txs now after
    → check_txs c m h local prior book txs ≡ ok staged
    → total_value after + total_paid txs
      ≤ total_value now + total_released c m h local prior book txs
unfolding check_txs total_released
block_total c m now after h local prior book staged [] set hashes before sound same e =
    omega (arith, ap total_value same)
block_total c m now after h local prior book staged (tx ∷ txs) set hashes before (one, sound)
      (next, (step, rest)) e =
    elim (Result-cases (check_tx c m h local prior book tx)) [
      | inr (reason, fail) ↦ ground arith
      | inl (flags, checked) ↦
          let release = claim_release tx book prior in
          let (spendable, _) =
            check_spendable-Applied prior h m now tx release hashes one.hashes.1 before
              (check_tx_spendable c m h local prior book flags tx checked) in
          let made =
            check_spendable-total now tx h release next set.fits set.distinct set.unit one.once
              one.small spendable step in
          let kept =
            apply_tx-IsUtxoSet h tx now next set one.once (omega (arith, one.small)) step in
          let ih =
            block_total c m next after h local (prior ++ (tx ∷ [])) flags staged txs kept
              (All-append HasHashes prior (tx ∷ []) hashes (one.hashes, tt))
              (Applied-append h prior tx m now next before step) sound rest (rw checked at e) in
          rw checked (omega (arith, made, ih))
    ]

-- A block of transactions that are accepted makes no value. The ids are 32 bytes, no transaction
-- names an outpoint twice or pays 2^64 or more, and every update succeeds. `now` is the set with the
-- coinbase in it: of 64-bit values under distinct keys and in the unit of the block. Then the
-- set after the block, the fees and what is locked in flags are within `now` and what the flags
-- release to the claims, although each transaction was checked against the set before the block.
pub check_txs-total :
    (c : Outside) (m now after : Utxos) (h : ℕ) (local : Bool) (cb : Tx) (book staged : List Flag)
    (txs : List Tx)
    → IsUtxoSet h now
    → HasHashes cb
    → Applied h (cb ∷ []) m now
    → All IsSound txs
    → Applied h txs now after
    → check_txs c m h local (cb ∷ []) book txs ≡ ok staged
    → total_value after + total_paid txs
      ≤ total_value now + total_released c m h local (cb ∷ []) book txs
check_txs-total c m now after h local cb book staged txs set hashes before sound rest e =
    block_total c m now after h local (cb ∷ []) book staged txs set (hashes, tt) before sound rest e
