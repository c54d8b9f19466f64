-- ===== src/Utxo/Keeps.antt =====
-- What holds of all records of the set, and of all credits, holds after an update.
use pi_secure.Prelude.{
  Bool-cases, Bytes, All, bytes_eq, ◌≡◌, subst, inl, inr, some, List, [], ◌∷◌, arith,
}
use pi_secure.Utxo.{
  UtxoRecord, Utxos, UtxoSpend, UtxoCredit, erase, put, erase_all, put_all, apply_utxos, spend_key,
  credit_key, credit_record, less,
}

module _ (P : Bytes × UtxoRecord → Type 0) where
  All-erase : (key : Bytes) (m : Utxos) → All P m → All P (erase key m)
  unfolding erase
  All-erase key [] all = tt
  All-erase key ((k, r) ∷ m) (one, all) =
      let ih = All-erase key m all in
      elim (Bool-cases (bytes_eq k key)) [ inl same ↦ rw same ih | inr other ↦ rw other (one, ih) ]

  All-put : (key : Bytes) (v : UtxoRecord) (m : Utxos) → P (key, v) → All P m → All P (put key v m)
  unfolding put
  All-put key v [] one all = (one, tt)
  All-put key v ((k, r) ∷ m) here (one, all) =
      let ih = All-put key v m here all in
      elim (Bool-cases (bytes_eq k key)) [
        | inl same ↦ rw same (here, all)
        | inr other ↦ elim (Bool-cases (less key k)) [
          | inl before ↦ rw (other, before) (here, (one, all))
          | inr after ↦ rw (other, after) (one, ih)
        ]
      ]

  All-erase_all : (spends : List UtxoSpend) (m : Utxos) → All P m → All P (erase_all spends m)
  unfolding erase_all
  All-erase_all [] m all = all
  All-erase_all (s ∷ spends) m all =
      All-erase_all spends (erase (spend_key s) m) (All-erase (spend_key s) m all)

  All-put_all :
      (credits : List UtxoCredit) (m : Utxos)
      → All (λ c. P (credit_key c, credit_record c)) credits
      → All P m
      → All P (put_all credits m)
  unfolding put_all
  All-put_all [] m new all = all
  All-put_all (c ∷ credits) m (one, new) all =
      All-put_all credits (put (credit_key c) (credit_record c) m) new
        (All-put (credit_key c) (credit_record c) m one all)

  pub All-apply_utxos :
      (spends : List UtxoSpend) (credits : List UtxoCredit) (m after : Utxos)
      → All (λ c. P (credit_key c, credit_record c)) credits
      → All P m
      → apply_utxos spends credits m ≡ some after
      → All P after
  unfolding apply_utxos
  All-apply_utxos spends credits m after new all h =
      let e : put_all credits (erase_all spends m) ≡ after = ground arith in
      subst (All P) e (All-put_all credits (erase_all spends m) new (All-erase_all spends m all))
