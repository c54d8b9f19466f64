-- ===== src/Utxo/Value.antt =====
-- The value in the set changes by what is credited and what is spent.
use pi_secure.Prelude.{
  Option-cases, Bytes, bytes_eq, bytes_eq_iff, ℕ, ◌+◌, ◌≡◌, refl, ◌∙◌, inl, inr, Bool, false, ◌||◌,
  Option, none, some, List, [], ◌∷◌, arith,
}
use pi_secure.Utxo.{
  UtxoRecord, Utxos, UtxoSpend, UtxoCredit, lookup, erase, put, spend_key, credit_key,
  credit_record, erase_all, put_all, apply_utxos,
}
use pi_secure.Utxo.Map.{
  lookup-put, lookup-erase, IsDistinct, erase-IsDistinct, put-IsDistinct, total_value,
  total_value-erase, total_value-put,
}
use pi_secure.Utxo.Apply.{is_spent, AllUnspent, AllNew, apply_utxos_defined}

abbrev pub value_or_zero : Option UtxoRecord → ℕ
value_or_zero none = 0
value_or_zero (some r) = r.value

abbrev pub spent_value : List UtxoSpend → Utxos → ℕ
spent_value [] m = 0
spent_value (s ∷ spends) m = value_or_zero (lookup (spend_key s) m) + spent_value spends m

abbrev pub credited_value : List UtxoCredit → ℕ
credited_value [] = 0
credited_value (c ∷ credits) = c.value + credited_value credits

abbrev pub is_credited : Bytes → List UtxoCredit → Bool
is_credited key [] = false
is_credited key (c ∷ credits) = bytes_eq (credit_key c) key || is_credited key credits

-- No outpoint is spent twice, and none is credited twice.
abbrev pub SpentOnce : List UtxoSpend → Type 0
SpentOnce [] = Unit
SpentOnce (s ∷ spends) = (is_spent (spend_key s) spends ≡ false) × SpentOnce spends

abbrev pub CreditedOnce : List UtxoCredit → Type 0
CreditedOnce [] = Unit
CreditedOnce (c ∷ credits) = (is_credited (credit_key c) credits ≡ false) × CreditedOnce credits

spent_value-erase :
    (k : Bytes) (spends : List UtxoSpend) (m : Utxos)
    → is_spent k spends ≡ false
    → AllUnspent spends m
    → (spent_value spends (erase k m) ≡ spent_value spends m) × AllUnspent spends (erase k m)
spent_value-erase k [] m apart there = (refl, tt)
spent_value-erase k (s ∷ spends) m apart (one, there) =
    let (ih, kept) = spent_value-erase k spends m (ground arith) there in
    let other : bytes_eq k (spend_key s) ≡ false =
      ground (arith, bytes_eq_iff k (spend_key s), bytes_eq_iff (spend_key s) k) in
    let same : lookup (spend_key s) (erase k m) ≡ lookup (spend_key s) m =
      lookup-erase (spend_key s) k m ∙ (rw other) in
    (rw (same, ih), (rw same one, kept))

erase_all-total :
    (spends : List UtxoSpend) (m : Utxos)
    → IsDistinct m
    → SpentOnce spends
    → AllUnspent spends m
    → (total_value (erase_all spends m) + spent_value spends m ≡ total_value m)
      × IsDistinct (erase_all spends m)
unfolding erase_all
erase_all-total [] m d once there = (omega arith, d)
erase_all-total (s ∷ spends) m d (apart, once) (one, there) =
    let (same, kept) = spent_value-erase (spend_key s) spends m apart there in
    let (ih, dd) =
      erase_all-total spends (erase (spend_key s) m) (erase-IsDistinct (spend_key s) m d) once
        kept in
    elim (Option-cases (lookup (spend_key s) m)) [
      | inl e ↦ absurd (one e)
      | inr (r, e) ↦
          let less = total_value-erase (spend_key s) m r d e in
          (rw e (omega (arith, ih, same, less)), dd)
    ]

AllNew-put :
    (k : Bytes) (v : UtxoRecord) (credits : List UtxoCredit) (m : Utxos)
    → is_credited k credits ≡ false
    → AllNew credits m
    → AllNew credits (put k v m)
AllNew-put k v [] m apart new = tt
AllNew-put k v (c ∷ credits) m apart (one, new) =
    let ih = AllNew-put k v credits m (ground arith) new in
    let other : bytes_eq k (credit_key c) ≡ false =
      ground (arith, bytes_eq_iff k (credit_key c), bytes_eq_iff (credit_key c) k) in
    (lookup-put (credit_key c) k v m ∙ (rw other one), ih)

put_all-total :
    (credits : List UtxoCredit) (m : Utxos)
    → IsDistinct m
    → CreditedOnce credits
    → AllNew credits m
    → (total_value (put_all credits m) ≡ total_value m + credited_value credits)
      × IsDistinct (put_all credits m)
unfolding put_all
put_all-total [] m d once new = (omega arith, d)
put_all-total (c ∷ credits) m d (apart, once) (one, new) =
    let k = credit_key c in
    let v = credit_record c in
    let (ih, dd) =
      put_all-total credits (put k v m) (put-IsDistinct k v m one d) once
        (AllNew-put k v credits m apart new) in
    (omega (arith, ih, total_value-put k v m one), dd)

AllNew-erase :
    (k : Bytes) (credits : List UtxoCredit) (m : Utxos)
    → AllNew credits m
    → AllNew credits (erase k m)
AllNew-erase k [] m new = tt
AllNew-erase k (c ∷ credits) m (one, new) =
    (lookup-erase (credit_key c) k m ∙ ground arith, AllNew-erase k credits m new)

AllNew-erase_all :
    (spends : List UtxoSpend) (credits : List UtxoCredit) (m : Utxos)
    → AllNew credits m
    → AllNew credits (erase_all spends m)
unfolding erase_all
AllNew-erase_all [] credits m new = new
AllNew-erase_all (s ∷ spends) credits m new =
    AllNew-erase_all spends credits (erase (spend_key s) m)
      (AllNew-erase (spend_key s) credits m new)

-- In a set with distinct keys, an update that succeeds and spends no outpoint twice and credits
-- none twice conserves value: the set holds what it held and what was credited, less what was
-- spent; and its keys stay distinct.
pub apply_utxos-total :
    (spends : List UtxoSpend) (credits : List UtxoCredit) (m after : Utxos)
    → IsDistinct m
    → SpentOnce spends
    → CreditedOnce credits
    → apply_utxos spends credits m ≡ some after
    → (total_value after + spent_value spends m ≡ total_value m + credited_value credits)
      × IsDistinct after
unfolding apply_utxos
apply_utxos-total spends credits m after d once once' h =
    let (there, new) = (apply_utxos_defined spends credits m).0 (λ e. cc) in
    let (out, d1) = erase_all-total spends m d once there in
    let (in', d2) =
      put_all-total credits (erase_all spends m) d1 once' (AllNew-erase_all spends credits m new) in
    let e : put_all credits (erase_all spends m) ≡ after = ground arith in
    rw (← e) (omega (arith, out, in'), d2)
