-- ===== src/Utxo/Apply.antt =====
-- `apply_utxos` as a change of a finite map: it happens whole or not at all.
use pi_secure.Prelude.{
  ◌∙◌, ap, Bool-cases, if◌then◌else◌, Bool-cases, Option-cases, Bytes, bytes_eq, ◌≡◌, refl, ap, ◌∙◌,
  ◌≢◌, ◌↔◌, inl, inr, Bool, true, false, ◌||◌, Option, none, some, List, [], ◌∷◌, arith,
}
use pi_secure.Utxo.{
  UtxoRecord, Utxos, UtxoSpend, UtxoCredit, lookup, erase, put, is_present, spend_key, credit_key,
  credit_record, all_present, none_present, erase_all, put_all, apply_utxos,
}
use pi_secure.Utxo.Map.{lookup-put, lookup-erase}

-- Whether a key is among the spends.
abbrev pub is_spent : Bytes → List UtxoSpend → Bool
is_spent key [] = false
is_spent key (s ∷ spends) = bytes_eq (spend_key s) key || is_spent key spends

-- The last credit to a key, if there is one.
abbrev pub credited : Bytes → List UtxoCredit → Option UtxoRecord
credited key [] = none
credited key (c ∷ credits) = elim (credited key credits) [
  | some r ↦ some r
  | none ↦ if bytes_eq (credit_key c) key then some (credit_record c) else none
]

abbrev pub or_else : Option UtxoRecord → Option UtxoRecord → Option UtxoRecord
or_else none o = o
or_else (some r) o = some r

lookup-erase_all :
    (key : Bytes) (spends : List UtxoSpend) (m : Utxos)
    → lookup key (erase_all spends m) ≡ (if is_spent key spends then none else lookup key m)
unfolding erase_all
lookup-erase_all key [] m = refl
lookup-erase_all key (s ∷ spends) m =
    ground
      (arith, lookup-erase_all key spends (erase (spend_key s) m), lookup-erase key (spend_key s) m)

lookup-put_all :
    (key : Bytes) (credits : List UtxoCredit) (m : Utxos)
    → lookup key (put_all credits m) ≡ or_else (credited key credits) (lookup key m)
unfolding put_all
lookup-put_all key [] m = refl
lookup-put_all key (c ∷ credits) m = ground (
  arith,
  lookup-put_all key credits (put (credit_key c) (credit_record c) m),
  lookup-put key (credit_key c) (credit_record c) m,
)

-- The two conditions that the source tests before it changes anything.
abbrev pub AllUnspent : List UtxoSpend → Utxos → Type 0
AllUnspent [] m = Unit
AllUnspent (s ∷ spends) m = (lookup (spend_key s) m ≢ none) × AllUnspent spends m

abbrev pub AllNew : List UtxoCredit → Utxos → Type 0
AllNew [] m = Unit
AllNew (c ∷ credits) m = (lookup (credit_key c) m ≡ none) × AllNew credits m

all_present_iff :
    (spends : List UtxoSpend) (m : Utxos) → (all_present spends m ≡ true) ↔ AllUnspent spends m
unfolding all_present is_present
all_present_iff [] m = (λ h. tt, λ h. refl)
all_present_iff (s ∷ spends) m =
    let ih = all_present_iff spends m in
    elim (Option-cases (lookup (spend_key s) m)) [
      | inl e ↦ (λ h. ground arith, λ (u, us). absurd (u e))
      | inr (r, e) ↦
          (λ h. (λ n. cc, ih.0 (ground arith)), λ (u, us). let i = ih.1 us in ground arith)
    ]

none_present_iff :
    (credits : List UtxoCredit) (m : Utxos) → (none_present credits m ≡ true) ↔ AllNew credits m
unfolding none_present is_present
none_present_iff [] m = (λ h. tt, λ h. refl)
none_present_iff (c ∷ credits) m =
    let ih = none_present_iff credits m in
    elim (Option-cases (lookup (credit_key c) m)) [
      | inl e ↦ (λ h. (e, ih.0 (ground arith)), λ (n, ns). let i = ih.1 ns in ground arith)
      | inr (r, e) ↦ (λ h. ground arith, λ (n, ns). cc)
    ]

-- The update succeeds exactly when every spend is in the set and no credit is, both before it.
pub apply_utxos_defined :
    (spends : List UtxoSpend) (credits : List UtxoCredit) (m : Utxos)
    → (apply_utxos spends credits m ≢ none) ↔ (AllUnspent spends m × AllNew credits m)
unfolding apply_utxos
apply_utxos_defined spends credits m =
    let u = all_present_iff spends m in
    let n = none_present_iff credits m in
    elim (Bool-cases (all_present spends m)) [
      | inr missing ↦ (λ h. absurd (h (ground arith)), λ (us, ns). let i = u.1 us in cc)
      | inl there ↦ elim (Bool-cases (none_present credits m)) [
        | inr clash ↦ (λ h. absurd (h (ground arith)), λ (us, ns). let i = n.1 ns in cc)
        | inl new ↦ (λ h. (u.0 there, n.0 new), λ both e. ground arith)
      ]
    ]

-- After an update that succeeded an outpoint holds the last credit to it; else nothing if it was
-- spent; else what it held.
pub lookup-apply_utxos :
    (spends : List UtxoSpend) (credits : List UtxoCredit) (m after : Utxos) (key : Bytes)
    → apply_utxos spends credits m ≡ some after
    → lookup key after
      ≡ or_else (credited key credits) (if is_spent key spends then none else lookup key m)
unfolding apply_utxos
lookup-apply_utxos spends credits m after key h =
    let e : put_all credits (erase_all spends m) ≡ after = ground arith in
    rw (← e) (
      lookup-put_all key credits (erase_all spends m)
      ∙ ap (or_else (credited key credits)) (lookup-erase_all key spends m))
