-- ===== src/Spend/Funds.antt =====
-- The sums of `check_spendable`.
use pi_secure.Prelude.{
  All, Option-cases, some, get_elem?, bytes_eq, Bytes, zero, suc, ltb, Bool-cases, u64_mod, u64_max,
  Result-cases, Result, ok, err, add64, ℕ, ◌+◌, ◌-◌, ◌<◌, ◌≡◌, inl, inr, List, [], ◌∷◌, arith,
}
use pi_secure.Tx.{TxIn, TxOut, Tx}
use pi_secure.Utxo.{Utxos, UtxoRecord, lookup, utxo_lookup, utxo_key}
use pi_secure.Spend.{
  worth_of, add_checked, sum_inputs, sum_outputs, Found, find_prior, find_outpoint, input_worth,
}

-- The exact sums.
abbrev pub total_outputs : List TxOut → ℕ
total_outputs [] = 0
total_outputs (o ∷ outputs) = o.value + total_outputs outputs

abbrev pub ok_or_zero : Result ℕ → ℕ
ok_or_zero (ok w) = w
ok_or_zero (err e) = 0

abbrev pub total_worth : Utxos → List Tx → ℕ → List TxIn → ℕ
total_worth m prior h [] = 0
total_worth m prior h (i ∷ inputs) =
    ok_or_zero (worth_of m prior h i) + total_worth m prior h inputs

-- Every input has a worth.
abbrev pub AllFound : Utxos → List Tx → ℕ → List TxIn → Type 0
AllFound m prior h [] = Unit
AllFound m prior h (i ∷ inputs) =
    ((w : ℕ) × (worth_of m prior h i ≡ ok w)) × AllFound m prior h inputs

-- The values are those of 64-bit fields.
abbrev pub FitsRecord : Bytes × UtxoRecord → Type 0
FitsRecord (k, r) = r.value < u64_mod

abbrev pub FitsValue : TxOut → Type 0
FitsValue o = o.value < u64_mod

abbrev pub FitsOutputs : Tx → Type 0
FitsOutputs tx = All FitsValue tx.outputs

lookup_fits :
    (key : Bytes) (m : Utxos) (r : UtxoRecord)
    → All FitsRecord m
    → lookup key m ≡ some r
    → r.value < u64_mod
unfolding lookup
lookup_fits key [] r a h = cc
lookup_fits key ((k, s) ∷ m) r (a, rest_fit) h = elim (Bool-cases (bytes_eq k key)) [
  | inl e ↦ let same : s ≡ r = ground arith in rw (← same) a
  | inr e ↦ lookup_fits key m r rest_fit (ground arith)
]

output_fits :
    (outputs : List TxOut) (i : ℕ) (o : TxOut)
    → All FitsValue outputs
    → get_elem? outputs i ≡ some o
    → o.value < u64_mod
output_fits [] i o a h = cc
output_fits (x ∷ outputs) zero o (a, rest_fit) h = let same : x ≡ o = ground arith in rw (← same) a
output_fits (x ∷ outputs) (suc i) o (a, rest_fit) h = output_fits outputs i o rest_fit h

prior_fits :
    (prev : Bytes) (vout h : ℕ) (prior : List Tx) (f : Found)
    → All FitsOutputs prior
    → find_prior prev vout h prior ≡ some f
    → f.value < u64_mod
unfolding find_prior
prior_fits prev vout h [] f a e = cc
prior_fits prev vout h (tx ∷ prior) f (a, rest_fit) e = elim (Bool-cases (bytes_eq tx.txid prev)) [
  | inr other ↦ prior_fits prev vout h prior f rest_fit (ground arith)
  | inl same ↦ elim (Option-cases (get_elem? tx.outputs vout)) [
    | inl missing ↦ prior_fits prev vout h prior f rest_fit (ground arith)
    | inr (o, there) ↦
        let value : o.value ≡ f.value = ground arith in
        rw (← value) (output_fits tx.outputs vout o a there)
  ]
]

found_fits :
    (m : Utxos) (prior : List Tx) (h : ℕ) (prev : Bytes) (vout : ℕ) (f : Found)
    → All FitsRecord m
    → All FitsOutputs prior
    → find_outpoint m prior h prev vout ≡ some f
    → f.value < u64_mod
unfolding find_outpoint utxo_lookup
found_fits m prior h prev vout f a rest_fit e =
    elim (Option-cases (lookup (utxo_key prev vout) m)) [
      | inl missing ↦ prior_fits prev vout h prior f rest_fit (ground arith)
      | inr (r, there) ↦
          let value : r.value ≡ f.value = ground arith in
          rw (← value) (lookup_fits (utxo_key prev vout) m r a there)
    ]

worth_fits :
    (h : ℕ) (f : Found) (w : ℕ) → f.value < u64_mod → input_worth h f ≡ some w → w < u64_mod
unfolding input_worth
worth_fits h f w small e = ground arith

pub worth_of_fits :
    (m : Utxos) (prior : List Tx) (h : ℕ) (i : TxIn) (w : ℕ)
    → All FitsRecord m
    → All FitsOutputs prior
    → worth_of m prior h i ≡ ok w
    → w < u64_mod
unfolding worth_of
worth_of_fits m prior h i w a rest_fit e =
    elim (Option-cases (find_outpoint m prior h i.prev i.vout)) [
      | inl missing ↦ ground arith
      | inr (f, there) ↦ elim (Option-cases (input_worth h f)) [
        | inl over ↦ ground arith
        | inr (v, is_worth) ↦
            let same : v ≡ w = ground arith in
            rw (← same)
              (worth_fits h f v (found_fits m prior h i.prev i.vout f a rest_fit there) is_worth)
      ]
    ]

pub sum_inputs_sound :
    (m : Utxos) (prior : List Tx) (h : ℕ) (inputs : List TxIn) (acc r : ℕ)
    → All FitsRecord m
    → All FitsOutputs prior
    → acc < u64_mod
    → sum_inputs m prior h inputs acc ≡ ok r
    → (r ≡ acc + total_worth m prior h inputs) × (r < u64_mod) × AllFound m prior h inputs
unfolding sum_inputs add_checked
sum_inputs_sound m prior h [] acc r a rest_fit small e =
    let same : acc ≡ r = ground arith in (omega arith, omega arith, tt)
sum_inputs_sound m prior h (i ∷ inputs) acc r a rest_fit small e =
    elim (Result-cases (worth_of m prior h i)) [
      | inr (reason, fail) ↦ ground arith
      | inl (w, found) ↦ elim (Bool-cases (ltb (u64_max - w) acc)) [
        | inl over ↦ ground arith
        | inr fits ↦
            let bound = worth_of_fits m prior h i w a rest_fit found in
            let room : acc + w < u64_mod = ground arith in
            let sum : add64 acc w ≡ acc + w = omega arith in
            let rest : sum_inputs m prior h inputs (add64 acc w) ≡ ok r = ground arith in
            let (exact, below, all) =
              sum_inputs_sound m prior h inputs (add64 acc w) r a rest_fit (omega arith) rest in
            (rw found (omega (arith, exact, sum)), below, ((w, found), all))
      ]
    ]

pub sum_outputs_exact :
    (outputs : List TxOut) (acc : ℕ)
    → acc + total_outputs outputs < u64_mod
    → sum_outputs outputs acc ≡ acc + total_outputs outputs
unfolding sum_outputs
sum_outputs_exact [] acc fits = omega arith
sum_outputs_exact (o ∷ outputs) acc fits =
    let sum : add64 acc o.value ≡ acc + o.value = omega arith in
    omega (arith, sum_outputs_exact outputs (add64 acc o.value) (omega (arith, sum)), sum)
