-- ===== src/Utxo/Map.antt =====
-- The laws of the map.
use pi_secure.Prelude.{
  refl, Bool-cases, inl, inr, if◌then◌else◌, Bool-cases, Bytes, bytes_eq, bytes_eq_iff, ℕ, ◌+◌, ◌≡◌,
  refl, inl, inr, false, none, some, [], ◌∷◌, arith,
}
use pi_secure.Utxo.{UtxoRecord, Utxos, lookup, erase, put, less}

pub lookup-put :
    (j k : Bytes) (v : UtxoRecord) (m : Utxos)
    → lookup j (put k v m) ≡ (if bytes_eq k j then some v else lookup j m)
unfolding lookup put
lookup-put j k v [] = refl
lookup-put j k v ((i, r) ∷ m) =
    ground (arith, lookup-put j k v m, bytes_eq_iff i k, bytes_eq_iff k j, bytes_eq_iff i j)

pub lookup-erase :
    (j k : Bytes) (m : Utxos) → lookup j (erase k m) ≡ (if bytes_eq k j then none else lookup j m)
unfolding lookup erase
lookup-erase j k [] = ground arith
lookup-erase j k ((i, r) ∷ m) =
    ground (arith, lookup-erase j k m, bytes_eq_iff i k, bytes_eq_iff k j, bytes_eq_iff i j)

-- No key stands twice.
abbrev pub IsDistinct : Utxos → Type 0
IsDistinct [] = Unit
IsDistinct ((k, r) ∷ m) = (lookup k m ≡ none) × IsDistinct m

pub erase-IsDistinct : (k : Bytes) (m : Utxos) → IsDistinct m → IsDistinct (erase k m)
unfolding erase
erase-IsDistinct k [] d = tt
erase-IsDistinct k ((i, r) ∷ m) (fresh, d) = elim (Bool-cases (bytes_eq i k)) [
  | inl same ↦ rw same (erase-IsDistinct k m d)
  | inr other ↦ rw other (ground (arith, lookup-erase i k m), erase-IsDistinct k m d)
]

pub put-IsDistinct :
    (k : Bytes) (v : UtxoRecord) (m : Utxos)
    → lookup k m ≡ none
    → IsDistinct m
    → IsDistinct (put k v m)
unfolding put lookup
put-IsDistinct k v [] new d = (refl, tt)
put-IsDistinct k v ((i, r) ∷ m) new (fresh, d) =
    let other : bytes_eq i k ≡ false = ground arith in
    let absent : lookup k m ≡ none = ground arith in
    let kept : lookup i (put k v m) ≡ none =
      ground (arith, lookup-put i k v m, bytes_eq_iff k i, bytes_eq_iff i k) in
    let ih = put-IsDistinct k v m absent d in
    elim (Bool-cases (less k i)) [
      | inl before ↦ rw (other, before) (new, (fresh, d))
      | inr after ↦ rw (other, after) (kept, ih)
    ]

abbrev pub total_value : Utxos → ℕ
total_value [] = 0
total_value ((k, r) ∷ m) = r.value + total_value m

erase-fresh : (k : Bytes) (m : Utxos) → lookup k m ≡ none → erase k m ≡ m
unfolding lookup erase
erase-fresh k [] h = refl
erase-fresh k ((i, r) ∷ m) h = ground (arith, erase-fresh k m)

pub total_value-erase :
    (k : Bytes) (m : Utxos) (r : UtxoRecord)
    → IsDistinct m
    → lookup k m ≡ some r
    → total_value (erase k m) + r.value ≡ total_value m
unfolding lookup erase
total_value-erase k [] r d h = cc
total_value-erase k ((i, s) ∷ m) r (fresh, d) h = elim (Bool-cases (bytes_eq i k)) [
  | inl same ↦
      let e = (bytes_eq_iff i k).0 same in
      let gone : erase k m ≡ m = erase-fresh k m (rw (← e) fresh) in
      let value : s ≡ r = ground arith in rw (same, gone, value) (omega arith)
  | inr other ↦
      let rest : lookup k m ≡ some r = ground arith in
      rw other (omega (arith, total_value-erase k m r d rest))
]

pub total_value-put :
    (k : Bytes) (v : UtxoRecord) (m : Utxos)
    → lookup k m ≡ none
    → total_value (put k v m) ≡ total_value m + v.value
unfolding lookup put
total_value-put k v [] h = omega arith
total_value-put k v ((i, s) ∷ m) h =
    let other : bytes_eq i k ≡ false = ground arith in
    let absent : lookup k m ≡ none = ground arith in
    let ih = total_value-put k v m absent in
    elim (Bool-cases (less k i)) [
      | inl before ↦ rw (other, before) (omega arith)
      | inr after ↦ rw (other, after) (omega (arith, ih))
    ]
