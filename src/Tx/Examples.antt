-- ===== src/Tx/Examples.antt =====
-- The canonical bytes of a small transaction, and an instance of their theorem.
use pi_secure.Prelude.{if◌then◌else◌, replicate, Bytes, codes, ◌≡◌, refl, [], ◌∷◌, ◌++◌, map, arith}
use pi_secure.Tx.{Tx, empty_tx, input_bytes, tail_bytes, flag_bytes, reg_bytes, canonical_tx}
use pi_secure.Tx.Canonical.{Fits, outpoint, canonical_tx-injective}

-- Two signatures on one payment.
abbrev signed : Bytes → Tx
signed signature = record empty_tx {
  fee = 314;
  inputs =
      record { prev = replicate 32 7; vout = 1; signature_hex = signature; public_key_hex = [] }
      ∷ [];
  outputs = record { value = 216_000; address = codes "ps1a" } ∷ [];
}

signed-Fits : (signature : Bytes) → Fits (signed signature)
signed-Fits signature = record {
  version_fits = omega arith;
  height_fits = omega arith;
  fee_fits = omega arith;
  few_inputs = omega arith;
  few_outputs = omega arith;
  inputs_fit = ((refl, omega arith), tt);
  outputs_fit = ((omega arith, omega arith), tt);
}

same_bytes : canonical_tx (signed (codes "aa")) ≡ canonical_tx (signed (codes "bb"))
unfolding canonical_tx input_bytes tail_bytes flag_bytes reg_bytes
same_bytes = refl

canonical_tx-injective_example :
    let t = signed (codes "aa") in
    let u = signed (codes "bb") in
    (t.version ≡ u.version)
    × (t.coinbase ≡ u.coinbase)
    × (map outpoint t.inputs ≡ map outpoint u.inputs)
    × (t.outputs ≡ u.outputs)
    × (t.fee ≡ u.fee)
    × ((if t.coinbase then t.height else 0) ≡ (if u.coinbase then u.height else 0))
    × (flag_bytes t.flag_kind t ++ reg_bytes t.reg t
        ≡ flag_bytes u.flag_kind u ++ reg_bytes u.reg u)
canonical_tx-injective_example =
    canonical_tx-injective (signed (codes "aa")) (signed (codes "bb")) (signed-Fits (codes "aa"))
      (signed-Fits (codes "bb")) same_bytes
