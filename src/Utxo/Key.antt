-- ===== src/Utxo/Key.antt =====
-- The key of an outpoint determines it.
use pi_secure.Prelude.{length, Bytes, ℕ, ◌≡◌, arith}
use pi_secure.Amount.Format.{to_decimal-injective}
use pi_secure.Hex.{to_hex}
use pi_secure.Hex.RoundTrip.{IsHash, to_hex-injective, length-to_hex}
use pi_secure.Tx.Fields.{append_cancel, cons_cancel}
use pi_secure.Utxo.{utxo_key}

-- Two outpoints with the same key are the same: the ids are 32 bytes.
pub utxo_key-injective :
    (s t : Bytes) (v w : ℕ) → IsHash s → IsHash t → utxo_key s v ≡ utxo_key t w → (s ≡ t) × (v ≡ w)
unfolding utxo_key
utxo_key-injective s t v w (ls, bs) (lt, bt) h =
    let len : length (to_hex s) ≡ length (to_hex t) =
      omega (arith, length-to_hex s, length-to_hex t) in
    let (hex, rest) = append_cancel (to_hex s) (to_hex t) _ _ len h in
    let (_, digits) = cons_cancel _ _ _ _ rest in
    (to_hex-injective s t bs bt hex, to_decimal-injective v w digits)
