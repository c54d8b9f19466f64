-- ===== src/Block/Signed.antt =====
-- The signatures of the transactions of a block.
use pi_secure.Prelude.{
  Bool-cases, Option-cases, length, Bytes, bytes_eq, bytes_eq_iff, Result-cases, ok, ℕ, ◌≡◌, inl,
  inr, Bool, true, some, List, [], ◌∷◌, ◌++◌, arith,
}
use pi_secure.Address.{is_long_address}
use pi_secure.Hex.{decode_hex, lower_hex}
use pi_secure.Tx.{Tx, TxIn}
use pi_secure.Utxo.{Utxos}
use pi_secure.Flags.{Flag}
use pi_secure.Spend.{Found, find_outpoint, check_spendable}
use pi_secure.Block.{
  Outside, long_address, ed25519_verify, verify_key, verify_signed, verify_signature, verify_owned,
  verify_inputs, verify_input_signatures, check_tx, check_txs, claim_release, no_inputs,
}

-- The input carries a key and a signature: the address is that of the key, and the signature is one
-- of 64 bytes on the transaction, good under the key.
pub record IsSigned (c : Outside) (tx : Tx) (owner : Bytes) (i : TxIn) : Type 0 where
  pub pubkey : Bytes
  pub sig : Bytes
  pub pubkey_read : decode_hex (lower_hex i.public_key_hex) ≡ some pubkey
  pub sig_read : decode_hex i.signature_hex ≡ some sig
  pub owns : long_address c pubkey ≡ owner
  pub sig_whole : length sig ≡ 64
  pub good : c.verify pubkey sig (c.sign_payload tx) ≡ true

verify_key-IsSigned :
    (c : Outside) (tx : Tx) (owner : Bytes) (i : TxIn) (pubkey : Bytes)
    → is_long_address owner ≡ true
    → decode_hex (lower_hex i.public_key_hex) ≡ some pubkey
    → verify_key c (c.sign_payload tx) owner i pubkey ≡ ok tt
    → IsSigned c tx owner i
unfolding verify_key ed25519_verify
verify_key-IsSigned c tx owner i pubkey long read e =
    elim (Option-cases (decode_hex i.signature_hex)) [
      | inl missing ↦ ground arith
      | inr (sig, there) ↦
          let same : bytes_eq (long_address c pubkey) owner ≡ true = ground arith in
          record {
            pubkey = pubkey;
            sig = sig;
            pubkey_read = read;
            sig_read = there;
            owns = (bytes_eq_iff (long_address c pubkey) owner).0 same;
            sig_whole = ground arith;
            good = ground arith;
          }
    ]

verify_owned-IsSigned :
    (c : Outside) (tx : Tx) (local : Bool) (owner : Bytes) (i : TxIn)
    → is_long_address owner ≡ true
    → verify_owned c (c.sign_payload tx) local owner i ≡ ok tt
    → IsSigned c tx owner i
unfolding verify_owned verify_signature verify_signed
verify_owned-IsSigned c tx local owner i long e =
    elim (Option-cases (decode_hex (lower_hex i.public_key_hex))) [
      | inl missing ↦ ground arith
      | inr (pubkey, read) ↦ verify_key-IsSigned c tx owner i pubkey long read (ground arith)
    ]

-- Every input has an owner, and one whose owner is a long address is signed.
abbrev pub AllSigned : Outside → Utxos → List Tx → Tx → List TxIn → Type 0
AllSigned c m prior tx [] = Unit
AllSigned c m prior tx (i ∷ inputs) =
    ((f : Found) × ((find_outpoint m prior 0 i.prev i.vout ≡ some f)
        × (is_long_address f.owner ≡ true → IsSigned c tx f.owner i)))
    × AllSigned c m prior tx inputs

verify_inputs-AllSigned :
    (c : Outside) (m : Utxos) (prior : List Tx) (tx : Tx) (local : Bool) (inputs : List TxIn)
    → verify_inputs c m prior (c.sign_payload tx) local inputs ≡ ok tt
    → AllSigned c m prior tx inputs
unfolding verify_inputs
verify_inputs-AllSigned c m prior tx local [] e = tt
verify_inputs-AllSigned c m prior tx local (i ∷ inputs) e =
    elim (Option-cases (find_outpoint m prior 0 i.prev i.vout)) [
      | inl missing ↦ ground arith
      | inr (f, there) ↦ elim (Result-cases (verify_owned c (c.sign_payload tx) local f.owner i)) [
        | inr (reason, fail) ↦ ground arith
        | inl (u, one) ↦
            let rest : verify_inputs c m prior (c.sign_payload tx) local inputs ≡ ok tt =
              ground arith in
            (
              (f, (there, λ long. verify_owned-IsSigned c tx local f.owner i long one)),
              verify_inputs-AllSigned c m prior tx local inputs rest,
            )
      ]
    ]

check_tx_signatures :
    (c : Outside) (m : Utxos) (h : ℕ) (local : Bool) (prior : List Tx) (book staged : List Flag)
    (tx : Tx)
    → check_tx c m h local prior book tx ≡ ok staged
    → verify_inputs c m prior (c.sign_payload tx) local tx.inputs ≡ ok tt
unfolding check_tx verify_input_signatures
check_tx_signatures c m h local prior book staged tx e =
    elim (Result-cases (check_spendable m tx h prior (claim_release tx book prior))) [
      | inr (reason, fail) ↦ ground arith
      | inl (u, spendable) ↦ elim (Bool-cases (no_inputs tx.inputs)) [
        | inl missing ↦ ground arith
        | inr there ↦
            elim (Result-cases (verify_inputs c m prior (c.sign_payload tx) local tx.inputs)) [
              | inr (reason, fail) ↦ ground arith
              | inl (v, signed) ↦ signed
            ]
      ]
    ]

-- Each transaction against the ones before it.
abbrev pub AllTxsSigned : Outside → Utxos → List Tx → List Tx → Type 0
AllTxsSigned c m prior [] = Unit
AllTxsSigned c m prior (tx ∷ txs) =
    AllSigned c m prior tx tx.inputs × AllTxsSigned c m (prior ++ (tx ∷ [])) txs

-- In a block whose transactions are accepted, under the rules of a miner or of a peer, every input
-- has an owner, and one whose owner is a long address carries the key of that address and an Ed25519
-- signature with it on the text of the transaction.
pub check_txs-AllTxsSigned :
    (c : Outside) (m : Utxos) (h : ℕ) (local : Bool) (prior : List Tx) (book staged : List Flag)
    (txs : List Tx)
    → check_txs c m h local prior book txs ≡ ok staged
    → AllTxsSigned c m prior txs
unfolding check_txs
check_txs-AllTxsSigned c m h local prior book staged [] e = tt
check_txs-AllTxsSigned c m h local prior book staged (tx ∷ txs) e =
    elim (Result-cases (check_tx c m h local prior book tx)) [
      | inr (reason, fail) ↦ ground arith
      | inl (next, one) ↦ (
        verify_inputs-AllSigned c m prior tx local tx.inputs
            (check_tx_signatures c m h local prior book next tx one),
        check_txs-AllTxsSigned c m h local (prior ++ (tx ∷ [])) next staged txs (rw one at e),
      )
    ]
