-- ===== src/Block/Examples.antt =====
-- A block of one payment on concrete input: a coin of 5000 pi at a long address pays 4000.
use pi_secure.Flags.{find, create, escrow_lock}
use pi_secure.Flags.Escrow.{IsFunded}
use pi_secure.Utxo.Map.{total_value}
use pi_secure.Hex.RoundTrip.{IsHash}
use pi_secure.Block.Supply.{IsSound, total_released, check_txs-total}
use pi_secure.Block.Staged.{IsStaged, check_txs-IsStaged}
use pi_secure.Block.Signed.{AllTxsSigned, check_txs-AllTxsSigned}
use pi_secure.Spend.Fits.{IsUtxoSet}
use pi_secure.Spend.Sequential.{Applied, HasHashes, check_spendable-Applied, IsFoundAlike}
use pi_secure.Prelude.{
  replicate, Bytes, codes, All, IsByte, bytes_eq, ok, ℕ, zero, suc, ◌+◌, ◌≤◌, ◌<◌, ◌≡◌, refl, inl,
  inr, true, false, none, [], ◌∷◌, ◌++◌, arith,
}
use pi_secure.Amount.{to_decimal}
use pi_secure.Hex.{to_hex, lower_hex, decode_hex}
use pi_secure.Address.{is_long_address}
use pi_secure.Emission.{min_fee_for_height}
use pi_secure.Tx.{Tx, TxIn, empty_tx, FlagKind}
use pi_secure.Utxo.{
  Utxos, utxo_key, lookup, utxo_lookup, put_all, erase_all, put, erase, apply_utxos,
}
use pi_secure.Spend.{
  check_spendable, worth_of, sum_inputs, sum_outputs, balance_ok, find_outpoint, spent_before,
  input_worth, credits_from, tx_spends, tx_credits,
}
use pi_secure.Block.{
  Outside, check_txs, check_tx, claim_release, long_address, verify_input_signatures, verify_inputs,
  verify_owned, verify_signature, verify_signed, verify_key, ed25519_verify, no_text, is_none,
  binds_other, admit_register, flag_outputs_ok, apply_flag_tx, Flag, arith, apply_utxos, tx_spends,
  ℕ, inr, tx_credits, no_inputs, payer_of, all_to, incoming_flag,
}

abbrev outside : Outside
outside = record {
  bound_public_key = λ owner. none;
  grant_matches = λ name address. false;
  sha256 = λ s. replicate 32 0;
  sign_payload = λ tx. [];
  verify = λ pubkey sig message. true;
  names = [];
}

-- The address of every key under this digest.
abbrev owner : Bytes
owner = codes "ps1" ++ replicate 64 48

abbrev coin : Bytes
coin = replicate 32 7

abbrev unspent : Utxos
unspent = (utxo_key coin 0, record { value = 5000; address = owner; height = 3001 }) ∷ []

abbrev spend : TxIn
spend = record {
  prev = coin;
  vout = 0;
  signature_hex = replicate 128 48;
  public_key_hex = replicate 64 48;
}

abbrev payment : Tx
payment = record empty_tx {
  fee = 314;
  inputs = spend ∷ [];
  outputs = record { value = 4000; address = owner } ∷ [];
  txid = replicate 32 9;
}

abbrev reward : Tx
reward = record empty_tx {
  coinbase = true;
  height = 3002;
  outputs = record { value = 100; address = owner } ∷ [];
  txid = replicate 32 8;
}

signed : verify_input_signatures outside unspent payment true (reward ∷ []) ≡ ok tt
unfolding no_inputs verify_input_signatures verify_inputs verify_owned verify_signature
    verify_signed verify_key ed25519_verify no_text is_none binds_other find_outpoint utxo_lookup
    lookup utxo_key bytes_eq to_hex to_decimal is_long_address long_address lower_hex decode_hex
signed = refl

spendable : check_spendable unspent payment 3002 (reward ∷ []) 0 ≡ ok tt
unfolding check_spendable sum_inputs sum_outputs balance_ok worth_of find_outpoint utxo_lookup
    bytes_eq to_hex to_decimal lookup utxo_key spent_before input_worth min_fee_for_height
spendable = refl

-- A flag of ten pi for each of three, of which one is paid.
abbrev flag : Flag
flag = record {
  id = codes "f";
  commitment = [];
  awards_pubkey = [];
  max_claims = 3;
  expires_height = 0;
  bounty_units = 10;
  note = [];
  escrow = 20;
  txid = [];
  claimants = [] ∷ [];
  claim_txids = [] ∷ [];
}

checked :
    check_txs outside unspent 3002 true (reward ∷ []) (flag ∷ []) (payment ∷ []) ≡ ok (flag ∷ [])
unfolding check_txs check_tx claim_release admit_register flag_outputs_ok apply_flag_tx
checked = rw (spendable, signed) refl

abbrev rewarded : Utxos
rewarded =
    (utxo_key coin 0, record { value = 5000; address = owner; height = 3001 })
    ∷ (utxo_key (replicate 32 8) 0, record { value = 100; address = owner; height = 3002 })
    ∷ []

abbrev after : Utxos
after =
    (utxo_key (replicate 32 8) 0, record { value = 100; address = owner; height = 3002 })
    ∷ (utxo_key (replicate 32 9) 0, record { value = 4000; address = owner; height = 3002 })
    ∷ []

reward-Applied : Applied 3002 (reward ∷ []) unspent rewarded
unfolding apply_utxos put_all erase_all put erase lookup tx_spends tx_credits credits_from utxo_key
    bytes_eq to_hex to_decimal
reward-Applied = (rewarded, (refl, refl))

payment-Applied : Applied 3002 (payment ∷ []) rewarded after
unfolding apply_utxos put_all erase_all put erase lookup tx_spends tx_credits credits_from utxo_key
    bytes_eq to_hex to_decimal
payment-Applied = (after, (refl, refl))

replicate-IsByte : (n b : ℕ) → b < 256 → All IsByte (replicate n b)
replicate-IsByte zero b small = tt
replicate-IsByte (suc n) b small = (small, replicate-IsByte n b small)

bytes_of : (b : ℕ) → b < 256 → IsHash (replicate 32 b)
bytes_of b small = (refl, replicate-IsByte 32 b small)

reward-HasHashes : HasHashes reward
reward-HasHashes = (bytes_of 8 (omega arith), tt)

payment-IsSound : IsSound payment
unfolding tx_spends
payment-IsSound = record {
  hashes = (bytes_of 9 (omega arith), (bytes_of 7 (omega arith), tt));
  once = (refl, tt);
  small = omega arith;
}

rewarded-IsUtxoSet : IsUtxoSet 3002 rewarded
unfolding lookup utxo_key bytes_eq to_hex to_decimal
rewarded-IsUtxoSet = record {
  fits = (omega arith, (omega arith, tt));
  distinct = (refl, (refl, tt));
  unit = inr (omega arith, (omega arith, tt));
}

check_spendable-Applied_example :
    (check_spendable rewarded payment 3002 [] 0 ≡ ok tt)
    × All (IsFoundAlike unspent (reward ∷ []) rewarded 3002) (spend ∷ [])
check_spendable-Applied_example =
    check_spendable-Applied (reward ∷ []) 3002 unspent rewarded payment 0 (reward-HasHashes, tt)
      (bytes_of 7 (omega arith), tt) reward-Applied spendable

check_txs-AllTxsSigned_example : AllTxsSigned outside unspent (reward ∷ []) (payment ∷ [])
check_txs-AllTxsSigned_example =
    check_txs-AllTxsSigned outside unspent 3002 true (reward ∷ []) (flag ∷ []) (flag ∷ [])
      (payment ∷ []) checked

flag-IsFunded : IsFunded flag
flag-IsFunded = record {
  account = omega arith;
  unpaid = inl (omega arith);
  limited = inr (omega arith);
  recorded = refl;
}

-- The coin opens a flag of 343 for each of two.
abbrev opening : Tx
opening = record payment {
  flag_kind = FlagKind.create;
  flag_id = codes "g";
  max_claims = 2;
  bounty_units = 343;
  escrow_lock = 686;
}

abbrev opened_flag : Flag
opened_flag = record {
  id = codes "g";
  commitment = [];
  awards_pubkey = [];
  max_claims = 2;
  expires_height = 0;
  bounty_units = 343;
  note = [];
  escrow = 686;
  txid = to_hex (replicate 32 9);
  claimants = [];
  claim_txids = [];
}

opening_signed : verify_input_signatures outside unspent opening true (reward ∷ []) ≡ ok tt
unfolding no_inputs verify_input_signatures verify_inputs verify_owned verify_signature
    verify_signed verify_key ed25519_verify no_text is_none binds_other find_outpoint utxo_lookup
    lookup utxo_key bytes_eq to_hex to_decimal is_long_address long_address lower_hex decode_hex
opening_signed = refl

opening_spendable : check_spendable unspent opening 3002 (reward ∷ []) 0 ≡ ok tt
unfolding check_spendable sum_inputs sum_outputs balance_ok worth_of find_outpoint utxo_lookup
    bytes_eq to_hex to_decimal lookup utxo_key spent_before input_worth min_fee_for_height
opening_spendable = refl

opening_pays :
    flag_outputs_ok outside unspent opening (find (codes "g") (flag ∷ [])) (reward ∷ []) ≡ ok tt
unfolding flag_outputs_ok payer_of all_to find_outpoint utxo_lookup lookup utxo_key bytes_eq to_hex
    to_decimal
opening_pays = refl

opening_applied : apply_flag_tx (flag ∷ []) opening 3002 ≡ ok (flag ∷ opened_flag ∷ [])
unfolding apply_flag_tx incoming_flag create find escrow_lock bytes_eq
opening_applied = refl

opening_checked :
    check_txs outside unspent 3002 true (reward ∷ []) (flag ∷ []) (opening ∷ [])
    ≡ ok (flag ∷ opened_flag ∷ [])
unfolding check_txs check_tx claim_release admit_register
opening_checked = rw (opening_spendable, opening_signed, opening_pays, opening_applied) refl

check_txs-IsStaged_example : IsStaged (flag ∷ []) 686 (flag ∷ opened_flag ∷ [])
check_txs-IsStaged_example =
    check_txs-IsStaged outside unspent 3002 true (reward ∷ []) (flag ∷ []) (flag ∷ opened_flag ∷ [])
      (opening ∷ []) (flag-IsFunded, tt) opening_checked

check_txs-total_example :
    total_value after + 314
    ≤ total_value rewarded
      + total_released outside unspent 3002 true (reward ∷ []) (flag ∷ []) (payment ∷ [])
check_txs-total_example =
    check_txs-total outside unspent rewarded after 3002 true reward (flag ∷ []) (flag ∷ [])
      (payment ∷ []) rewarded-IsUtxoSet reward-HasHashes reward-Applied (payment-IsSound, tt)
      payment-Applied checked
