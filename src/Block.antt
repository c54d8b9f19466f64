-- ===== src/Block.antt =====
-- cpp/pisecured/src/chain_rpc.cpp: the transactions of a block. `rpc_submitblock` checks each of them
-- against the unspent outputs as they are before the block and the transactions before it, and then
-- updates the unspent outputs one transaction after the other.
pub mod Signed
pub mod Staged
pub mod Supply
mod Examples
use pi_secure.Prelude.{
  ltb, leb, ◌==◌, if◌then◌else◌, ltb→lt, lt→ltb, leb→le, ==_iff, Bool-cases, Option-cases, tests,
  length, get_elem?, set, length-append, length-set, get_elem?-set_self, get_elem?-set_ne,
  get_elem?-append_left, get_elem?-append_end, get_or, take, drop, replicate, take-append-drop,
  length-take, length-drop, length-replicate, length-map, take-append, drop-append, drop-suc-append,
  Bytes, codes, u64_mod, u64_max, u32_mod, All, All-append, All-append_left, All-append_right,
  IsByte, bytes_eq, bytes_eq_iff, bytes_eq_refl, fail_if, ◌>>=◌, is_ok, ◌>>◌, Result-cases, Reason,
  Result, ok, err, add64, sub64, mul64, sub_ℕ, ℤ, pos, negsuc, ℕ, zero, suc, ◌+◌, ◌-◌, ◌*◌, ◌/◌,
  ◌%◌, ◌^◌, ◌≤◌, ◌<◌, ◌≡◌, refl, sym, ap, ap₂, subst, ◌∙◌, ◌≢◌, ◌↔◌, ◌⊎◌, inl, inr, Bool, true,
  false, not, ◌&&◌, ◌||◌, Option, none, some, List, [], ◌∷◌, ◌++◌, map, append-nil, append_assoc,
  arith, dec_lt, ℕ_discrete,
}
use pi_secure.Prelude.Reason.{
  inputs_missing, unknown_input, malformed_transaction, unknown_flag, awards_signature,
  no_spending_key, signature_missing, key_mismatch, signature_invalid, name_invalid,
  signer_mismatch, name_taken, name_reserved,
}
use pi_secure.Hex.{to_hex, lower_hex, decode_hex}
use pi_secure.Address.{is_long_address, valid_shortname, is_reserved_name}
use pi_secure.Tx.{Tx, TxIn, TxOut, FlagKind}
use pi_secure.Names.{NameRec, lookup_name}
use pi_secure.Flags.{Flag, find, create, claim}
use pi_secure.Utxo.{Utxos, apply_utxos}
use pi_secure.Spend.{Found, find_outpoint, check_spendable, tx_spends, tx_credits}

-- What stands in files or comes from a library: the key that a wallet file binds to an address, the
-- grants of reserved names, SHA-256, the JSON text that is signed and Ed25519. `names` is the
-- registry of names before the block: that `grant_matches` remembers a name that it grants is left
-- out.
pub record Outside : Type 0 where
  pub bound_public_key : Bytes → Option Bytes
  pub grant_matches : Bytes → Bytes → Bool
  pub sha256 : Bytes → Bytes
  pub sign_payload : Tx → Bytes
  pub verify : Bytes → Bytes → Bytes → Bool
  pub names : List NameRec

unfoldable pub long_address : Outside → Bytes → Bytes
long_address c pubkey = codes "ps1" ++ to_hex (c.sha256 pubkey)

-- `EVP_DigestVerify` is asked only about a key of 32 bytes and a signature of 64.
unfoldable pub ed25519_verify : Outside → Bytes → Bytes → Bytes → Bool
ed25519_verify c pubkey sig message =
    if not (length pubkey == 32) || not (length sig == 64)
    then false
    else c.verify pubkey sig message

unfoldable pub earlier_bounty : Bytes → List Tx → ℕ
earlier_bounty flag_id [] = 0
earlier_bounty flag_id (earlier ∷ prior) =
    let rest = earlier_bounty flag_id prior in
    elim earlier.flag_kind [
      | FlagKind.create ↦ if bytes_eq earlier.flag_id flag_id then earlier.bounty_units else rest
      | FlagKind.plain ↦ rest
      | FlagKind.claim ↦ rest
    ]

unfoldable pub release_of : Option Flag → Bytes → List Tx → ℕ
release_of none flag_id prior = earlier_bounty flag_id prior
release_of (some flag) flag_id prior = flag.bounty_units

unfoldable pub claim_release : Tx → List Flag → List Tx → ℕ
claim_release tx book prior = elim tx.flag_kind [
  | FlagKind.plain ↦ 0
  | FlagKind.create ↦ 0
  | FlagKind.claim ↦ release_of (find tx.flag_id book) tx.flag_id prior
]

-- The outputs of a created flag go back to the payer.
unfoldable pub all_to : Bytes → List TxOut → Result (Unit {0})
all_to payer [] = ok tt
all_to payer (out ∷ outputs) =
    let rest = all_to payer outputs in
    if not (bytes_eq out.address payer) then err malformed_transaction else rest

-- The loop over the outputs of a claim: how many pay the recipient.
unfoldable pub count_paid : ℕ → Bytes → Bytes → List TxOut → ℕ → Result ℕ
count_paid bounty recipient awards [] paid = ok paid
count_paid bounty recipient awards (out ∷ outputs) paid =
    let one_more = count_paid bounty recipient awards outputs (paid + 1) in
    let rest = count_paid bounty recipient awards outputs paid in
    if bytes_eq out.address recipient
    then (if bounty == 0 || not (out.value == bounty) then err malformed_transaction else one_more)
    else if not (bytes_eq out.address awards)
    then err malformed_transaction
    else rest

unfoldable pub paid_once : ℕ → ℕ → Result (Unit {0})
paid_once bounty paid = do
  fail_if (bounty == 0 && not (paid == 0)) malformed_transaction
  fail_if (ltb 0 bounty && not (paid == 1)) malformed_transaction
  ok tt

unfoldable pub claim_outputs_ok : Outside → Tx → Option Flag → Result (Unit {0})
claim_outputs_ok c tx none = err unknown_flag
claim_outputs_ok c tx (some flag) = elim (decode_hex flag.awards_pubkey) [
  | none ↦ err awards_signature
  | some raw ↦
      count_paid flag.bounty_units tx.recipient (long_address c raw) tx.outputs 0
      >>= paid_once flag.bounty_units
]

-- The owner of the first input. `check_spendable` has tested that there is an input.
unfoldable pub payer_of : Utxos → List Tx → List TxIn → Option Found
payer_of m prior [] = none
payer_of m prior (i ∷ inputs) = find_outpoint m prior 0 i.prev i.vout

unfoldable pub flag_outputs_ok : Outside → Utxos → Tx → Option Flag → List Tx → Result (Unit {0})
flag_outputs_ok c m tx flag prior = elim tx.flag_kind [
  | FlagKind.plain ↦ ok tt
  | FlagKind.create ↦ elim (payer_of m prior tx.inputs) [
    | none ↦ err unknown_input
    | some f ↦ all_to f.owner tx.outputs
  ]
  | FlagKind.claim ↦ elim (payer_of m prior tx.inputs) [
    | none ↦ err unknown_input
    | some f ↦ claim_outputs_ok c tx flag
  ]
]

unfoldable pub incoming_flag : Tx → Flag
incoming_flag tx = record {
  id = tx.flag_id;
  commitment = tx.commitment;
  awards_pubkey = tx.awards_pubkey;
  max_claims = tx.max_claims;
  expires_height = tx.expires_height;
  bounty_units = tx.bounty_units;
  note = tx.note;
  escrow = 0;
  txid = to_hex tx.txid;
  claimants = [];
  claim_txids = [];
}

unfoldable pub signer_of : List TxIn → Bytes
signer_of [] = []
signer_of (i ∷ inputs) = lower_hex i.public_key_hex

unfoldable pub apply_flag_tx : List Flag → Tx → ℕ → Result (List Flag)
apply_flag_tx book tx height = elim tx.flag_kind [
  | FlagKind.plain ↦ ok book
  | FlagKind.create ↦ create book (incoming_flag tx)
  | FlagKind.claim ↦
      claim book tx.flag_id tx.recipient (signer_of tx.inputs) height (to_hex tx.txid)
]

unfoldable pub is_none : Option Bytes → Bool
is_none none = true
is_none (some key) = false

-- Whether the wallet file binds another key.
unfoldable pub binds_other : Option Bytes → Bytes → Bool
binds_other none presented = false
binds_other (some bound) presented = not (bytes_eq presented bound)

unfoldable pub no_text : Bytes → Bool
no_text [] = true
no_text (c ∷ s) = false

-- A key that is read, against the owner and the signature.
unfoldable pub verify_key : Outside → Bytes → Bytes → TxIn → Bytes → Result (Unit {0})
verify_key c message owner i pubkey = do
  fail_if (not (length pubkey == 32)) key_mismatch
  fail_if (is_long_address owner && not (bytes_eq (long_address c pubkey) owner)) key_mismatch
  elim (decode_hex i.signature_hex) [
    | none ↦ err signature_invalid
    | some sig ↦ fail_if (not (ed25519_verify c pubkey sig message)) signature_invalid
  ]

unfoldable pub verify_signed : Outside → Bytes → Bytes → TxIn → Result (Unit {0})
verify_signed c message owner i = do
  fail_if (no_text i.public_key_hex) key_mismatch
  fail_if (binds_other (c.bound_public_key owner) (lower_hex i.public_key_hex)) key_mismatch
  elim (decode_hex (lower_hex i.public_key_hex)) [
    | none ↦ err key_mismatch
    | some pubkey ↦ verify_key c message owner i pubkey
  ]

unfoldable pub verify_signature : Outside → Bytes → Bool → Bytes → TxIn → Result (Unit {0})
verify_signature c message require_local owner i =
    if no_text i.signature_hex
    then fail_if (require_local || is_long_address owner) signature_missing
    else verify_signed c message owner i

-- One round of `verify_input_signatures`, for an input with this owner.
unfoldable pub verify_owned : Outside → Bytes → Bool → Bytes → TxIn → Result (Unit {0})
verify_owned c message require_local owner i = do
  fail_if (require_local && (is_none (c.bound_public_key owner) && not (is_long_address owner)))
      no_spending_key
  verify_signature c message require_local owner i

unfoldable pub verify_inputs :
    Outside → Utxos → List Tx → Bytes → Bool → List TxIn → Result (Unit {0})
verify_inputs c m prior message require_local [] = ok tt
verify_inputs c m prior message require_local (i ∷ inputs) =
    elim (find_outpoint m prior 0 i.prev i.vout) [
      | none ↦ err unknown_input
      | some f ↦
          verify_owned c message require_local f.owner i
          >> verify_inputs c m prior message require_local inputs
    ]

unfoldable pub no_inputs : List TxIn → Bool
no_inputs [] = true
no_inputs (i ∷ inputs) = false

unfoldable pub verify_input_signatures : Outside → Utxos → Tx → Bool → List Tx → Result (Unit {0})
verify_input_signatures c m tx require_local prior = do
  fail_if (no_inputs tx.inputs) inputs_missing
  verify_inputs c m prior (c.sign_payload tx) require_local tx.inputs

-- The key of an input of a registration.
unfoldable pub signs_for : Outside → Bytes → TxIn → Bool
signs_for c reg_address i = elim (decode_hex i.public_key_hex) [
  | none ↦ false
  | some pubkey ↦ bytes_eq (long_address c pubkey) reg_address
]

unfoldable pub register_inputs : Outside → Utxos → List Tx → Bytes → List TxIn → Result (Unit {0})
register_inputs c m prior reg_address [] = ok tt
register_inputs c m prior reg_address (i ∷ inputs) = elim (find_outpoint m prior 0 i.prev i.vout) [
  | none ↦ err unknown_input
  | some f ↦
      fail_if (not (bytes_eq f.owner reg_address) || not (signs_for c reg_address i))
        signer_mismatch
      >> register_inputs c m prior reg_address inputs
]

unfoldable pub is_taken : Option (Bytes × Bytes × Bytes) → Bytes → Bool
is_taken none reg_address = false
is_taken (some (existing, shown, kind)) reg_address = not (bytes_eq existing reg_address)

unfoldable pub admit_register : Outside → Utxos → Tx → Bool → List Tx → Result (Unit {0})
admit_register c m tx local_policy prior = if not tx.reg then ok tt else do
  fail_if (not (valid_shortname tx.name)) name_invalid
  fail_if (not (is_long_address tx.reg_address)) signer_mismatch
  register_inputs c m prior tx.reg_address tx.inputs
  fail_if (is_taken (lookup_name tx.name c.names) tx.reg_address) name_taken
  fail_if
      (is_reserved_name tx.name && (local_policy && not (c.grant_matches tx.name tx.reg_address)))
      name_reserved

-- One round of the loop over the transactions: the staged flags after it.
unfoldable pub check_tx : Outside → Utxos → ℕ → Bool → List Tx → List Flag → Tx → Result (List Flag)
check_tx c m height local prior book tx = do
  check_spendable m tx height prior (claim_release tx book prior)
  verify_input_signatures c m tx local prior
  admit_register c m tx local prior
  flag_outputs_ok c m tx (find tx.flag_id book) prior
  apply_flag_tx book tx height

unfoldable pub check_txs :
    Outside → Utxos → ℕ → Bool → List Tx → List Flag → List Tx → Result (List Flag)
check_txs c m height local prior book [] = ok book
check_txs c m height local prior book (tx ∷ txs) =
    check_tx c m height local prior book tx >>= λ staged.
    check_txs c m height local (prior ++ (tx ∷ [])) staged txs
