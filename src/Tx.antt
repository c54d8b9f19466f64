-- ===== src/Tx.antt =====
-- cpp/pisecured/src/chain_rpc.cpp: the transaction and its canonical bytes, whose SHA-256 is the
-- transaction id. SHA-256 is OpenSSL's, so it is a parameter of `txid_of` and of what calls it.
pub mod Fields
pub mod Canonical
mod Examples
use pi_secure.Prelude.{
  ltb, leb, ◌==◌, if◌then◌else◌, ltb→lt, lt→ltb, leb→le, ==_iff, Bool-cases, Option-cases, tests,
  length, get_elem?, set, length-append, length-set, get_elem?-set_self, get_elem?-set_ne,
  get_elem?-append_left, get_elem?-append_end, get_or, take, drop, replicate, take-append-drop,
  length-take, length-drop, length-replicate, length-map, take-append, drop-append, drop-suc-append,
  Bytes, codes, u64_mod, u64_max, u32_mod, All, All-append, All-append_left, All-append_right,
  IsByte, bytes_eq, bytes_eq_iff, bytes_eq_refl, fail_if, ◌>>=◌, is_ok, ◌>>◌, Result-cases, Reason,
  Result, ok, err, add64, sub64, mul64, sub_ℕ, ℤ, pos, negsuc, ℕ, zero, suc, ◌+◌, ◌-◌, ◌*◌, ◌/◌,
  ◌%◌, ◌^◌, ◌≤◌, ◌<◌, ◌≡◌, refl, sym, ap, ap₂, subst, ◌∙◌, ◌≢◌, ◌↔◌, ◌⊎◌, inl, inr, Bool, true,
  false, not, ◌&&◌, ◌||◌, Option, none, some, List, [], ◌∷◌, ◌++◌, map, append-nil, append_assoc,
  arith, dec_lt, ℕ_discrete,
}
use pi_secure.Hex.{decoded_part}
use Fields.{u16_bytes, u32_bytes, u64_bytes}

pub record TxIn : Type 0 where
  pub prev : Bytes
  pub vout : ℕ
  pub signature_hex : Bytes
  pub public_key_hex : Bytes

pub record TxOut : Type 0 where
  pub value : ℕ
  pub address : Bytes

-- Tx::FlagKind
pub data FlagKind : Type 0 where
  plain create claim : FlagKind

pub record Tx : Type 0 where
  pub version : ℕ
  pub coinbase : Bool
  pub reg : Bool
  pub height : ℕ
  pub fee : ℕ
  pub name : Bytes
  pub reg_address : Bytes
  pub flag_kind : FlagKind
  pub flag_id : Bytes
  pub commitment : Bytes
  pub awards_pubkey : Bytes
  pub max_claims : ℕ
  pub expires_height : ℕ
  pub bounty_units : ℕ
  pub note : Bytes
  pub recipient : Bytes
  pub escrow_lock : ℕ
  pub inputs : List TxIn
  pub outputs : List TxOut
  pub txid : Bytes

-- The member initialisers of `Tx`; `std::array{}` is 32 zero bytes.
abbrev pub empty_tx : Tx
empty_tx = record {
  version = 1;
  coinbase = false;
  reg = false;
  height = 0;
  fee = 0;
  name = [];
  reg_address = [];
  flag_kind = plain;
  flag_id = [];
  commitment = [];
  awards_pubkey = [];
  max_claims = 0;
  expires_height = 0;
  bounty_units = 0;
  note = [];
  recipient = [];
  escrow_lock = 0;
  inputs = [];
  outputs = [];
  txid = replicate 32 0;
}

-- A length, then the bytes of a string.
text_bytes : Bytes → Bytes
text_bytes s = u16_bytes (length s) ++ s

input_bytes : List TxIn → Bytes
input_bytes [] = []
input_bytes (i ∷ inputs) = i.prev ++ (u32_bytes i.vout ++ input_bytes inputs)

output_bytes : List TxOut → Bytes
output_bytes [] = []
output_bytes (o ∷ outputs) = u64_bytes o.value ++ (text_bytes o.address ++ output_bytes outputs)

-- `decode_hex` into an empty vector, whose answer is not tested: a failure leaves what was read.
raw_bytes : Bytes → Bytes
raw_bytes hex = if length hex % 2 == 0 then decoded_part hex else []

pub flag_bytes : FlagKind → Tx → Bytes
unfolding text_bytes raw_bytes
flag_bytes plain tx = []
flag_bytes create tx =
    codes "FLAG1"
    ++ (text_bytes tx.flag_id
        ++ (raw_bytes tx.commitment
            ++ (raw_bytes tx.awards_pubkey
                ++ (u32_bytes tx.max_claims
                    ++ (u32_bytes tx.expires_height
                        ++ (u64_bytes tx.bounty_units ++ text_bytes tx.note))))))
flag_bytes claim tx = codes "FLAG2" ++ (text_bytes tx.flag_id ++ text_bytes tx.recipient)

pub reg_bytes : Bool → Tx → Bytes
unfolding text_bytes
reg_bytes false tx = []
reg_bytes true tx = codes "REG1" ++ (text_bytes tx.name ++ text_bytes tx.reg_address)

-- What stands behind the outputs.
tail_bytes : Tx → Bytes
tail_bytes tx =
    u64_bytes tx.fee
    ++ (u32_bytes (if tx.coinbase then tx.height else 0)
        ++ (flag_bytes tx.flag_kind tx ++ reg_bytes tx.reg tx))

pub canonical_tx : Tx → Bytes
canonical_tx tx =
    codes "TX1"
    ++ (u32_bytes tx.version
        ++ ((if tx.coinbase then 1 else 0)
            ∷ (u32_bytes (length tx.inputs)
                ++ (input_bytes tx.inputs
                    ++ (u32_bytes (length tx.outputs)
                        ++ (output_bytes tx.outputs ++ tail_bytes tx))))))

module _ (sha256 : Bytes → Bytes) where
  pub txid_of : Tx → Bytes
  txid_of tx = sha256 (canonical_tx tx)

  -- A whole level of the Merkle tree: the last id of an odd level is paired with itself.
  merkle_level : List Bytes → List Bytes
  merkle_level [] = []
  merkle_level (a ∷ []) = sha256 (a ++ a) ∷ []
  merkle_level (a ∷ b ∷ ids) = sha256 (a ++ b) ∷ merkle_level ids

  -- `while (ids.size() > 1)`: a level halves the ids, so as many rounds as there are ids are enough.
  merkle_loop : ℕ → List Bytes → Bytes
  merkle_loop rounds [] = replicate 32 0
  merkle_loop rounds (a ∷ []) = a
  merkle_loop zero (a ∷ b ∷ ids) = a
  merkle_loop (suc rounds) (a ∷ b ∷ ids) = merkle_loop rounds (merkle_level (a ∷ b ∷ ids))

  unfoldable pub merkle_root : List Bytes → Bytes
  unfolding merkle_loop merkle_level
  merkle_root ids = merkle_loop (length ids) ids
