-- ===== src/Names.antt =====
-- cpp/pisecured/src/chain_rpc.cpp: the registry of short names. The registry is a list of records in
-- the order of their first registration; a record is changed in place.
pub mod Find
pub mod Registry
pub mod Unique
pub mod Resolve
mod Examples
use pi_secure.Prelude.{
  ltb, leb, ◌==◌, if◌then◌else◌, ltb→lt, lt→ltb, leb→le, ==_iff, Bool-cases, Option-cases, tests,
  length, get_elem?, set, length-append, length-set, get_elem?-set_self, get_elem?-set_ne, get_or,
  take, drop, replicate, take-append-drop, length-take, length-drop, length-replicate, length-map,
  take-append, drop-append, drop-suc-append, Bytes, codes, u64_mod, u64_max, u32_mod, All,
  All-append, All-append_left, All-append_right, IsByte, bytes_eq, bytes_eq_iff, bytes_eq_refl,
  fail_if, ◌>>=◌, is_ok, ◌>>◌, Result-cases, Reason, Result, ok, err, add64, sub64, mul64, sub_ℕ, ℤ,
  pos, negsuc, ℕ, zero, suc, ◌+◌, ◌-◌, ◌*◌, ◌/◌, ◌%◌, ◌^◌, ◌≤◌, ◌<◌, ◌≡◌, refl, sym, ap, ap₂, subst,
  ◌∙◌, ◌≢◌, ◌↔◌, ◌⊎◌, inl, inr, Bool, true, false, not, ◌&&◌, ◌||◌, Option, none, some, List, [],
  ◌∷◌, ◌++◌, map, append-nil, append_assoc, arith, dec_lt, ℕ_discrete,
}
use pi_secure.Prelude.Reason.{name_invalid, name_taken, wallet_required, unknown_shortname}
use pi_secure.Hex.{lower_hex}
use pi_secure.Address.{fold_name, valid_shortname, is_long_address, is_reserved_name}
use pi_secure.Tx.{Tx, TxOut, txid_of}

pub record NameRec : Type 0 where
  pub name : Bytes
  pub address : Bytes
  pub kind : Bytes
  pub txid : Bytes

-- The loop of `find_name_locked`, with the folded name.
pub find_folded : Bytes → List NameRec → Option NameRec
find_folded folded [] = none
find_folded folded (rec ∷ names) =
    if bytes_eq (fold_name rec.name) folded then some rec else find_folded folded names

-- `find_name_locked`
pub find_name : Bytes → List NameRec → Option NameRec
find_name name names = find_folded (fold_name name) names

-- `find_address_locked`
pub find_address : Bytes → List NameRec → Option NameRec
find_address address [] = none
find_address address (rec ∷ names) =
    if bytes_eq rec.address address then some rec else find_address address names

-- A change of the record that `find_name_locked` points at.
pub change_folded : Bytes → NameRec → List NameRec → List NameRec
change_folded folded changed [] = []
change_folded folded changed (rec ∷ names) =
    if bytes_eq (fold_name rec.name) folded
    then changed ∷ names
    else rec ∷ change_folded folded changed names

or_kept : Bytes → Bytes → Bytes
or_kept [] kept = kept
or_kept (c ∷ s) kept = c ∷ s

-- The record of a name that is registered again for the same address.
pub refreshed : NameRec → Bytes → Bytes → NameRec
unfolding or_kept
refreshed rec kind txid = record rec { kind = or_kept kind rec.kind; txid = or_kept txid rec.txid }

-- Whether the address already has another name.
pub has_other_name : Bytes → Bytes → List NameRec → Bool
has_other_name name address names = elim (find_address address names) [
  | none ↦ false
  | some rec ↦ not (bytes_eq (fold_name rec.name) (fold_name name))
]

-- From `find_name_locked(shown)` on.
pub remember_known : List NameRec → Bytes → Bytes → Bytes → Bytes → Bool → Result (List NameRec)
remember_known names name address kind txid overwrite = elim (find_name name names) [
  | some rec ↦
      if bytes_eq rec.address address
      then ok (change_folded (fold_name name) (refreshed rec kind txid) names)
      else if not overwrite
      then err name_taken
      else ok (
          change_folded (fold_name name)
            (record { name = name; address = address; kind = kind; txid = txid }) names)
  | none ↦ ok (names ++ (record { name = name; address = address; kind = kind; txid = txid } ∷ []))
]

pub remember_name : List NameRec → Bytes → Bytes → Bytes → Bytes → Bool → Result (List NameRec)
unfolding has_other_name
remember_name names name address kind txid overwrite =
    if not (valid_shortname name) || not (is_long_address address)
    then err name_invalid
    else if has_other_name name address names
    then err name_taken
    else remember_known names name address kind txid overwrite

-- What `lookup_name` writes: the address, the name and the kind.
pub lookup_name : Bytes → List NameRec → Option (Bytes × Bytes × Bytes)
lookup_name query names = elim (find_name query names) [
  | none ↦ none
  | some rec ↦ some (rec.address, rec.name, rec.kind)
]

-- What `lookup_ps1` writes: the name and the kind.
pub lookup_ps1 : Bytes → List NameRec → Option (Bytes × Bytes)
lookup_ps1 address names = elim (find_address address names) [
  | none ↦ none
  | some rec ↦ some (rec.name, rec.kind)
]

-- The long address in lower case.
abbrev pub lowered : Bytes → Bytes
lowered wallet = fold_name (take 3 wallet) ++ lower_hex (drop 3 wallet)

-- What `resolve_miner` does with a name.
resolve_name : List NameRec → Bytes → Result (Bytes × Bytes)
resolve_name names wallet =
    if not (valid_shortname wallet)
    then err unknown_shortname
    else elim (lookup_name wallet names) [
      | none ↦ err unknown_shortname
      | some (address, shown, kind) ↦ ok (shown, address)
    ]

-- `resolve_miner`: the name that is shown and the payout address.
pub resolve_miner : List NameRec → Bytes → Result (Bytes × Bytes)
unfolding resolve_name
resolve_miner names wallet =
    if length wallet == 0 || ltb 256 (length wallet)
    then err wallet_required
    else if length wallet == 67
        && (bytes_eq (fold_name (take 3 wallet)) (codes "ps1") && is_long_address (lowered wallet))
    then ok (lowered wallet, lowered wallet)
    else resolve_name names wallet

-- `absorb_name_record` on a row whose name and address are texts; `kind` and `txid` are the row's
-- fields, empty where they are missing.
row_address : Bytes → Bytes
row_address address =
    if is_long_address address then codes "ps1" ++ lower_hex (drop 3 address) else address

row_kind : Bytes → Bytes → Bytes
row_kind name kind =
    if bytes_eq kind (codes "reserved_bind")
    then codes "reserved_bind"
    else if is_reserved_name name
    then codes "reserved_bind"
    else codes "register"

or_unchanged : List NameRec → Result (List NameRec) → List NameRec
or_unchanged names (ok changed) = changed
or_unchanged names (err reason) = names

pub absorb_name_record : List NameRec → Bytes → Bytes → Bytes → Bytes → Bool → List NameRec
unfolding row_address row_kind or_unchanged
absorb_name_record names name address kind txid chain =
    or_unchanged names
      (remember_name names name (row_address address) (row_kind name kind) txid chain)

-- `resolve_output_names`: an output to a registered name pays that name's address, and the id is
-- computed again if an output changed.
resolve_outputs : List NameRec → List TxOut → List TxOut
resolve_outputs names [] = []
resolve_outputs names (out ∷ outputs) =
    let rest = resolve_outputs names outputs in
    elim (lookup_name out.address names) [
      | none ↦ out ∷ rest
      | some (address, shown, kind) ↦ record out { address = address } ∷ rest
    ]

any_changed : List NameRec → List TxOut → Bool
any_changed names [] = false
any_changed names (out ∷ outputs) =
    let rest = any_changed names outputs in
    elim (lookup_name out.address names) [
      | none ↦ rest
      | some (address, shown, kind) ↦ not (bytes_eq address out.address) || rest
    ]

module _ (sha256 : Bytes → Bytes) where
  pub resolve_output_names : List NameRec → Tx → Tx
  unfolding resolve_outputs any_changed
  resolve_output_names names tx =
      let resolved : Tx = record tx { outputs = resolve_outputs names tx.outputs } in
      if any_changed names tx.outputs
      then record resolved { txid = txid_of sha256 resolved }
      else resolved
