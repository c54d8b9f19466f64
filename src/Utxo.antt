-- ===== src/Utxo.antt =====
-- cpp/pisecured/src/storage.cpp: the set of unspent outputs. `std::map<std::string, UtxoRecord>` is a
-- list of entries in the order of the keys. `none` is the failure of the source, which changes nothing.
pub mod Key
pub mod Map
pub mod Apply
pub mod Value
pub mod Keeps
mod Examples
use pi_secure.Prelude.{
  ltb, leb, ◌==◌, if◌then◌else◌, ltb→lt, lt→ltb, leb→le, ==_iff, Bool-cases, Option-cases, tests,
  length, get_elem?, set, length-append, length-set, get_elem?-set_self, get_elem?-set_ne, get_or,
  take, drop, replicate, take-append-drop, length-take, length-drop, length-replicate, length-map,
  take-append, drop-append, drop-suc-append, Bytes, codes, u64_mod, u64_max, u32_mod, All,
  All-append, All-append_left, All-append_right, IsByte, bytes_eq, bytes_eq_iff, bytes_eq_refl,
  ◌>>=◌, ◌>>◌, fail_if, is_ok, Result-cases, Reason, Result, ok, err, add64, sub64, mul64, sub_ℕ, ℤ,
  pos, negsuc, ℕ, zero, suc, ◌+◌, ◌-◌, ◌*◌, ◌/◌, ◌%◌, ◌^◌, ◌≤◌, ◌<◌, ◌≡◌, refl, sym, ap, ap₂, subst,
  ◌∙◌, ◌≢◌, ◌↔◌, ◌⊎◌, inl, inr, Bool, true, false, not, ◌&&◌, ◌||◌, Option, none, some, List, [],
  ◌∷◌, ◌++◌, map, append-nil, append_assoc, arith, dec_lt, ℕ_discrete,
}
use pi_secure.Amount.{to_decimal}
use pi_secure.Hex.{to_hex}

pub record UtxoRecord : Type 0 where
  pub value : ℕ
  pub address : Bytes
  pub height : ℕ

abbrev pub Utxos : Type 0
Utxos = List (Bytes × UtxoRecord)

-- `Storage::UtxoSpend`
pub record UtxoSpend : Type 0 where
  pub txid : Bytes
  pub vout : ℕ

-- `Storage::UtxoCredit`
pub record UtxoCredit : Type 0 where
  pub txid : Bytes
  pub vout : ℕ
  pub value : ℕ
  pub address : Bytes
  pub height : ℕ

unfoldable pub utxo_key : Bytes → ℕ → Bytes
utxo_key txid vout = to_hex txid ++ (b':' ∷ to_decimal vout)

-- The order of `std::string`.
less : Bytes → Bytes → Bool
less s [] = false
less [] (b ∷ t) = true
less (a ∷ s) (b ∷ t) =
    let rest = less s t in if ltb a b then true else if a == b then rest else false

unfoldable pub lookup : Bytes → Utxos → Option UtxoRecord
lookup key [] = none
lookup key ((k, r) ∷ m) = let rest = lookup key m in if bytes_eq k key then some r else rest

unfoldable pub erase : Bytes → Utxos → Utxos
erase key [] = []
erase key ((k, r) ∷ m) = let rest = erase key m in if bytes_eq k key then rest else (k, r) ∷ rest

-- `utxo_[key] = record`: an entry with the key is replaced, another one is put in its place.
unfoldable pub put : Bytes → UtxoRecord → Utxos → Utxos
unfolding less
put key v [] = (key, v) ∷ []
put key v ((k, r) ∷ m) =
    let rest = put key v m in
    if bytes_eq k key
    then (key, v) ∷ m
    else if less key k
    then (key, v) ∷ (k, r) ∷ m
    else (k, r) ∷ rest

unfoldable pub utxo_lookup : Utxos → Bytes → ℕ → Option UtxoRecord
utxo_lookup m txid vout = lookup (utxo_key txid vout) m

pub utxo_available : Utxos → Bytes → ℕ → Option ℕ
utxo_available m txid vout = elim (lookup (utxo_key txid vout) m) [
  | none ↦ none
  | some r ↦ some r.value
]

pub utxo_address : Utxos → Bytes → ℕ → Option Bytes
utxo_address m txid vout = elim (lookup (utxo_key txid vout) m) [
  | none ↦ none
  | some r ↦ some r.address
]

is_present : Bytes → Utxos → Bool
is_present key m = elim (lookup key m) [ none ↦ false | some r ↦ true ]

abbrev pub spend_key : UtxoSpend → Bytes
spend_key s = utxo_key s.txid s.vout

abbrev pub credit_key : UtxoCredit → Bytes
credit_key c = utxo_key c.txid c.vout

abbrev pub credit_record : UtxoCredit → UtxoRecord
credit_record c = record { value = c.value; address = c.address; height = c.height }

-- The four loops of `apply_utxos`.
all_present : List UtxoSpend → Utxos → Bool
unfolding is_present
all_present [] m = true
all_present (s ∷ spends) m = is_present (spend_key s) m && all_present spends m

none_present : List UtxoCredit → Utxos → Bool
unfolding is_present
none_present [] m = true
none_present (c ∷ credits) m = not (is_present (credit_key c) m) && none_present credits m

unfoldable pub erase_all : List UtxoSpend → Utxos → Utxos
erase_all [] m = m
erase_all (s ∷ spends) m = erase_all spends (erase (spend_key s) m)

unfoldable pub put_all : List UtxoCredit → Utxos → Utxos
put_all [] m = m
put_all (c ∷ credits) m = put_all credits (put (credit_key c) (credit_record c) m)

unfoldable pub apply_utxos : List UtxoSpend → List UtxoCredit → Utxos → Option Utxos
unfolding all_present none_present
apply_utxos spends credits m =
    if not (all_present spends m)
    then none
    else if not (none_present credits m)
    then none
    else some (put_all credits (erase_all spends m))

-- `list_utxos`: the entries of an address, or all of them for the empty address. The row of the
-- source splits the key into its two parts again; here it keeps the key.
pub list_utxos : Bytes → Utxos → List (Bytes × UtxoRecord)
list_utxos address [] = []
list_utxos address ((k, r) ∷ m) =
    let rest = list_utxos address m in
    if not (length address == 0) && not (bytes_eq r.address address) then rest else (k, r) ∷ rest
