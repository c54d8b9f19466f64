-- ===== src/Address.antt =====
-- The tests on names, addresses and identifiers: cpp/pisecured/src/chain_rpc.cpp (`fold_name`,
-- `valid_shortname`, `is_reserved_name`, `is_long_address`, `is_ps1_payout`, `pi_serial_text`,
-- `address_filename`) and cpp/pisecured/include/pisecured/flags.hpp (`flag_id_ok`, `hex64`).
pub mod Fold
mod Examples
use pi_secure.Prelude.{
  ltb, leb, ◌==◌, if◌then◌else◌, ltb→lt, lt→ltb, leb→le, ==_iff, Bool-cases, Option-cases, tests,
  length, get_elem?, set, length-append, length-set, get_elem?-set_self, get_elem?-set_ne, get_or,
  take, drop, replicate, take-append-drop, length-take, length-drop, length-replicate, length-map,
  take-append, drop-append, drop-suc-append, Bytes, codes, u64_mod, u64_max, u32_mod, All,
  All-append, All-append_left, All-append_right, IsByte, bytes_eq, bytes_eq_iff, bytes_eq_refl,
  ◌>>=◌, ◌>>◌, fail_if, is_ok, Result-cases, Reason, Result, ok, err, add64, sub64, mul64, sub_ℕ, ℤ,
  pos, negsuc, ℕ, zero, suc, ◌+◌, ◌-◌, ◌*◌, ◌/◌, ◌%◌, ◌^◌, ◌≤◌, ◌<◌, ◌≡◌, refl, sym, ap, subst, ◌∙◌,
  ◌≢◌, ◌↔◌, ◌⊎◌, inl, inr, Bool, true, false, not, ◌&&◌, ◌||◌, Option, none, some, List, [], ◌∷◌,
  ◌++◌, map, append-nil, append_assoc, arith, dec_lt, ℕ_discrete,
}

all_of : (ℕ → Bool) → Bytes → Bool
all_of p [] = true
all_of p (c ∷ s) = p c && all_of p s

abbrev between : ℕ → ℕ → ℕ → Bool
between lo hi c = leb lo c && leb c hi

is_upper : ℕ → Bool
is_upper c = between b'A' b'Z' c

is_alpha : ℕ → Bool
unfolding is_upper
is_alpha c = is_upper c || between b'a' b'z' c

is_name_char : ℕ → Bool
unfolding is_alpha
is_name_char c = is_alpha c || between b'0' b'9' c || c == b'_' || c == b'-'

is_lower_hex_char : ℕ → Bool
is_lower_hex_char c = between b'0' b'9' c || between b'a' b'f' c

is_hex_char : ℕ → Bool
unfolding is_lower_hex_char
is_hex_char c = is_lower_hex_char c || between b'A' b'F' c

lower_char : ℕ → ℕ
unfolding is_upper
lower_char c = if is_upper c then c - b'A' + b'a' else c

unfoldable pub fold_name : Bytes → Bytes
unfolding lower_char
fold_name [] = []
fold_name (c ∷ name) = lower_char c ∷ fold_name name

-- The test of `name[0]`, which is reached on a name of two characters or more.
starts_with_letter : Bytes → Bool
unfolding is_alpha
starts_with_letter [] = false
starts_with_letter (c ∷ s) = is_alpha c

unfoldable pub valid_shortname : Bytes → Bool
unfolding all_of is_name_char starts_with_letter
valid_shortname name =
    if ltb (length name) 2 || ltb 32 (length name)
    then false
    else starts_with_letter name && all_of is_name_char name

any_eq : Bytes → List Bytes → Bool
any_eq name [] = false
any_eq name (item ∷ items) = bytes_eq name item || any_eq name items

abbrev reserved : List Bytes
reserved =
    codes "foundation"
    ∷ codes "validator"
    ∷ codes "stakers"
    ∷ codes "loans"
    ∷ codes "genesis"
    ∷ codes "pisecure"
    ∷ codes "operator"
    ∷ []

unfoldable pub is_reserved_name : Bytes → Bool
unfolding any_eq fold_name bytes_eq
is_reserved_name name = any_eq (fold_name name) reserved

unfoldable pub is_long_address : Bytes → Bool
unfolding all_of is_lower_hex_char bytes_eq
is_long_address address =
    if not (length address == 67) || not (bytes_eq (take 3 address) (codes "ps1"))
    then false
    else all_of is_lower_hex_char (drop 3 address)

unfoldable pub is_ps1_payout : Bytes → Bool
unfolding fold_name is_long_address
is_ps1_payout address = if length address == 67 then is_long_address (fold_name address) else false

unfoldable pub pi_serial_text : Bytes → Bool
unfolding all_of is_hex_char
pi_serial_text serial =
    if length serial == 0 || ltb 64 (length serial)
    then false
    else all_of (λ c. not (c == 0) && is_hex_char c) serial

unfoldable pub address_filename : Bytes → Bool
unfolding all_of is_name_char
address_filename address =
    if length address == 0 || ltb 128 (length address)
    then false
    else all_of (λ c. is_name_char c || c == b'.') address

unfoldable pub flag_id_ok : Bytes → Bool
unfolding all_of is_name_char
flag_id_ok id = if length id == 0 || ltb 32 (length id) then false else all_of is_name_char id

unfoldable pub hex64 : Bytes → Bool
unfolding all_of is_hex_char
hex64 text = if length text == 64 then all_of is_hex_char text else false
