-- ===== src/Index.antt =====
-- cpp/pisecured/src/storage.cpp: the headers that are known and the active chain, and
-- cpp/pisecured/src/chain_rpc.cpp: the difficulty of the next block. The hash maps are association
-- lists with the newest entry in front. A file that cannot be written is a failure of `append_block`,
-- here the argument `appended`.
pub mod Tip
pub mod Next
pub mod Locator
mod Examples
use pi_secure.Prelude.{
  ltb, leb, ◌==◌, if◌then◌else◌, ltb→lt, lt→ltb, leb→le, ==_iff, Bool-cases, Option-cases, tests,
  length, get_elem?, set, length-append, length-set, get_elem?-set_self, get_elem?-set_ne,
  get_elem?-append_left, get_elem?-append_end, get_or, take, drop, replicate, take-append-drop,
  length-take, length-drop, length-replicate, length-map, take-append, drop-append, drop-suc-append,
  Bytes, codes, u64_mod, u64_max, u32_mod, All, All-append, All-append_left, All-append_right,
  IsByte, bytes_eq, bytes_eq_iff, bytes_eq_refl, fail_if, ◌>>=◌, is_ok, ◌>>◌, Result-cases, Reason,
  Result, ok, err, add64, sub64, mul64, sub_ℕ, ℤ, pos, negsuc, ℕ, zero, suc, ◌+◌, ◌-◌, ◌*◌, ◌/◌,
  ◌%◌, ◌^◌, ◌≤◌, ◌<◌, ◌≡◌, refl, sym, ap, ap₂, subst, ◌∙◌, ◌≢◌, ◌↔◌, ◌⊎◌, inl, inr, Bool, true,
  false, not, ◌&&◌, ◌||◌, Option, none, some, List, [], ◌∷◌, ◌++◌, map, append-nil, append_assoc,
  arith, dec_lt, ℕ_discrete,
}
use pi_secure.Retarget.{clamp_bits, retarget_difficulty_bits}

pub record BlockHeader : Type 0 where
  pub version : ℕ
  pub prev_block_hash : Bytes
  pub merkle_root : Bytes
  pub timestamp : ℕ
  pub difficulty : ℕ
  pub nonce : ℕ
  pub hash : Bytes
  pub height : ℕ

-- The members of `Storage` that this module reads.
pub record Index : Type 0 where
  pub next_index : ℕ
  pub hash_to_index : List (Bytes × ℕ)
  pub headers_cache : List (Bytes × BlockHeader)
  pub height_to_hash : List Bytes
  pub best_block_hash : Bytes
  pub best_height : ℕ

abbrev pub no_hash : Bytes
no_hash = replicate 32 0

unfoldable pub at_key {ℓ} : {A : Type ℓ} → Bytes → List (Bytes × A) → Option A
at_key key [] = none
at_key key ((k, a) ∷ entries) = if bytes_eq k key then some a else at_key key entries

-- `resize`, where it makes the vector longer.
pub resize : List Bytes → ℕ → List Bytes
resize hashes size = hashes ++ replicate (size - length hashes) no_hash

-- `height_to_hash_[height] = hash`, after the test that makes room.
pub put_height : List Bytes → ℕ → Bytes → List Bytes
unfolding resize
put_height hashes height hash =
    set (if leb (length hashes) height then resize hashes (height + 1) else hashes) height hash

pub store_block_with_header : Index → Bool → Bytes → BlockHeader → Option Index
unfolding put_height
store_block_with_header s appended hash header =
    let higher = ltb s.best_height header.height in
    if not appended
    then none
    else some (record {
      next_index = s.next_index + 1;
      hash_to_index = (hash, s.next_index) ∷ s.hash_to_index;
      headers_cache = (hash, header) ∷ s.headers_cache;
      height_to_hash = put_height s.height_to_hash header.height hash;
      best_block_hash = if higher then hash else s.best_block_hash;
      best_height = if higher then header.height else s.best_height;
    })

pub index_existing_block : Index → ℕ → BlockHeader → Option Index
unfolding put_height
index_existing_block s index header =
    let better = ltb s.best_height header.height || bytes_eq s.best_block_hash no_hash in
    if leb s.next_index index
    then none
    else some (record s {
      hash_to_index = (header.hash, index) ∷ s.hash_to_index;
      headers_cache = (header.hash, header) ∷ s.headers_cache;
      height_to_hash = put_height s.height_to_hash header.height header.hash;
      best_block_hash = if better then header.hash else s.best_block_hash;
      best_height = if better then header.height else s.best_height;
    })

-- `reset_active_chain`, less the unspent outputs and the mempool.
pub reset_active_chain : Index → Index
reset_active_chain s = record s { height_to_hash = []; best_block_hash = no_hash; best_height = 0 }

unfoldable pub get_header_by_hash : Index → Bytes → Option BlockHeader
get_header_by_hash s hash = at_key hash s.headers_cache

unfoldable pub get_header_by_height : Index → ℕ → Option BlockHeader
get_header_by_height s height = elim (get_elem? s.height_to_hash height) [
  | none ↦ none
  | some hash ↦ at_key hash s.headers_cache
]

pub block_index : Index → Bytes → Option ℕ
block_index s hash = at_key hash s.hash_to_index

pub has_tip : Index → Bool
has_tip s = not (length s.height_to_hash == 0)

pub tip_difficulty : Index → ℕ
tip_difficulty s =
    if length s.height_to_hash == 0
    then 0
    else elim (at_key s.best_block_hash s.headers_cache) [ none ↦ 0 | some h ↦ h.difficulty ]

pub push_found : Option Bytes → List Bytes → List Bytes
push_found none locator = locator
push_found (some hash) locator = locator ++ (hash ∷ [])

-- `if (height < height_to_hash_.size()) locator.push_back(...)`
pub push_hash : List Bytes → ℕ → List Bytes → List Bytes
push_hash hashes height locator = push_found (get_elem? hashes height) locator

-- The loop of `get_block_locator_hashes`. A round that goes on makes the height lower, so the height
-- is enough fuel.
pub locator_loop : ℕ → List Bytes → ℕ → ℕ → List Bytes → List Bytes
locator_loop zero hashes step height locator = locator
locator_loop (suc fuel) hashes step height locator =
    let pushed = push_hash hashes height locator in
    let doubled = if ltb 10 (length pushed) then step * 2 % u32_mod else step in
    let rest = locator_loop fuel hashes doubled (height - step) pushed in
    if ltb 0 height && ltb (length locator) 10
    then (if ltb height step then pushed else rest)
    else locator

pub get_block_locator_hashes : Index → List Bytes
get_block_locator_hashes s =
    push_hash s.height_to_hash 0 (locator_loop s.best_height s.height_to_hash 1 s.best_height [])

-- `validate_block_header`
follows : BlockHeader → BlockHeader → Bool
follows header prev =
    bytes_eq header.prev_block_hash prev.hash
    && (header.height == (prev.height + 1) % u32_mod && ltb prev.timestamp header.timestamp)

pub validate_block_header : BlockHeader → Option BlockHeader → Bool
unfolding follows
validate_block_header header none = not (header.timestamp == 0)
validate_block_header header (some prev) = not (header.timestamp == 0) && follows header prev

-- chain_rpc.hpp
abbrev pub initial_difficulty_bits : ℕ
initial_difficulty_bits = 4

abbrev pub difficulty_activation_height : ℕ
difficulty_activation_height = 1

abbrev pub min_difficulty_bits : ℕ
min_difficulty_bits = 2

abbrev pub max_difficulty_bits : ℕ
max_difficulty_bits = 4

abbrev pub target_block_seconds : ℕ
target_block_seconds = 60

pub clamp_difficulty : ℕ → ℕ
clamp_difficulty bits =
    if ltb bits min_difficulty_bits
    then min_difficulty_bits
    else if ltb max_difficulty_bits bits
    then max_difficulty_bits
    else bits

-- `tip_bits == 0 ? kInitialDifficultyBits : tip_bits`
pub known_bits : ℕ → ℕ
known_bits tip_bits = if tip_bits == 0 then initial_difficulty_bits else tip_bits

-- The end of `next_difficulty_legacy`.
pub legacy_step : ℕ → BlockHeader → BlockHeader → ℕ
legacy_step diff tip parent =
    let interval = tip.timestamp - parent.timestamp in
    if leb tip.timestamp parent.timestamp
    then diff
    else if ltb interval target_block_seconds && ltb diff max_difficulty_bits
    then diff + 1
    else if ltb target_block_seconds interval && ltb min_difficulty_bits diff
    then diff - 1
    else diff

legacy_at : Index → ℕ → BlockHeader → ℕ
legacy_at s diff tip =
    if ltb tip.height 2 then diff else elim (get_header_by_height s (tip.height - 1)) [
      | none ↦ diff
      | some parent ↦ legacy_step diff tip parent
    ]

pub next_difficulty_legacy : Index → ℕ
unfolding known_bits legacy_at
next_difficulty_legacy s =
    let diff = clamp_difficulty (known_bits (tip_difficulty s)) in
    if not (has_tip s)
    then initial_difficulty_bits
    else elim (get_header_by_hash s s.best_block_hash) [
      | none ↦ diff
      | some tip ↦ legacy_at s diff tip
    ]

-- `static_cast<int64_t>` of two timestamps, and their difference. A timestamp below 2^63 keeps its
-- value; the node refuses blocks from the future.
pub elapsed_between : BlockHeader → BlockHeader → ℤ
elapsed_between tip older = sub_ℕ tip.timestamp older.timestamp

window_at : Index → ℕ → BlockHeader → ℕ
window_at s bits tip =
    if ltb tip.height 10 then bits else elim (get_header_by_height s (tip.height - 9)) [
      | none ↦ bits
      | some older ↦ retarget_difficulty_bits bits (elapsed_between tip older)
    ]

pub next_difficulty_window : Index → ℕ
unfolding known_bits window_at
next_difficulty_window s =
    let bits = clamp_bits (known_bits (tip_difficulty s)) in
    if not (has_tip s)
    then initial_difficulty_bits
    else elim (get_header_by_hash s s.best_block_hash) [
      | none ↦ bits
      | some tip ↦ window_at s bits tip
    ]

pub next_difficulty : Index → ℕ
next_difficulty s =
    let next_height = if has_tip s then (s.best_height + 1) % u32_mod else 1 in
    if ltb next_height difficulty_activation_height
    then next_difficulty_legacy s
    else next_difficulty_window s
