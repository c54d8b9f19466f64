-- ===== src/Index/Tip.antt =====
-- A stored block is found again, and a block above the tip becomes the tip.
use pi_secure.Prelude.{
  leb, Bool-cases, Option-cases, length, get_elem?, length-append, get_elem?-set_self,
  get_elem?-set_ne, get_elem?-append_left, replicate, length-replicate, Bytes, u32_mod, bytes_eq,
  bytes_eq_iff, bytes_eq_refl, ℕ, ◌+◌, ◌-◌, ◌%◌, ◌≤◌, ◌<◌, ◌≡◌, refl, sym, ap, ◌∙◌, ◌≢◌, inl, inr,
  Bool, true, false, none, some, List, ◌∷◌, ◌++◌, arith, dec_lt,
}
use pi_secure.Index.{
  Index, BlockHeader, at_key, resize, put_height, store_block_with_header, get_header_by_hash,
  get_header_by_height, block_index, no_hash, validate_block_header,
}

at_key-front {ℓ} :
    {A : Type ℓ} (key : Bytes) (a : A) (entries : List (Bytes × A))
    → at_key key ((key, a) ∷ entries) ≡ some a
unfolding at_key
at_key-front key a entries = rw (bytes_eq_refl key) refl

at_key-kept {ℓ} :
    {A : Type ℓ} (key new : Bytes) (a b : A) (entries : List (Bytes × A))
    → at_key new entries ≡ none
    → at_key key entries ≡ some b
    → at_key key ((new, a) ∷ entries) ≡ some b
unfolding at_key
at_key-kept key new a b entries fresh h = elim (Bool-cases (bytes_eq new key)) [
  | inr other ↦ rw other h
  | inl same ↦
      let e = (bytes_eq_iff new key).0 same in
      let clash : none ≡ some b = sym fresh ∙ ap (λ k. at_key k entries) e ∙ h in cc
]

get_elem?-put_height_self :
    (hashes : List Bytes) (height : ℕ) (hash : Bytes)
    → get_elem? (put_height hashes height hash) height ≡ some hash
unfolding put_height resize
get_elem?-put_height_self hashes height hash = elim (dec_lt height (length hashes)) [
  | yes below ↦
      let keep : leb (length hashes) height ≡ false = ground arith in
      rw keep (get_elem?-set_self hashes height hash below)
  | no above ↦
      let grow : leb (length hashes) height ≡ true = ground arith in
      let more = replicate (height + 1 - length hashes) no_hash in
      rw grow (
        get_elem?-set_self (hashes ++ more) height hash (
          omega (
            arith,
            length-append hashes more,
            length-replicate (height + 1 - length hashes) no_hash,
          )))
]

get_elem?-put_height_ne :
    (hashes : List Bytes) (height j : ℕ) (hash x : Bytes)
    → height ≢ j
    → get_elem? hashes j ≡ some x
    → get_elem? (put_height hashes height hash) j ≡ some x
unfolding put_height resize
get_elem?-put_height_ne hashes height j hash x ne h =
    elim (Bool-cases (leb (length hashes) height)) [
      | inl grow ↦
          let more = replicate (height + 1 - length hashes) no_hash in
          rw grow
            (get_elem?-set_ne (hashes ++ more) hash ne ∙ get_elem?-append_left hashes more j x h)
      | inr keep ↦ rw keep (get_elem?-set_ne hashes hash ne ∙ h)
    ]

header_at :
    (s : Index) (j : ℕ) (hash : Bytes) (header : BlockHeader)
    → get_elem? s.height_to_hash j ≡ some hash
    → at_key hash s.headers_cache ≡ some header
    → get_header_by_height s j ≡ some header
unfolding get_header_by_height
header_at s j hash header at known = ground arith

header_of :
    (s : Index) (j : ℕ) (header : BlockHeader)
    → get_header_by_height s j ≡ some header
    → (hash : Bytes) × (get_elem? s.height_to_hash j ≡ some hash)
      × (at_key hash s.headers_cache ≡ some header)
unfolding get_header_by_height
header_of s j header h = elim (Option-cases (get_elem? s.height_to_hash j)) [
  | inl e ↦ ground arith
  | inr (hash, e) ↦ (hash, e, ground arith)
]

-- What storing a block leaves of it.
pub record IsStored (s after : Index) (hash : Bytes) (header : BlockHeader) : Type 0 where
  pub by_hash : get_header_by_hash after hash ≡ some header
  pub by_height : get_header_by_height after header.height ≡ some header
  pub frame : block_index after hash ≡ some s.next_index
  pub counted : after.next_index ≡ s.next_index + 1
  pub tip :
      s.best_height < header.height
      → (after.best_block_hash ≡ hash) × (after.best_height ≡ header.height)
  pub below :
      header.height ≤ s.best_height
      → (after.best_block_hash ≡ s.best_block_hash) × (after.best_height ≡ s.best_height)

-- A stored block is found by its hash, by its height and in the next frame. It is the tip if it is
-- above the old tip, and else the tip stays.
pub store_block_with_header-IsStored :
    (s : Index) (appended : Bool) (hash : Bytes) (header : BlockHeader) (after : Index)
    → store_block_with_header s appended hash header ≡ some after
    → IsStored s after hash header
unfolding store_block_with_header get_header_by_hash block_index
store_block_with_header-IsStored s false hash header after h = cc
store_block_with_header-IsStored s true hash header after h =
    let cache = (hash, header) ∷ s.headers_cache in
    let cached : after.headers_cache ≡ cache = ground arith in
    let frames : after.hash_to_index ≡ (hash, s.next_index) ∷ s.hash_to_index = ground arith in
    let heights : after.height_to_hash ≡ put_height s.height_to_hash header.height hash =
      ground arith in
    let own = get_elem?-put_height_self s.height_to_hash header.height hash in
    record {
      by_hash = rw cached (at_key-front hash header s.headers_cache);
      by_height =
          header_at after header.height hash header (rw heights own)
            (rw cached (at_key-front hash header s.headers_cache));
      frame = rw frames (at_key-front hash s.next_index s.hash_to_index);
      counted = ground arith;
      tip = λ above. ground arith;
      below = λ under. ground arith;
    }

-- Storing a block whose hash is new leaves the headers that are known at the other heights as they
-- were.
pub store_block_with_header_keeps :
    (s : Index) (appended : Bool) (hash : Bytes) (header : BlockHeader) (after : Index) (j : ℕ)
    (kept : BlockHeader)
    → store_block_with_header s appended hash header ≡ some after
    → get_header_by_hash s hash ≡ none
    → header.height ≢ j
    → get_header_by_height s j ≡ some kept
    → get_header_by_height after j ≡ some kept
unfolding store_block_with_header get_header_by_hash
store_block_with_header_keeps s false hash header after j kept h fresh ne there = cc
store_block_with_header_keeps s true hash header after j kept h fresh ne there =
    let cached : after.headers_cache ≡ (hash, header) ∷ s.headers_cache = ground arith in
    let heights : after.height_to_hash ≡ put_height s.height_to_hash header.height hash =
      ground arith in
    let (x, e, old) = header_of s j kept there in
    let other = get_elem?-put_height_ne s.height_to_hash header.height j hash x ne e in
    header_at after j x kept (rw heights other)
      (rw cached (at_key-kept x hash header kept s.headers_cache fresh old))

-- A block that is appended is stored.
pub store_block_with_header_appended :
    (s : Index) (hash : Bytes) (header : BlockHeader)
    → (after : Index) × (store_block_with_header s true hash header ≡ some after)
unfolding store_block_with_header
store_block_with_header_appended s hash header = (_, refl)

-- A header that follows another, at the next height and at a later time, is valid.
pub validate_block_header_follows :
    (header prev : BlockHeader)
    → header.prev_block_hash ≡ prev.hash
    → header.height ≡ (prev.height + 1) % u32_mod
    → prev.timestamp < header.timestamp
    → validate_block_header header (some prev) ≡ true
unfolding validate_block_header
validate_block_header_follows header prev link up later =
    let linked : bytes_eq header.prev_block_hash prev.hash ≡ true = (bytes_eq_iff _ _).1 link in
    ground arith
