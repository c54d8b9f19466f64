-- ===== src/Index/Examples.antt =====
-- A chain of one block takes a second, and the rules for the difficulty on it.
use pi_secure.Index.Locator.{get_block_locator_hashes-downwards}
use pi_secure.Prelude.{
  replicate, bytes_eq, ℕ, ◌+◌, ◌≤◌, ◌≡◌, refl, true, none, some, [], ◌∷◌, arith,
}
use pi_secure.Index.{
  Index, BlockHeader, at_key, resize, put_height, store_block_with_header, get_header_by_hash,
  get_header_by_height, has_tip, no_hash, next_difficulty, get_block_locator_hashes,
}
use pi_secure.Index.Tip.{IsStored, store_block_with_header-IsStored}
use pi_secure.Index.Next.{tip_bits, next_difficulty_step, next_difficulty_on_pace}

abbrev block : ℕ → ℕ → BlockHeader
block height timestamp = record {
  version = 1;
  prev_block_hash = no_hash;
  merkle_root = no_hash;
  timestamp = timestamp;
  difficulty = 4;
  nonce = 0;
  hash = replicate 32 height;
  height = height;
}

abbrev one_block : Index
one_block = record {
  next_index = 1;
  hash_to_index = (replicate 32 1, 0) ∷ [];
  headers_cache = (replicate 32 1, block 1 100) ∷ [];
  height_to_hash = no_hash ∷ replicate 32 1 ∷ [];
  best_block_hash = replicate 32 1;
  best_height = 1;
}

abbrev two_blocks : Index
two_blocks = record {
  next_index = 2;
  hash_to_index = (replicate 32 2, 1) ∷ (replicate 32 1, 0) ∷ [];
  headers_cache = (replicate 32 2, block 2 160) ∷ (replicate 32 1, block 1 100) ∷ [];
  height_to_hash = no_hash ∷ replicate 32 1 ∷ replicate 32 2 ∷ [];
  best_block_hash = replicate 32 2;
  best_height = 2;
}

stored : store_block_with_header one_block true (replicate 32 2) (block 2 160) ≡ some two_blocks
unfolding store_block_with_header put_height resize
stored = refl

second_block_there : IsStored one_block two_blocks (replicate 32 2) (block 2 160)
second_block_there =
    store_block_with_header-IsStored one_block true (replicate 32 2) (block 2 160) two_blocks stored

new_hash : get_header_by_hash one_block (replicate 32 2) ≡ none
unfolding get_header_by_hash at_key bytes_eq
new_hash = refl

first_there : get_header_by_height one_block 1 ≡ some (block 1 100)
unfolding get_header_by_height at_key bytes_eq
first_there = refl

tipped : has_tip two_blocks ≡ true
unfolding has_tip
tipped = refl

step_of_two :
    (2 ≤ next_difficulty two_blocks)
    × (next_difficulty two_blocks ≤ 24)
    × (next_difficulty two_blocks ≤ tip_bits two_blocks + 2)
    × (tip_bits two_blocks ≤ next_difficulty two_blocks + 2)
step_of_two = next_difficulty_step two_blocks tipped (omega arith)

-- The tenth block, 540 seconds after the first.
abbrev ten_blocks : Index
ten_blocks = record two_blocks {
  headers_cache = (replicate 32 10, block 10 640) ∷ (replicate 32 1, block 1 100) ∷ [];
  best_block_hash = replicate 32 10;
  best_height = 10;
}

tip_there : get_header_by_hash ten_blocks (replicate 32 10) ≡ some (block 10 640)
unfolding get_header_by_hash at_key bytes_eq
tip_there = refl

older_there : get_header_by_height ten_blocks 1 ≡ some (block 1 100)
unfolding get_header_by_height at_key bytes_eq
older_there = refl

ten_tipped : has_tip ten_blocks ≡ true
unfolding has_tip
ten_tipped = refl

on_pace : next_difficulty ten_blocks ≡ tip_bits ten_blocks
on_pace =
    next_difficulty_on_pace ten_blocks (block 10 640) (block 1 100) ten_tipped (omega arith)
      tip_there (omega arith) older_there (omega arith)

get_block_locator_hashes-downwards_example :
    get_block_locator_hashes two_blocks ≡ replicate 32 2 ∷ replicate 32 1 ∷ no_hash ∷ []
get_block_locator_hashes-downwards_example =
    get_block_locator_hashes-downwards two_blocks (omega arith)
