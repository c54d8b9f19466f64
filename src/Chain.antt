-- ===== src/Chain.antt =====
-- cpp/pisecured/src/chain_rpc.cpp: which of the stored blocks make the chain. `FoundBlock` is without
-- the JSON of the block, which the choice does not read; `by_hash`, a map that the source fills from
-- the list, is a search in the list.
pub mod Walk
pub mod Valid
pub mod Reach
pub mod Longest
mod Examples
use pi_secure.Prelude.{
  ltb, leb, ◌==◌, if◌then◌else◌, ltb→lt, lt→ltb, leb→le, ==_iff, Bool-cases, Option-cases, tests,
  length, get_elem?, set, length-append, length-set, get_elem?-set_self, get_elem?-set_ne, get_or,
  take, drop, replicate, take-append-drop, length-take, length-drop, length-replicate, length-map,
  take-append, drop-append, drop-suc-append, Bytes, codes, u64_mod, u64_max, u32_mod, All,
  All-append, All-append_left, All-append_right, IsByte, bytes_eq, bytes_eq_iff, bytes_eq_refl,
  fail_if, ◌>>=◌, is_ok, ◌>>◌, Result-cases, Reason, Result, ok, err, add64, sub64, mul64, sub_ℕ, ℤ,
  pos, negsuc, ℕ, zero, suc, ◌+◌, ◌-◌, ◌*◌, ◌/◌, ◌%◌, ◌^◌, ◌≤◌, ◌<◌, ◌≡◌, refl, sym, ap, ap₂, subst,
  ◌∙◌, ◌≢◌, ◌↔◌, ◌⊎◌, inl, inr, Bool, true, false, not, ◌&&◌, ◌||◌, Option, none, some, List, [],
  ◌∷◌, ◌++◌, map, append-nil, append_assoc, arith, dec_lt, ℕ_discrete,
}
use pi_secure.Hex.{is_zero}

pub record FoundBlock : Type 0 where
  pub index : ℕ
  pub height : ℕ
  pub prev : Bytes
  pub hash : Bytes

-- `it == by_hash.end() || found[i].index < found[it->second].index`
replaces : FoundBlock → Option FoundBlock → Bool
replaces b none = true
replaces b (some kept) = ltb b.index kept.index

-- The first loop, as the entry for `hash`: what is kept so far, and the blocks that follow.
by_hash_from : Bytes → List FoundBlock → Option FoundBlock → Option FoundBlock
unfolding replaces
by_hash_from hash [] kept = kept
by_hash_from hash (b ∷ found) kept =
    if bytes_eq b.hash hash && replaces b kept
    then by_hash_from hash found (some b)
    else by_hash_from hash found kept

pub by_hash : Bytes → List FoundBlock → Option FoundBlock
by_hash hash found = by_hash_from hash found none

-- The second loop: the blocks from `cursor` back to the one whose parent is the zero hash. The fuel
-- is the rounds that are left, and running out of it is the `return {}` of the last round.
pub walk : List FoundBlock → ℕ → Bytes → Option (List FoundBlock)
walk found zero cursor = none
walk found (suc guard) cursor = elim (by_hash cursor found) [
  | none ↦ none
  | some b ↦
      let rest = walk found guard b.prev in
      if is_zero b.prev
      then some (b ∷ [])
      else elim rest [ none ↦ none | some rev ↦ some (b ∷ rev) ]
]

abbrev pub zero_hash : Bytes
zero_hash = replicate 32 0

-- The third loop, over the blocks in the order of the chain.
pub is_numbered : ℕ → Bytes → List FoundBlock → Bool
is_numbered expect expect_prev [] = true
is_numbered expect expect_prev (b ∷ blocks) =
    b.height == expect
    && (bytes_eq b.prev expect_prev && is_numbered ((expect + 1) % u32_mod) b.hash blocks)

pub turn : List FoundBlock → List FoundBlock → List FoundBlock
turn [] chain = chain
turn (b ∷ rev) chain = turn rev (b ∷ chain)

pub numbered_or_none : List FoundBlock → List FoundBlock
numbered_or_none chain = if is_numbered 1 zero_hash chain then chain else []

pub chain_of_walk : Option (List FoundBlock) → List FoundBlock
chain_of_walk none = []
chain_of_walk (some rev) = numbered_or_none (turn rev [])

pub chain_ending_at : List FoundBlock → Bytes → List FoundBlock
chain_ending_at found tip = chain_of_walk (walk found (suc (length found)) tip)

pub last : List FoundBlock → Option FoundBlock
last [] = none
last (b ∷ []) = some b
last (b ∷ (c ∷ blocks)) = last (c ∷ blocks)

-- `chain.back().height` of a chain that is not empty and has as many blocks, else nothing.
pub tip_height : List FoundBlock → Option ℕ
tip_height chain = elim (last chain) [
  | none ↦ none
  | some b ↦ if b.height == length chain then some b.height else none
]

-- `best`, `best_height` and `best_index`.
pub record Best : Type 0 where
  pub block : FoundBlock
  pub best_height : ℕ

pub improves : FoundBlock → ℕ → Option Best → Bool
improves b height none = true
improves b height (some best) =
    ltb best.best_height height || (height == best.best_height && ltb b.index best.block.index)

-- The loop of `choose_longest_chain` over `rest`.
pub best_from : List FoundBlock → List FoundBlock → Option Best → Option Best
best_from found [] best = best
best_from found (b ∷ rest) best = elim (tip_height (chain_ending_at found b.hash)) [
  | none ↦ best_from found rest best
  | some height ↦
      if improves b height best
      then best_from found rest (some (record { block = b; best_height = height }))
      else best_from found rest best
]

pub chain_of_best : List FoundBlock → Option Best → List FoundBlock
chain_of_best found none = []
chain_of_best found (some best) = chain_ending_at found best.block.hash

pub choose_longest_chain : List FoundBlock → List FoundBlock
choose_longest_chain found = chain_of_best found (best_from found found none)
