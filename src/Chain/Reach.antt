-- ===== src/Chain/Reach.antt =====
-- Every chain among the stored blocks is found by the walk from its last block.
use pi_secure.Prelude.{
  ltb, if◌then◌else◌, length, Bytes, u32_mod, bytes_eq_iff, ℕ, zero, suc, ◌+◌, ◌%◌, ◌≤◌, ◌<◌, ◌≡◌,
  refl, ◌∙◌, inl, inr, true, false, some, List, [], ◌∷◌, arith,
}
use pi_secure.Hex.{is_zero}
use pi_secure.Chain.{FoundBlock, by_hash, walk, zero_hash, is_numbered, turn, last}
use pi_secure.Chain.Walk.{Holds, by_hash_complete}

-- `n` stored blocks lead from the zero hash to `hash`, with heights 1 to `n`.
abbrev pub ChainTo : List FoundBlock → Bytes → ℕ → Type 0
ChainTo found hash zero = hash ≡ zero_hash
ChainTo found hash (suc n) =
    (b : FoundBlock) × Holds b found × (b.hash ≡ hash) × (b.height ≡ suc n) × ChainTo found b.prev n

-- Stored blocks with one hash have one height and one parent, and no block has the zero hash.
pub record IsStore (found : List FoundBlock) : Type 0 where
  pub agree :
      (b c : FoundBlock)
      → Holds b found
      → Holds c found
      → b.hash ≡ c.hash
      → (b.height ≡ c.height) × (b.prev ≡ c.prev)
  pub nonzero : (b : FoundBlock) → Holds b found → is_zero b.hash ≡ false

-- The blocks up to a height.
count_upto : ℕ → List FoundBlock → ℕ
count_upto n [] = 0
count_upto n (b ∷ found) = (if ltb n b.height then 0 else 1) + count_upto n found

count_upto_le : (n : ℕ) (found : List FoundBlock) → count_upto n found ≤ length found
unfolding count_upto
count_upto_le n [] = omega arith
count_upto_le n (b ∷ found) = ground (arith, count_upto_le n found)

count_upto_mono : (n : ℕ) (found : List FoundBlock) → count_upto n found ≤ count_upto (suc n) found
unfolding count_upto
count_upto_mono n [] = omega arith
count_upto_mono n (b ∷ found) = ground (arith, count_upto_mono n found)

count_upto_step :
    (n : ℕ) (found : List FoundBlock) (b : FoundBlock)
    → Holds b found
    → b.height ≡ suc n
    → suc (count_upto n found) ≤ count_upto (suc n) found
unfolding count_upto
count_upto_step n [] b held h = absurd (held tt)
count_upto_step n (x ∷ found) b held h = elim held [
  | inl this ↦ let height : x.height ≡ suc n = rw this h in ground (arith, count_upto_mono n found)
  | inr later ↦ ground (arith, count_upto_step n found b later h)
]

chain_count :
    (found : List FoundBlock) (hash : Bytes) (n : ℕ) → ChainTo found hash n → n ≤ count_upto n found
chain_count found hash zero c = omega arith
chain_count found hash (suc n) (b, held, at, height, rest) =
    omega (arith, chain_count found b.prev n rest, count_upto_step n found b held height)

-- A chain has no more blocks than are stored.
pub ChainTo-length :
    (found : List FoundBlock) (hash : Bytes) (n : ℕ) → ChainTo found hash n → n ≤ length found
ChainTo-length found hash n c = omega (arith, chain_count found hash n c, count_upto_le n found)

pub length-turn :
    (rev chain : List FoundBlock) → length (turn rev chain) ≡ length rev + length chain
unfolding turn
length-turn [] chain = omega arith
length-turn (b ∷ rev) chain = omega (arith, length-turn rev (b ∷ chain))

pub last-turn :
    (rev : List FoundBlock) (b : FoundBlock) (chain : List FoundBlock)
    → last (turn rev (b ∷ chain)) ≡ last (b ∷ chain)
unfolding turn last
last-turn [] b chain = refl
last-turn (x ∷ rev) b chain = last-turn rev x (b ∷ chain)

-- What the walk found: the last block, the blocks before it, and their numbering up to `next`.
pub record Walked (found : List FoundBlock) (guard : ℕ) (hash : Bytes) (n : ℕ) : Type 0 where
  pub tip : FoundBlock
  pub before : List FoundBlock
  pub walked : walk found guard hash ≡ some (tip ∷ before)
  pub height_is : tip.height ≡ suc n
  pub size : length before ≡ n
  pub numbered :
      (chain : List FoundBlock)
      → is_numbered ((suc n + 1) % u32_mod) hash chain ≡ true
      → is_numbered 1 zero_hash (turn before (tip ∷ chain)) ≡ true

walk_first :
    (found : List FoundBlock) (guard : ℕ) (cursor : Bytes) (c : FoundBlock)
    → by_hash cursor found ≡ some c
    → is_zero c.prev ≡ true
    → walk found (suc guard) cursor ≡ some (c ∷ [])
unfolding walk
walk_first found guard cursor c entry z = ground arith

walk_more :
    (found : List FoundBlock) (guard : ℕ) (cursor : Bytes) (c : FoundBlock) (rev : List FoundBlock)
    → by_hash cursor found ≡ some c
    → is_zero c.prev ≡ false
    → walk found guard c.prev ≡ some rev
    → walk found (suc guard) cursor ≡ some (c ∷ rev)
unfolding walk
walk_more found guard cursor c rev entry z rest = ground arith

is_numbered-cons :
    (height : ℕ) (prev : Bytes) (c : FoundBlock) (chain : List FoundBlock)
    → c.height ≡ height
    → c.prev ≡ prev
    → is_numbered ((height + 1) % u32_mod) c.hash chain ≡ true
    → is_numbered height prev (c ∷ chain) ≡ true
unfolding is_numbered
is_numbered-cons height prev c chain h p rest = ground (arith, bytes_eq_iff c.prev prev)

pub walk_complete :
    (found : List FoundBlock) (n guard : ℕ) (hash : Bytes)
    → IsStore found
    → ChainTo found hash (suc n)
    → suc n ≤ guard
    → suc n < u32_mod
    → Walked found guard hash n
unfolding turn is_zero
walk_complete found n zero hash store chain fuel fits = absurd (omega arith)
walk_complete found zero (suc guard) hash store (b, held, at, height, parent) fuel fits =
    let (c, there, held', same) = by_hash_complete found b held in
    let (heights, parents) = store.agree c b held' held same in
    let prev : c.prev ≡ zero_hash = parents ∙ parent in
    let entry : by_hash hash found ≡ some c = rw (← at) there in
    record {
      tip = c;
      before = [];
      walked = walk_first found guard hash c entry (rw prev refl);
      height_is = heights ∙ height;
      size = refl;
      numbered = λ chain rest.
          is_numbered-cons 1 zero_hash c chain (heights ∙ height) prev (rw (same ∙ at) rest);
    }
walk_complete found (suc n) (suc guard) hash store (b, held, at, height, parent) fuel fits =
    let (c, there, held', same) = by_hash_complete found b held in
    let (heights, parents) = store.agree c b held' held same in
    let entry : by_hash hash found ≡ some c = rw (← at) there in
    let (b', held_b, at_b, height_b, parent_b) = parent in
    let inner : is_zero c.prev ≡ false = rw (parents, ← at_b) (store.nonzero b' held_b) in
    let ih = walk_complete found n guard b.prev store parent (omega arith) (omega arith) in
    let rest : walk found guard c.prev ≡ some (ih.tip ∷ ih.before) = rw parents ih.walked in
    record {
      tip = c;
      before = ih.tip ∷ ih.before;
      walked = walk_more found guard hash c (ih.tip ∷ ih.before) entry inner rest;
      height_is = heights ∙ height;
      size = omega (arith, ih.size);
      numbered = λ chain above.
          let number : c.height ≡ (suc n + 1) % u32_mod = omega (arith, heights, height) in
          let next : ((suc n + 1) % u32_mod + 1) % u32_mod ≡ (suc (suc n) + 1) % u32_mod =
            omega arith in
          ih.numbered (c ∷ chain) (
            is_numbered-cons ((suc n + 1) % u32_mod) b.prev c chain number parents
              (rw (next, same ∙ at) above));
    }
