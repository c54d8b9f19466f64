-- ===== src/Chain/Valid.antt =====
-- A chain that is chosen is one: from the zero hash on, each block names the one before it, and the
-- heights are 1, 2, 3 and so on.
use pi_secure.Prelude.{
  Bool-cases, Option-cases, length, Bytes, u32_mod, All, bytes_eq_iff, ℕ, suc, ◌+◌, ◌%◌, ◌≤◌, ◌<◌,
  ◌≡◌, refl, inl, inr, true, Option, none, some, List, [], ◌∷◌, arith,
}
use pi_secure.Chain.{
  FoundBlock, walk, zero_hash, is_numbered, turn, numbered_or_none, chain_of_walk, chain_ending_at,
  chain_of_walk, last, tip_height,
}
use pi_secure.Chain.Walk.{Holds, walk_sound}

abbrev pub IsLinked : ℕ → Bytes → List FoundBlock → Type 0
IsLinked height prev [] = Unit
IsLinked height prev (b ∷ blocks) =
    (b.height ≡ height) × (b.prev ≡ prev) × IsLinked (suc height) b.hash blocks

is_numbered-IsLinked :
    (height : ℕ) (prev : Bytes) (blocks : List FoundBlock)
    → height + length blocks ≤ u32_mod
    → is_numbered height prev blocks ≡ true
    → IsLinked height prev blocks
unfolding is_numbered
is_numbered-IsLinked height prev [] fits h = tt
is_numbered-IsLinked height prev (b ∷ []) fits h =
    (ground arith, (bytes_eq_iff b.prev prev).0 (ground arith), tt)
is_numbered-IsLinked height prev (b ∷ (c ∷ blocks)) fits h =
    let next : (height + 1) % u32_mod ≡ suc height = omega arith in
    let rest : is_numbered ((height + 1) % u32_mod) b.hash (c ∷ blocks) ≡ true = ground arith in
    (
      ground arith,
      (bytes_eq_iff b.prev prev).0 (ground arith),
      is_numbered-IsLinked (suc height) b.hash (c ∷ blocks) (omega arith) (rw next at rest),
    )

last_small :
    (height : ℕ) (prev : Bytes) (blocks : List FoundBlock) (b : FoundBlock)
    → height < u32_mod
    → is_numbered height prev blocks ≡ true
    → last blocks ≡ some b
    → b.height < u32_mod
unfolding is_numbered last
last_small height prev [] b fits h e = cc
last_small height prev (x ∷ []) b fits h e =
    let same : x ≡ b = ground arith in
    let at : x.height ≡ height = ground arith in rw (← same) (omega arith)
last_small height prev (x ∷ (y ∷ blocks)) b fits h e =
    last_small ((height + 1) % u32_mod) x.hash (y ∷ blocks) b (omega arith) (ground arith) e

turn-All :
    (P : FoundBlock → Type 0) (rev chain : List FoundBlock)
    → All P rev
    → All P chain
    → All P (turn rev chain)
unfolding turn
turn-All P [] chain a b = b
turn-All P (x ∷ rev) chain (px, a) b = turn-All P rev (x ∷ chain) a (px, b)

numbered_or_none_sound :
    (P : FoundBlock → Type 0) (chain : List FoundBlock)
    → All P chain
    → (is_numbered 1 zero_hash (numbered_or_none chain) ≡ true) × All P (numbered_or_none chain)
unfolding numbered_or_none is_numbered
numbered_or_none_sound P chain a = elim (Bool-cases (is_numbered 1 zero_hash chain)) [
  | inl e ↦ rw e (e, a)
  | inr e ↦ rw e (refl, tt)
]

chain_of_walk_sound :
    (P : FoundBlock → Type 0) (o : Option (List FoundBlock))
    → ((rev : List FoundBlock) → o ≡ some rev → All P rev)
    → (is_numbered 1 zero_hash (chain_of_walk o) ≡ true) × All P (chain_of_walk o)
unfolding chain_of_walk is_numbered
chain_of_walk_sound P none a = (refl, tt)
chain_of_walk_sound P (some rev) a =
    numbered_or_none_sound P (turn rev []) (turn-All P rev [] (a rev refl) tt)

chain_ending_at_sound :
    (found : List FoundBlock) (tip : Bytes)
    → (is_numbered 1 zero_hash (chain_ending_at found tip) ≡ true)
      × All (λ b. Holds b found) (chain_ending_at found tip)
unfolding chain_ending_at
chain_ending_at_sound found tip =
    chain_of_walk_sound (λ b. Holds b found) (walk found (suc (length found)) tip)
      (walk_sound found (suc (length found)) tip)

-- A chain whose last height is its length.
pub chain_ending_at-IsLinked :
    (found : List FoundBlock) (tip : Bytes) (height : ℕ)
    → tip_height (chain_ending_at found tip) ≡ some height
    → IsLinked 1 zero_hash (chain_ending_at found tip)
      × All (λ b. Holds b found) (chain_ending_at found tip)
      × (length (chain_ending_at found tip) ≡ height)
unfolding tip_height
chain_ending_at-IsLinked found tip height h =
    let chain = chain_ending_at found tip in
    let (numbered, held) = chain_ending_at_sound found tip in
    elim (Option-cases (last chain)) [
      | inl e ↦ ground arith
      | inr (b, e) ↦
          let small = last_small 1 zero_hash chain b (omega arith) numbered e in
          let size : b.height ≡ length chain = ground arith in
          let height_is : b.height ≡ height = ground arith in
          (is_numbered-IsLinked 1 zero_hash chain (omega arith) numbered, held, omega arith)
    ]
