-- ===== src/Chain/Longest.antt =====
-- The chain that is chosen is the longest.
use pi_secure.Prelude.{
  Bool-cases, Option-cases, length, Bytes, u32_mod, All, ℕ, zero, suc, ◌≤◌, ◌<◌, ◌≡◌, refl, ap, ◌∙◌,
  ◌⊎◌, inl, inr, true, false, Option, none, some, List, [], ◌∷◌, arith,
}
use pi_secure.Chain.{
  FoundBlock, Best, zero_hash, is_numbered, turn, numbered_or_none, chain_of_walk, chain_ending_at,
  last, tip_height, improves, best_from, chain_of_best, choose_longest_chain,
}
use pi_secure.Chain.Walk.{Holds}
use pi_secure.Chain.Valid.{IsLinked, chain_ending_at-IsLinked}
use pi_secure.Chain.Reach.{ChainTo, IsStore, ChainTo-length, length-turn, last-turn, walk_complete}

tip_height_of :
    (chain : List FoundBlock) (b : FoundBlock)
    → last chain ≡ some b
    → b.height ≡ length chain
    → tip_height chain ≡ some b.height
unfolding tip_height
tip_height_of chain b e h = ground arith

-- The chain to a block is found from its hash, with its number of blocks.
tip_height-ChainTo :
    (found : List FoundBlock) (hash : Bytes) (n : ℕ)
    → IsStore found
    → ChainTo found hash (suc n)
    → suc n < u32_mod
    → tip_height (chain_ending_at found hash) ≡ some (suc n)
unfolding chain_ending_at chain_of_walk numbered_or_none turn is_numbered last
tip_height-ChainTo found hash n store chain fits =
    let size = ChainTo-length found hash (suc n) chain in
    let w = walk_complete found n (suc (length found)) hash store chain (omega arith) fits in
    let blocks = turn w.before (w.tip ∷ []) in
    let all : is_numbered 1 zero_hash blocks ≡ true = w.numbered [] refl in
    let end : last blocks ≡ some w.tip = last-turn w.before w.tip [] in
    let len : w.tip.height ≡ length blocks =
      omega (arith, w.height_is, w.size, length-turn w.before (w.tip ∷ [])) in
    rw w.walked (rw all (tip_height_of blocks w.tip end len ∙ ap some w.height_is))

-- The height of the best chain so far.
abbrev level : Option Best → ℕ
level none = 0
level (some best) = best.best_height

abbrev IsBest : List FoundBlock → Option Best → Type 0
IsBest found none = Unit
IsBest found (some best) =
    tip_height (chain_ending_at found best.block.hash) ≡ some best.best_height

improves-level :
    (b : FoundBlock) (height : ℕ) (best : Option Best)
    → (improves b height best ≡ true) × (level best ≤ height)
      ⊎ (improves b height best ≡ false) × (height ≤ level best)
unfolding improves
improves-level b height none = inl (refl, omega arith)
improves-level b height (some best) = elim (Bool-cases (improves b height (some best))) [
  | inl e ↦ inl (e, ground arith)
  | inr e ↦ inr (e, ground arith)
]

best_from-skip :
    (found rest : List FoundBlock) (b : FoundBlock) (best : Option Best)
    → tip_height (chain_ending_at found b.hash) ≡ none
    → best_from found (b ∷ rest) best ≡ best_from found rest best
unfolding best_from
best_from-skip found rest b best e = ground arith

best_from-keep :
    (found rest : List FoundBlock) (b : FoundBlock) (best : Option Best) (height : ℕ)
    → tip_height (chain_ending_at found b.hash) ≡ some height
    → improves b height best ≡ false
    → best_from found (b ∷ rest) best ≡ best_from found rest best
unfolding best_from
best_from-keep found rest b best height e worse = ground arith

best_from-take :
    (found rest : List FoundBlock) (b : FoundBlock) (best : Option Best) (height : ℕ)
    → tip_height (chain_ending_at found b.hash) ≡ some height
    → improves b height best ≡ true
    → best_from found (b ∷ rest) best
      ≡ best_from found rest (some (record { block = b; best_height = height }))
unfolding best_from
best_from-take found rest b best height e better = ground arith

-- A round of the loop keeps the best chain or takes the chain of `b`, the higher of the two.
abbrev Round : List FoundBlock → List FoundBlock → FoundBlock → Option Best → Option Best → Type 0
Round found rest b best next =
    (best_from found (b ∷ rest) best ≡ best_from found rest next)
    × (level best ≤ level next)
    × ((height : ℕ) → tip_height (chain_ending_at found b.hash) ≡ some height → height ≤ level next)
    × (IsBest found best → IsBest found next)

best_from-Round :
    (found rest : List FoundBlock) (b : FoundBlock) (best : Option Best)
    → (next : Option Best) × Round found rest b best next
best_from-Round found rest b best =
    elim (Option-cases (tip_height (chain_ending_at found b.hash))) [
      | inl e ↦ (best, (best_from-skip found rest b best e, omega arith, λ height h. cc, λ is. is))
      | inr (height, e) ↦ elim (improves-level b height best) [
        | inl (better, le) ↦ (
          some (record { block = b; best_height = height }),
          (best_from-take found rest b best height e better, le, λ h eh. ground arith, λ is. e),
        )
        | inr (worse, le) ↦ (
          best,
          (
            best_from-keep found rest b best height e worse,
            omega arith,
            λ h eh. let same : height ≡ h = ground arith in omega (arith, le, same),
            λ is. is,
          ),
        )
      ]
    ]

best_from_sound :
    (found rest : List FoundBlock) (best : Option Best)
    → IsBest found best
    → IsBest found (best_from found rest best)
best_from_sound found [] best is = unfold best_from in is
best_from_sound found (b ∷ rest) best is =
    let (next, (same, up, reach, keep)) = best_from-Round found rest b best in
    rw same (best_from_sound found rest next (keep is))

best_from_mono :
    (found rest : List FoundBlock) (best : Option Best)
    → level best ≤ level (best_from found rest best)
best_from_mono found [] best = unfold best_from in omega arith
best_from_mono found (b ∷ rest) best =
    let (next, (same, up, reach, keep)) = best_from-Round found rest b best in
    rw same (omega (arith, best_from_mono found rest next, up))

best_from_max :
    (found rest : List FoundBlock) (best : Option Best) (b : FoundBlock) (height : ℕ)
    → Holds b rest
    → tip_height (chain_ending_at found b.hash) ≡ some height
    → height ≤ level (best_from found rest best)
best_from_max found [] best b height held h = absurd (held tt)
best_from_max found (x ∷ rest) best b height held h =
    let (next, (same, up, reach, keep)) = best_from-Round found rest x best in
    rw same (elim held [
      | inl this ↦ omega (arith, best_from_mono found rest next, reach height (rw this h))
      | inr later ↦ best_from_max found rest next b height later h
    ])

chosen :
    (found : List FoundBlock) (best : Option Best)
    → IsBest found best
    → IsLinked 1 zero_hash (chain_of_best found best)
      × All (λ b. Holds b found) (chain_of_best found best)
      × (length (chain_of_best found best) ≡ level best)
unfolding chain_of_best
chosen found none is = (tt, tt, refl)
chosen found (some best) is = chain_ending_at-IsLinked found best.block.hash best.best_height is

-- The chosen blocks are stored, and they are a chain: each names the one before it, the first names
-- the zero hash, and the heights count up from 1.
pub choose_longest_chain-IsLinked :
    (found : List FoundBlock)
    → IsLinked 1 zero_hash (choose_longest_chain found)
      × All (λ b. Holds b found) (choose_longest_chain found)
unfolding choose_longest_chain
choose_longest_chain-IsLinked found =
    let is = best_from_sound found found none tt in
    let (linked, held, size) = chosen found (best_from found found none) is in (linked, held)

-- Let stored blocks with one hash have one height and one parent, and none have the zero hash. No
-- chain of fewer than 2^32 stored blocks, from the zero hash on, is longer than the chosen one.
pub choose_longest_chain-IsLongest :
    (found : List FoundBlock) (hash : Bytes) (n : ℕ)
    → IsStore found
    → n < u32_mod
    → ChainTo found hash n
    → n ≤ length (choose_longest_chain found)
unfolding choose_longest_chain
choose_longest_chain-IsLongest found hash zero store fits chain = omega arith
choose_longest_chain-IsLongest found hash (suc n) store fits (b, held, at, height, parent) =
    let is = best_from_sound found found none tt in
    let (linked, all, size) = chosen found (best_from found found none) is in
    let own : ChainTo found b.hash (suc n) = (b, held, refl, height, parent) in
    let tip = tip_height-ChainTo found b.hash n store own fits in
    omega (arith, best_from_max found found none b (suc n) held tip, size)
