-- ===== src/Chain/Examples.antt =====
-- Two linked blocks, stored in the reverse order, and an instance of the theorem on them.
use pi_secure.Prelude.{
  length, get_or, replicate, All, bytes_eq, ℕ, ◌≤◌, ◌≡◌, refl, sym, ap, ◌∙◌, ◌≢◌, ◌⊎◌, inl, inr,
  false, List, [], ◌∷◌, arith,
}
use pi_secure.Hex.{is_zero}
use pi_secure.Chain.{
  FoundBlock, by_hash, by_hash_from, walk, zero_hash, is_numbered, turn, numbered_or_none,
  chain_of_walk, chain_ending_at, last, tip_height, improves, best_from, chain_of_best,
  choose_longest_chain,
}
use pi_secure.Chain.Walk.{Holds}
use pi_secure.Chain.Valid.{IsLinked}
use pi_secure.Chain.Reach.{ChainTo, IsStore}
use pi_secure.Chain.Longest.{choose_longest_chain-IsLinked, choose_longest_chain-IsLongest}

abbrev first : FoundBlock
first = record { index = 1; height = 1; prev = zero_hash; hash = replicate 32 1 }

abbrev second : FoundBlock
second = record { index = 0; height = 2; prev = replicate 32 1; hash = replicate 32 2 }

abbrev stored : List FoundBlock
stored = second ∷ first ∷ []

chosen : choose_longest_chain stored ≡ first ∷ second ∷ []
unfolding choose_longest_chain chain_of_best best_from improves tip_height last chain_ending_at
    chain_of_walk numbered_or_none turn is_numbered walk by_hash by_hash_from bytes_eq is_zero
chosen = refl

which : (b : FoundBlock) → Holds b stored → (second ≡ b) ⊎ (first ≡ b)
which b (inl e) = inl e
which b (inr (inl e)) = inr e
which b (inr (inr held)) = absurd (held tt)

hashes_differ : first.hash ≢ second.hash
hashes_differ e = let heads : Path ℕ 1 2 = ap (λ s. get_or s 0 0) e in absurd (omega arith)

hash_of : {b c : FoundBlock} → b ≡ c → b.hash ≡ c.hash
hash_of e = ap (λ b. b.hash) e

stored_agree :
    (b c : FoundBlock)
    → Holds b stored
    → Holds c stored
    → b.hash ≡ c.hash
    → (b.height ≡ c.height) × (b.prev ≡ c.prev)
stored_agree b c hb hc e = elim (which b hb) [
  | inl eb ↦ elim (which c hc) [
    | inl ec ↦ rw (← eb, ← ec) (refl, refl)
    | inr ec ↦ absurd (hashes_differ (sym (hash_of eb ∙ e ∙ sym (hash_of ec))))
  ]
  | inr eb ↦ elim (which c hc) [
    | inl ec ↦ absurd (hashes_differ (hash_of eb ∙ e ∙ sym (hash_of ec)))
    | inr ec ↦ rw (← eb, ← ec) (refl, refl)
  ]
]

stored_nonzero : (b : FoundBlock) → Holds b stored → is_zero b.hash ≡ false
unfolding is_zero
stored_nonzero b held = elim (which b held) [ inl e ↦ rw (← e) refl | inr e ↦ rw (← e) refl ]

stored-IsStore : IsStore stored
stored-IsStore = record { agree = stored_agree; nonzero = stored_nonzero }

second-ChainTo : ChainTo stored second.hash 2
second-ChainTo = (second, inl refl, refl, refl, (first, inr (inl refl), refl, refl, refl))

choose_longest_chain-IsLinked_example :
    IsLinked 1 zero_hash (choose_longest_chain stored)
    × All (λ b. Holds b stored) (choose_longest_chain stored)
choose_longest_chain-IsLinked_example = choose_longest_chain-IsLinked stored

choose_longest_chain-IsLongest_example : 2 ≤ length (choose_longest_chain stored)
choose_longest_chain-IsLongest_example =
    choose_longest_chain-IsLongest stored second.hash 2 stored-IsStore (omega arith) second-ChainTo
