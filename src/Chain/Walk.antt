-- ===== src/Chain/Walk.antt =====
-- The walk from a block back to the zero hash, and what it finds.
use pi_secure.Prelude.{
  ltb, Bool-cases, Option-cases, Bytes, All, bytes_eq, bytes_eq_iff, bytes_eq_refl, ℕ, zero, suc,
  ◌≡◌, ◌≢◌, ◌⊎◌, inl, inr, ◌&&◌, Option, none, some, List, [], ◌∷◌, arith,
}
use pi_secure.Hex.{is_zero}
use pi_secure.Chain.{FoundBlock, replaces, by_hash_from, by_hash, walk}

abbrev pub Holds : FoundBlock → List FoundBlock → Type 0
Holds b [] = ¬ Unit {0}
Holds b (x ∷ found) = (x ≡ b) ⊎ Holds b found

by_hash_from_sound :
    (hash : Bytes) (found : List FoundBlock) (kept : Option FoundBlock) (b : FoundBlock)
    → by_hash_from hash found kept ≡ some b
    → (kept ≡ some b) ⊎ (Holds b found × (b.hash ≡ hash))
unfolding by_hash_from
by_hash_from_sound hash [] kept b h = inl h
by_hash_from_sound hash (x ∷ found) kept b h =
    elim (Bool-cases (bytes_eq x.hash hash && replaces x kept)) [
      | inl e ↦ elim (by_hash_from_sound hash found (some x) b (rw e at h)) [
        | inl this ↦
            let same : x ≡ b = ground arith in
            inr (inl same, rw (← same) ((bytes_eq_iff x.hash hash).0 (ground arith)))
        | inr (later, at) ↦ inr (inr later, at)
      ]
      | inr e ↦ elim (by_hash_from_sound hash found kept b (rw e at h)) [
        | inl old ↦ inl old
        | inr (later, at) ↦ inr (inr later, at)
      ]
    ]

pub by_hash_sound :
    (hash : Bytes) (found : List FoundBlock) (b : FoundBlock)
    → by_hash hash found ≡ some b
    → Holds b found × (b.hash ≡ hash)
unfolding by_hash
by_hash_sound hash found b h = elim (by_hash_from_sound hash found none b h) [
  | inl none_kept ↦ cc
  | inr held ↦ held
]

by_hash_from_kept :
    (hash : Bytes) (found : List FoundBlock) (b : FoundBlock)
    → by_hash_from hash found (some b) ≢ none
unfolding by_hash_from
by_hash_from_kept hash [] b = λ e. cc
by_hash_from_kept hash (x ∷ found) b =
    elim (Bool-cases (bytes_eq x.hash hash && replaces x (some b))) [
      | inl e ↦ rw e (by_hash_from_kept hash found x)
      | inr e ↦ rw e (by_hash_from_kept hash found b)
    ]

by_hash_from_complete :
    (found : List FoundBlock) (kept : Option FoundBlock) (b : FoundBlock)
    → Holds b found
    → by_hash_from b.hash found kept ≢ none
unfolding by_hash_from replaces
by_hash_from_complete [] kept b held = absurd (held tt)
by_hash_from_complete (x ∷ found) none b held = elim (Bool-cases (bytes_eq x.hash b.hash)) [
  | inl e ↦ rw e (by_hash_from_kept b.hash found x)
  | inr e ↦ elim held [
    | inl this ↦ λ n. ground (arith, bytes_eq_refl b.hash)
    | inr later ↦ rw e (by_hash_from_complete found none b later)
  ]
]
by_hash_from_complete (x ∷ found) (some kept) b held =
    elim (Bool-cases (bytes_eq x.hash b.hash && ltb x.index kept.index)) [
      | inl e ↦ rw e (by_hash_from_kept b.hash found x)
      | inr e ↦ rw e (by_hash_from_kept b.hash found kept)
    ]

pub by_hash_complete :
    (found : List FoundBlock) (b : FoundBlock)
    → Holds b found
    → (c : FoundBlock) × (by_hash b.hash found ≡ some c) × Holds c found × (c.hash ≡ b.hash)
by_hash_complete found b held = elim (Option-cases (by_hash b.hash found)) [
  | inl e ↦ absurd (unfold by_hash in (by_hash_from_complete found none b held e))
  | inr (c, e) ↦ let (held, at) = by_hash_sound b.hash found c e in (c, e, held, at)
]

pub walk_sound :
    (found : List FoundBlock) (guard : ℕ) (cursor : Bytes) (rev : List FoundBlock)
    → walk found guard cursor ≡ some rev
    → All (λ b. Holds b found) rev
unfolding walk
walk_sound found zero cursor rev h = cc
walk_sound found (suc guard) cursor rev h = elim (Option-cases (by_hash cursor found)) [
  | inl e ↦ ground arith
  | inr (b, e) ↦
      let (held, at) = by_hash_sound cursor found b e in
      elim (Bool-cases (is_zero b.prev)) [
        | inl z ↦ let only : b ∷ [] ≡ rev = ground arith in rw (← only) (held, tt)
        | inr z ↦ elim (Option-cases (walk found guard b.prev)) [
          | inl n ↦ ground arith
          | inr (rest, r) ↦
              let all : b ∷ rest ≡ rev = ground arith in
              rw (← all) (held, walk_sound found guard b.prev rest r)
        ]
      ]
]
