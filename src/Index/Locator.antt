-- ===== src/Index/Locator.antt =====
-- cpp/pisecured/src/storage.cpp: `get_block_locator_hashes` reaches back ten blocks.
use pi_secure.Prelude.{
  ltb, length, get_elem?, length-append, get_or, Bytes, ℕ, zero, suc, ◌+◌, ◌-◌, ◌≤◌, ◌<◌, ◌≡◌, refl,
  sym, ap, ◌∙◌, true, false, ◌&&◌, some, List, [], ◌∷◌, ◌++◌, append-nil, append_assoc, arith,
}
use pi_secure.Index.{Index, push_hash, locator_loop, get_block_locator_hashes, push_found}

-- The hashes of `room` heights from `height` downwards, above height 0.
abbrev pub downwards : List Bytes → ℕ → ℕ → List Bytes
downwards hashes room zero = []
downwards hashes zero (suc h) = []
downwards hashes (suc room) (suc h) = get_or hashes (suc h) [] ∷ downwards hashes room h

get_elem?-get_or :
    (hashes : List Bytes) (height : ℕ)
    → height < length hashes
    → get_elem? hashes height ≡ some (get_or hashes height [])
get_elem?-get_or [] height h = absurd (omega arith)
get_elem?-get_or (x ∷ hashes) zero h = refl
get_elem?-get_or (x ∷ hashes) (suc height) h = get_elem?-get_or hashes height (omega arith)

push_hash_known :
    (hashes : List Bytes) (height : ℕ) (locator : List Bytes)
    → height < length hashes
    → push_hash hashes height locator ≡ locator ++ (get_or hashes height [] ∷ [])
unfolding push_hash push_found
push_hash_known hashes height locator h = rw (get_elem?-get_or hashes height h) refl

locator_loop_stops :
    (fuel : ℕ) (hashes : List Bytes) (height : ℕ) (locator : List Bytes)
    → (ltb 0 height && ltb (length locator) 10) ≡ false
    → locator_loop fuel hashes 1 height locator ≡ locator
locator_loop_stops zero hashes height locator h = unfold locator_loop in refl
locator_loop_stops (suc fuel) hashes height locator h = unfold locator_loop in rw h refl

locator_loop_round :
    (fuel : ℕ) (hashes : List Bytes) (h : ℕ) (locator : List Bytes)
    → suc h < length hashes
    → length locator < 10
    → locator_loop (suc fuel) hashes 1 (suc h) locator
      ≡ locator_loop fuel hashes 1 h (locator ++ (get_or hashes (suc h) [] ∷ []))
unfolding locator_loop
locator_loop_round fuel hashes h locator known few =
    let pushed = push_hash_known hashes (suc h) locator known in
    let len = length-append locator (get_or hashes (suc h) [] ∷ []) in
    let goes : (ltb 0 (suc h) && ltb (length locator) 10) ≡ true = ground arith in
    let single : ltb 10 (length (locator ++ (get_or hashes (suc h) [] ∷ []))) ≡ false =
      ground (arith, len) in
    let high : ltb (suc h) 1 ≡ false = ground arith in
    let lower : suc h - 1 ≡ h = omega arith in rw (goes, high, pushed, single, lower) refl

locator_loop_lem :
    (fuel : ℕ) (hashes : List Bytes) (height room : ℕ) (locator : List Bytes)
    → height < length hashes
    → height ≤ fuel
    → length locator + room ≡ 10
    → locator_loop fuel hashes 1 height locator ≡ locator ++ downwards hashes room height
locator_loop_lem fuel hashes zero room locator known enough e =
    locator_loop_stops fuel hashes zero locator refl ∙ sym (append-nil locator)
locator_loop_lem fuel hashes (suc h) zero locator known enough e =
    locator_loop_stops fuel hashes (suc h) locator (ground arith) ∙ sym (append-nil locator)
locator_loop_lem zero hashes (suc h) (suc room) locator known enough e = absurd (omega arith)
locator_loop_lem (suc fuel) hashes (suc h) (suc room) locator known enough e =
    let x = get_or hashes (suc h) [] in
    let len = length-append locator (x ∷ []) in
    locator_loop_round fuel hashes h locator known (omega arith)
    ∙ locator_loop_lem fuel hashes h room (locator ++ (x ∷ [])) (omega arith) (omega arith)
        (omega (arith, len))
    ∙ append_assoc locator (x ∷ []) (downwards hashes room h)

-- With a hash for every height up to the tip, the locator is the hashes of the ten highest heights
-- above 0, or of as many as there are, from the tip downwards, and the hash of height 0: the step
-- never doubles, and nothing between is named however high the tip is.
pub get_block_locator_hashes-downwards :
    (s : Index)
    → s.best_height < length s.height_to_hash
    → get_block_locator_hashes s
      ≡ downwards s.height_to_hash 10 s.best_height ++ (get_or s.height_to_hash 0 [] ∷ [])
unfolding get_block_locator_hashes
get_block_locator_hashes-downwards s known =
    let loop =
      locator_loop_lem s.best_height s.height_to_hash s.best_height 10 [] known (omega arith)
        (omega arith) in
    push_hash_known s.height_to_hash 0 _ (omega arith)
    ∙ ap (λ l. l ++ (get_or s.height_to_hash 0 [] ∷ [])) loop
