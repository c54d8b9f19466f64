-- ===== src/Sha256/Blocks.antt =====
-- The digest, as FIPS 180-4 gives it: the padded text, block by block.
use pi_secure.Prelude.{
  ltb, ◌==◌, ==_iff, Bool-cases, length, length-append, take, drop, replicate, length-replicate,
  take-append, drop-append, Bytes, u64_mod, add64, mul64, ℕ, zero, suc, ◌+◌, ◌-◌, ◌*◌, ◌/◌, ◌%◌,
  ◌≤◌, ◌<◌, ◌≡◌, refl, sym, ap, ap₂, subst, ◌∙◌, ◌≢◌, inl, inr, false, [], ◌∷◌, ◌++◌, append_assoc,
  arith, ℕ_discrete,
}
use pi_secure.Sha256.{
  Words, Ctx, initial_words, new_ctx, flush, transform, write, write_be32, write_be64, pad_length,
  padding, words_out, finalize, sha256,
}
use pi_secure.Sha256.Stream.{feed, feed_all, feed_all-append, feed_all_short, write-feed_all}

-- So many blocks of 64 bytes, from the front.
unfoldable pub hash_blocks : ℕ → Words → Bytes → Words
hash_blocks zero w s = w
hash_blocks (suc n) w s = hash_blocks n (transform w (take 64 s)) (drop 64 s)

-- The text, a bit 1, as few zeros as make the length 56 modulo 64, and the count of bits in 8 bytes.
abbrev pub padded_text : Bytes → Bytes
padded_text s =
    s ++ (128 ∷ (replicate ((119 - length s % 64) % 64) 0 ++ write_be64 (8 * length s % u64_mod)))

feed_full :
    (c : Ctx) (x : ℕ)
    → length (c.buffer ++ (x ∷ [])) ≡ 64
    → feed c x ≡ record {
      words = transform c.words (c.buffer ++ (x ∷ []));
      bytes = add64 c.bytes 1;
      buffer = [];
    }
unfolding feed flush
feed_full c x full = let test = (==_iff (length (c.buffer ++ (x ∷ []))) 64).1 full in rw test refl

feed_part :
    (c : Ctx) (x : ℕ)
    → length (c.buffer ++ (x ∷ [])) ≢ 64
    → feed c x ≡ record { words = c.words; bytes = add64 c.bytes 1; buffer = c.buffer ++ (x ∷ []) }
unfolding feed flush
feed_part c x part =
    let test : (length (c.buffer ++ (x ∷ [])) == 64) ≡ false = ground arith in rw test refl

-- A whole block in front.
hash_blocks-append :
    (n : ℕ) (w : Words) (block s : Bytes)
    → length block ≡ 64
    → hash_blocks (suc n) w (block ++ s) ≡ hash_blocks n (transform w block) s
unfolding hash_blocks
hash_blocks-append n w block s len =
    let front : take 64 (block ++ s) ≡ block =
      subst (λ k. take k (block ++ s) ≡ block) len (take-append block s) in
    let back : drop 64 (block ++ s) ≡ s =
      subst (λ k. drop k (block ++ s) ≡ s) len (drop-append block s) in
    rw (front, back) refl

feed_all-hash_blocks :
    (c : Ctx) (s : Bytes) (n : ℕ)
    → length c.buffer < 64
    → length (c.buffer ++ s) / 64 ≡ n
    → (feed_all c s).words ≡ hash_blocks n c.words (c.buffer ++ s)
unfolding feed_all hash_blocks
feed_all-hash_blocks c [] n short count =
    let none_ : 0 ≡ n = omega (arith, count, length-append c.buffer []) in
    ap (λ k. hash_blocks k c.words (c.buffer ++ [])) none_
feed_all-hash_blocks c (x ∷ s) n short count =
    let one = c.buffer ++ (x ∷ []) in
    let len = length-append c.buffer (x ∷ []) in
    let all = length-append c.buffer (x ∷ s) in
    let text = append_assoc c.buffer (x ∷ []) s in
    elim (ℕ_discrete (length one) 64) [
      | no part ↦
          let next : Ctx = record { words = c.words; bytes = add64 c.bytes 1; buffer = one } in
          ap (λ k. (feed_all k s).words) (feed_part c x part)
          ∙ feed_all-hash_blocks next s n (omega (arith, len))
              (omega (arith, count, ap length text))
          ∙ ap (hash_blocks n c.words) text
      | yes full ↦
          let next : Ctx = record {
            words = transform c.words one;
            bytes = add64 c.bytes 1;
            buffer = [];
          } in
          let rest = length s / 64 in
          let step : suc rest ≡ n = omega (arith, count, all, len, full) in
          ap (λ k. (feed_all k s).words) (feed_full c x full)
          ∙ feed_all-hash_blocks next s rest (omega arith) refl
          ∙ sym (hash_blocks-append rest c.words one s full)
          ∙ ap₂ (λ k t. hash_blocks k c.words t) step text
    ]

flush_bytes : (w : Words) (n : ℕ) (s : Bytes) → (flush w n s).bytes ≡ n
unfolding flush
flush_bytes w n s = elim (Bool-cases (length s == 64)) [ inl e ↦ rw e refl | inr e ↦ rw e refl ]

feed_all_bytes :
    (c : Ctx) (s : Bytes)
    → c.bytes < u64_mod
    → (feed_all c s).bytes ≡ (c.bytes + length s) % u64_mod
unfolding feed_all feed
feed_all_bytes c [] fits = omega arith
feed_all_bytes c (x ∷ s) fits =
    let one = flush_bytes c.words (add64 c.bytes 1) (c.buffer ++ (x ∷ [])) in
    omega (arith, one, feed_all_bytes (feed c x) s (unfold feed in omega (arith, one)))

padding_lem : (s : Bytes) → s ++ padding (length s % u64_mod) ≡ padded_text s
unfolding padding pad_length
padding_lem s =
    let n = length s % u64_mod in
    let zeros : pad_length n - 1 ≡ (119 - length s % 64) % 64 =
      elim (Bool-cases (ltb (n % 64) 56)) [
        | inl low ↦ let lt : n % 64 < 56 = ground arith in rw low (omega arith)
        | inr high ↦ let ge : 56 ≤ n % 64 = ground arith in rw high (omega arith)
      ] in
    let bits : mul64 n 8 ≡ 8 * length s % u64_mod = omega arith in
    ap₂ (λ k b. s ++ (128 ∷ (replicate k 0 ++ write_be64 b))) zeros bits

length-write_be64 : (x : ℕ) → length (write_be64 x) ≡ 8
unfolding write_be64 write_be32
length-write_be64 x = refl

length-padded_text : (s : Bytes) → length (padded_text s) % 64 ≡ 0
length-padded_text s =
    let zeros = replicate {A = ℕ} ((119 - length s % 64) % 64) 0 in
    let count = write_be64 (8 * length s % u64_mod) in
    let fill = length-replicate {A = ℕ} ((119 - length s % 64) % 64) 0 in
    let all = length-append s (128 ∷ (zeros ++ count)) in
    omega (arith, fill, all, length-append zeros count, length-write_be64 (8 * length s % u64_mod))

-- Of every text, `sha256` gives the state after the blocks of the padded text, each run through the
-- compression in order from the initial state, and the blocks are the whole of the padded text.
pub sha256-hash_blocks :
    (s : Bytes)
    → (length (padded_text s) ≡ 64 * (length (padded_text s) / 64))
      × (sha256 s
          ≡ words_out (hash_blocks (length (padded_text s) / 64) initial_words (padded_text s)))
unfolding sha256 finalize
sha256-hash_blocks s =
    let whole = length-padded_text s in
    let first = write-feed_all new_ctx s (omega arith) in
    let now : Ctx = feed_all new_ctx s in
    let count : now.bytes ≡ length s % u64_mod =
      omega (arith, feed_all_bytes new_ctx s (omega arith)) in
    let pad : padding now.bytes ≡ padding (length s % u64_mod) = ap padding count in
    (
      omega (arith, whole),
      ap (λ c. words_out (write c (padding c.bytes)).words) first
          ∙ ap (λ c. words_out c.words)
              (write-feed_all now (padding now.bytes) (feed_all_short new_ctx s (omega arith))
                ∙ sym (feed_all-append new_ctx s (padding now.bytes))
                ∙ ap (λ p. feed_all new_ctx (s ++ p)) pad
                ∙ ap (feed_all new_ctx) (padding_lem s))
          ∙ ap words_out (
              feed_all-hash_blocks new_ctx (padded_text s) (length (padded_text s) / 64)
                (omega arith) refl),
    )
