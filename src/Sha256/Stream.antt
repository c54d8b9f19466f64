-- ===== src/Sha256/Stream.antt =====
-- A text may be written in pieces.
use pi_secure.Prelude.{
  ◌==◌, Bool-cases, length, length-append, take, drop, take-append-drop, length-take, length-drop,
  Bytes, add64, ℕ, zero, suc, ◌+◌, ◌-◌, ◌≤◌, ◌<◌, ◌≡◌, refl, sym, ap, ap₂, ◌∙◌, ◌≢◌, inl, inr,
  false, [], ◌∷◌, ◌++◌, append_assoc, arith,
}
use pi_secure.Sha256.{Words, Ctx, flush, absorb, write_loop, write, min}

-- One byte.
unfoldable pub feed : Ctx → ℕ → Ctx
feed c x = flush c.words (add64 c.bytes 1) (c.buffer ++ (x ∷ []))

unfoldable pub feed_all : Ctx → Bytes → Ctx
feed_all c [] = c
feed_all c (x ∷ s) = feed_all (feed c x) s

pub feed_all-append : (c : Ctx) (s t : Bytes) → feed_all c (s ++ t) ≡ feed_all (feed_all c s) t
unfolding feed_all
feed_all-append c [] t = refl
feed_all-append c (x ∷ s) t = feed_all-append (feed c x) s t

feed_short :
    (c : Ctx) (x : ℕ)
    → length c.buffer + 1 < 64
    → feed c x ≡ record { words = c.words; bytes = add64 c.bytes 1; buffer = c.buffer ++ (x ∷ []) }
unfolding feed flush
feed_short c x short =
    let len = length-append c.buffer (x ∷ []) in
    let no_flush : (length (c.buffer ++ (x ∷ [])) == 64) ≡ false = ground (arith, len) in
    rw no_flush refl

absorb-feed_all :
    (c : Ctx) (x : ℕ) (s : Bytes)
    → length c.buffer + suc (length s) ≤ 64
    → absorb c (x ∷ s) ≡ feed_all c (x ∷ s)
unfolding feed_all absorb
absorb-feed_all c x [] fits = unfold feed in refl
absorb-feed_all c x (y ∷ s) fits =
    let one = feed_short c x (omega arith) in
    let len = length-append c.buffer (x ∷ []) in
    let next : Ctx = record {
      words = c.words;
      bytes = add64 c.bytes 1;
      buffer = c.buffer ++ (x ∷ []);
    } in
    let ih = absorb-feed_all next y s (omega (arith, len)) in
    let count : add64 c.bytes (suc (suc (length s))) ≡ add64 (add64 c.bytes 1) (suc (length s)) =
      omega arith in
    ap₂ (flush c.words) count (sym (append_assoc c.buffer (x ∷ []) (y ∷ s)))
    ∙ ih
    ∙ ap (λ k. feed_all k (y ∷ s)) (sym one)

flush_short : (w : Words) (n : ℕ) (s : Bytes) → length s ≤ 64 → length (flush w n s).buffer < 64
unfolding flush
flush_short w n s fits = elim (Bool-cases (length s == 64)) [
  | inl full ↦ rw full (omega arith)
  | inr part ↦ let ne : length s ≢ 64 = ground arith in rw part (omega arith)
]

pub feed_all_short :
    (c : Ctx) (s : Bytes) → length c.buffer < 64 → length (feed_all c s).buffer < 64
unfolding feed_all feed
feed_all_short c [] short = short
feed_all_short c (x ∷ s) short =
    let len = length-append c.buffer (x ∷ []) in
    feed_all_short (feed c x) s
      (flush_short c.words (add64 c.bytes 1) (c.buffer ++ (x ∷ [])) (omega (arith, len)))

-- The chunks come to the same as the bytes one by one.
take-feed_all :
    (c : Ctx) (x : ℕ) (s : Bytes) (k : ℕ)
    → length c.buffer + k ≤ 64
    → 0 < k
    → absorb c (take k (x ∷ s)) ≡ feed_all c (take k (x ∷ s))
take-feed_all c x s zero fits some_ = absurd (omega arith)
take-feed_all c x s (suc k) fits some_ =
    let len = length-take k s in absorb-feed_all c x (take k s) (omega (arith, len))

write_loop-feed_all :
    (fuel : ℕ) (c : Ctx) (s : Bytes)
    → length c.buffer < 64
    → length s ≤ fuel
    → write_loop fuel c s ≡ feed_all c s
unfolding write_loop
write_loop-feed_all zero c [] short enough = unfold feed_all in refl
write_loop-feed_all zero c (x ∷ s) short enough = absurd (omega arith)
write_loop-feed_all (suc fuel) c [] short enough = unfold feed_all in refl
write_loop-feed_all (suc fuel) c (x ∷ s) short enough =
    let chunk = min (suc (length s)) (64 - length c.buffer) in
    let piece = take chunk (x ∷ s) in
    let rest = drop chunk (x ∷ s) in
    let one = take-feed_all c x s chunk (omega arith) (omega arith) in
    let left : length rest ≤ fuel = omega (arith, length-drop chunk (x ∷ s)) in
    ap (λ k. write_loop fuel k rest) one
    ∙ write_loop-feed_all fuel (feed_all c piece) rest (feed_all_short c piece short) left
    ∙ sym (feed_all-append c piece rest)
    ∙ ap (feed_all c) (take-append-drop chunk (x ∷ s))

-- On a context whose buffer is not full, as every context is between two calls, writing a text is
-- writing its parts one after the other, wherever it is cut: the loop over chunks of at most 64 bytes
-- hashes the same blocks.
pub write-append :
    (c : Ctx) (s t : Bytes) → length c.buffer < 64 → write c (s ++ t) ≡ write (write c s) t
unfolding write
write-append c s t short =
    let whole = write_loop-feed_all (length (s ++ t)) c (s ++ t) short (omega arith) in
    let first = write_loop-feed_all (length s) c s short (omega arith) in
    let second =
      write_loop-feed_all (length t) (feed_all c s) t (feed_all_short c s short) (omega arith) in
    whole ∙ feed_all-append c s t ∙ sym second ∙ ap (λ k. write_loop (length t) k t) (sym first)

pub write-feed_all : (c : Ctx) (s : Bytes) → length c.buffer < 64 → write c s ≡ feed_all c s
unfolding write
write-feed_all c s short = write_loop-feed_all (length s) c s short (omega arith)
