-- ===== src/Sha256/Examples.antt =====
-- The digest of "abc", and a text in two pieces.
use pi_secure.Sha256.Blocks.{hash_blocks, padded_text, sha256-hash_blocks}
use pi_secure.Prelude.{take, ◌*◌, ◌/◌, ◌≡◌, refl, [], ◌∷◌, ◌++◌, arith}
use pi_secure.Sha256.{
  new_ctx, write, sha256, finalize, words_out, write_be32, write_be64, padding, pad_length,
  write_loop, absorb, flush, transform, add_words, main_loop, main_round, expand, next_word,
  load_words, read_be32, rotate, xor3, initial_words,
}
use pi_secure.Sha256.Stream.{write-append}

first_bytes : take 4 (sha256 (97 ∷ 98 ∷ 99 ∷ [])) ≡ 0xba ∷ 0x78 ∷ 0x16 ∷ 0xbf ∷ []
unfolding sha256 finalize words_out write_be32 write_be64 padding pad_length write write_loop absorb
    flush transform add_words main_loop main_round expand next_word load_words read_be32 rotate xor3
first_bytes = refl

write-append_example :
    write new_ctx ((97 ∷ []) ++ (98 ∷ 99 ∷ [])) ≡ write (write new_ctx (97 ∷ [])) (98 ∷ 99 ∷ [])
write-append_example = write-append new_ctx (97 ∷ []) (98 ∷ 99 ∷ []) (omega arith)

sha256-hash_blocks_example :
    (64 ≡ 64 * (64 / 64))
    × (sha256 (97 ∷ 98 ∷ 99 ∷ [])
        ≡ words_out (hash_blocks 1 initial_words (padded_text (97 ∷ 98 ∷ 99 ∷ []))))
unfolding write_be64 write_be32
sha256-hash_blocks_example = sha256-hash_blocks (97 ∷ 98 ∷ 99 ∷ [])
