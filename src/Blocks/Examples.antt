-- ===== src/Blocks/Examples.antt =====
-- Two small blocks are appended to a fresh file, and the file is scanned.
use pi_secure.Prelude.{codes, All, ◌≡◌, refl, true, [], ◌∷◌, arith}
use pi_secure.Tx.Fields.{u32_bytes}
use pi_secure.Blocks.{
  Blocks, frame, append_file, rotate_if_needed, append_block, first_is_brace, scan_file,
}
use pi_secure.Blocks.Frames.{IsBlock, frames, positions, scan_file-frames}
use pi_secure.Blocks.Append.{IsReady, IsAppended, append_block-IsAppended}

abbrev fresh : Blocks
fresh = record {
  files = [] ∷ [];
  current_file = 0;
  current_file_size = 0;
  index = [];
  next_index = 0;
}

abbrev one_block : Blocks
one_block = record {
  files = (2 ∷ 0 ∷ 0 ∷ 0 ∷ codes "{}") ∷ [];
  current_file = 0;
  current_file_size = 6;
  index = record { file = 0; offset = 0; size = 2 } ∷ [];
  next_index = 1;
}

appended : append_block fresh true (codes "{}") ≡ (one_block, true)
unfolding append_block rotate_if_needed append_file frame u32_bytes
appended = refl

fresh-IsReady : IsReady fresh
fresh-IsReady = record { size_known = refl; last_file = omega arith; counted = refl }

append_block-IsAppended_example : IsAppended fresh one_block (codes "{}")
append_block-IsAppended_example =
    append_block-IsAppended fresh (codes "{}") one_block fresh-IsReady (omega arith) appended

both_blocks : All IsBlock (codes "{}" ∷ codes "{1}" ∷ [])
unfolding first_is_brace
both_blocks = ((refl, omega arith), ((refl, omega arith), tt))

scan_file-frames_example :
    scan_file 13 0 0 (frames (codes "{}" ∷ codes "{1}" ∷ []))
    ≡ positions 0 0 (codes "{}" ∷ codes "{1}" ∷ [])
scan_file-frames_example =
    scan_file-frames 13 0 0 (codes "{}" ∷ codes "{1}" ∷ []) both_blocks
      (unfold frame u32_bytes in omega arith)
