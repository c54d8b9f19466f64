-- ===== src/Blocks/Append.antt =====
-- An appended block can be read, and the blocks that could be read still can.
use pi_secure.Prelude.{
  leb, Bool-cases, Option-cases, length, get_elem?, length-append, get_elem?-append_left,
  get_elem?-append_end, drop, drop-append, Bytes, u32_mod, ℕ, ◌+◌, ◌%◌, ◌≤◌, ◌<◌, ◌≡◌, refl, sym,
  ap, ◌∙◌, inl, inr, Bool, true, false, some, [], ◌∷◌, ◌++◌, append-nil, arith,
}
use pi_secure.Blocks.{
  BlockPos, Blocks, frame, rotate_if_needed, write_block, append_block, read_frame, read_at,
  read_block, max_block_file_size,
}
use pi_secure.Blocks.Frames.{read_frame-frame, length-frame}
use pi_secure.Blocks.Files.{
  content, content-beyond, get_elem?-append_file_self, content-append_file, length-append_file,
  read_at-file, read_at-append_file,
}

-- No file stands behind the one that is written to, and its size is known. Every frame has its entry in
-- the index.
pub record IsReady (s : Blocks) : Type 0 where
  pub size_known : length (content s.files s.current_file) ≡ s.current_file_size
  pub last_file : length s.files ≤ s.current_file + 1
  pub counted : length s.index ≡ s.next_index

rotate-IsReady : (s : Blocks) (upcoming : ℕ) → IsReady s → IsReady (rotate_if_needed s upcoming)
unfolding rotate_if_needed
rotate-IsReady s upcoming ready =
    elim (Bool-cases (leb (s.current_file_size + upcoming) max_block_file_size)) [
      | inl e ↦ rw e ready
      | inr e ↦ rw e (record {
        size_known = ap length (content-beyond s.files (s.current_file + 1) ready.last_file);
        last_file = omega (arith, ready.last_file);
        counted = ready.counted;
      })
    ]

read_block-at :
    (s : Blocks) (i : ℕ) (p : BlockPos)
    → get_elem? s.index i ≡ some p
    → read_block s i ≡ read_at s.files p
unfolding read_block
read_block-at s i p e = ground arith

read_block_inv :
    (s : Blocks) (i : ℕ) (block : Bytes)
    → read_block s i ≡ some block
    → (p : BlockPos) × (get_elem? s.index i ≡ some p) × (read_at s.files p ≡ some block)
unfolding read_block
read_block_inv s i block h = elim (Option-cases (get_elem? s.index i)) [
  | inl e ↦ ground arith
  | inr (p, e) ↦ (p, e, ground arith)
]

written_frame :
    (before : Bytes) (offset : ℕ) (block : Bytes)
    → length before ≡ offset
    → length block < u32_mod
    → read_frame (length block % u32_mod) (drop offset (before ++ frame block)) ≡ some block
written_frame before offset block at small =
    let size : length block % u32_mod ≡ length block = omega arith in
    let rest : drop offset (before ++ frame block) ≡ frame block =
      ap (λ n. drop n (before ++ frame block)) (sym at) ∙ drop-append before (frame block) in
    rw (size, rest) (rw (append-nil (frame block)) at (read_frame-frame block [] small))

-- What an append leaves.
pub record IsAppended (s after : Blocks) (block : Bytes) : Type 0 where
  pub ready : IsReady after
  pub added : read_block after s.next_index ≡ some block
  pub kept : (i : ℕ) (old : Bytes) → read_block s i ≡ some old → read_block after i ≡ some old

write_block-IsAppended :
    (s : Blocks) (block : Bytes)
    → IsReady s
    → length block < u32_mod
    → IsAppended s (write_block s block) block
unfolding write_block
write_block-IsAppended s block is small =
    let entry : BlockPos = record {
      file = s.current_file;
      offset = s.current_file_size;
      size = length block % u32_mod;
    } in
    let after = write_block s block in
    record {
      ready = record {
        size_known =
            ap length (content-append_file s.files s.current_file (frame block))
            ∙ omega (
              arith,
              length-append (content s.files s.current_file) (frame block),
              length-frame block,
              is.size_known,
            );
        last_file = length-append_file s.files s.current_file (frame block) is.last_file;
        counted = omega (arith, length-append s.index (entry ∷ []), is.counted);
      };
      added =
          read_block-at after s.next_index entry
            (rw (← is.counted) (get_elem?-append_end s.index entry))
          ∙ read_at-file after.files entry (content s.files s.current_file ++ frame block)
              (get_elem?-append_file_self s.files s.current_file (frame block))
          ∙ written_frame (content s.files s.current_file) s.current_file_size block is.size_known
              small;
      kept = λ i old h.
          let (p, e, there) = read_block_inv s i old h in
          read_block-at after i p (get_elem?-append_left s.index (entry ∷ []) i p e)
          ∙ read_at-append_file s.files s.current_file (frame block) p old there;
    }

rotate-read_block :
    (s : Blocks) (upcoming i : ℕ) → read_block (rotate_if_needed s upcoming) i ≡ read_block s i
unfolding rotate_if_needed read_block
rotate-read_block s upcoming i =
    elim (Bool-cases (leb (s.current_file_size + upcoming) max_block_file_size)) [
      | inl e ↦ rw e refl
      | inr e ↦ rw e refl
    ]

rotate-next_index :
    (s : Blocks) (upcoming : ℕ) → (rotate_if_needed s upcoming).next_index ≡ s.next_index
unfolding rotate_if_needed
rotate-next_index s upcoming = ground arith

-- Let no file stand behind the one that is written to, its size be known, and every frame have its
-- entry. An append of a block below 2^32 bytes then keeps all this, the block reads back under the
-- next index, and every block that could be read before reads the same.
pub append_block-IsAppended :
    (s : Blocks) (block : Bytes) (after : Blocks)
    → IsReady s
    → length block < u32_mod
    → append_block s true block ≡ (after, true)
    → IsAppended s after block
unfolding append_block
append_block-IsAppended s block after is small h =
    let rotated = rotate_if_needed s (4 + length block) in
    let result : write_block rotated block ≡ after = ap (λ p. p.0) h in
    let w = write_block-IsAppended rotated block (rotate-IsReady s (4 + length block) is) small in
    rw (← result) (record {
      ready = w.ready;
      added =
          ap (λ n. read_block (write_block rotated block) n)
            (sym (rotate-next_index s (4 + length block)))
          ∙ w.added;
      kept = λ i old there. w.kept i old (rotate-read_block s (4 + length block) i ∙ there);
    })

-- An append says whether the file opened.
pub append_block-opened :
    (s : Blocks) (opened : Bool) (block : Bytes) → (append_block s opened block).1 ≡ opened
unfolding append_block
append_block-opened s true block = refl
append_block-opened s false block = refl
