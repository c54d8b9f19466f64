-- ===== src/Blocks/Frames.antt =====
-- A file of whole frames is scanned to exactly those frames, and each reads back as its block.
use pi_secure.Prelude.{
  ltb, leb, length, length-append, take, drop, take-append, drop-append, Bytes, u32_mod, All, ℕ,
  zero, suc, ◌+◌, ◌*◌, ◌/◌, ◌%◌, ◌≤◌, ◌<◌, ◌≡◌, refl, ap, ◌∙◌, true, some, List, [], ◌∷◌, ◌++◌,
  append_assoc, arith,
}
use pi_secure.Tx.Fields.{u32_bytes}
use pi_secure.Blocks.{
  BlockPos, frame, read_u32, read_frame, first_is_brace, starts_frame, scan_file,
}

-- A block as the node writes it: JSON text of fewer than 2^32 bytes.
abbrev pub IsBlock : Bytes → Type 0
IsBlock block = (first_is_brace block ≡ true) × (length block < u32_mod)

abbrev pub frames : List Bytes → Bytes
frames [] = []
frames (block ∷ blocks) = frame block ++ frames blocks

-- Where the frames stand from `offset` on.
abbrev pub positions : ℕ → ℕ → List Bytes → List BlockPos
positions file offset [] = []
positions file offset (block ∷ blocks) =
    record { file = file; offset = offset; size = length block }
    ∷ positions file (offset + (4 + length block)) blocks

read_u32-bytes : (n : ℕ) (s : Bytes) → n < u32_mod → read_u32 (u32_bytes n ++ s) ≡ some n
unfolding read_u32 u32_bytes
read_u32-bytes n s small =
    let value : n % 256
          + 256 * (n / 256 % 256)
          + 65_536 * (n / 256 / 256 % 256)
          + 16_777_216 * (n / 256 / 256 / 256 % 256)
        ≡ n =
      omega arith in
    ap some value

drop-bytes : (n : ℕ) (s : Bytes) → drop 4 (u32_bytes n ++ s) ≡ s
unfolding u32_bytes
drop-bytes n s = refl

drop-frame : (block more : Bytes) → drop (4 + length block) (frame block ++ more) ≡ more
unfolding frame u32_bytes
drop-frame block more =
    let four : 4 + length block ≡ suc (suc (suc (suc (length block)))) = omega arith in
    rw four (drop-append block more)

length-frame_more :
    (block more : Bytes) → length (frame block ++ more) ≡ 4 + length block + length more
unfolding frame u32_bytes
length-frame_more block more = omega (arith, length-append block more)

pub length-frame : (block : Bytes) → length (frame block) ≡ 4 + length block
unfolding frame u32_bytes
length-frame block = omega arith

frame-append :
    (block more : Bytes) → frame block ++ more ≡ u32_bytes (length block) ++ (block ++ more)
unfolding frame
frame-append block more = append_assoc (u32_bytes (length block)) block more

read_u32-frame :
    (block more : Bytes)
    → length block < u32_mod
    → read_u32 (frame block ++ more) ≡ some (length block)
read_u32-frame block more small =
    rw (frame-append block more) (read_u32-bytes (length block) (block ++ more) small)

first_is_brace-append :
    (block more : Bytes) → first_is_brace block ≡ true → first_is_brace (block ++ more) ≡ true
unfolding first_is_brace
first_is_brace-append [] more h = cc
first_is_brace-append (c ∷ s) more h = h

first_is_brace-length : (block : Bytes) → first_is_brace block ≡ true → 0 < length block
unfolding first_is_brace
first_is_brace-length [] h = cc
first_is_brace-length (c ∷ s) h = omega arith

starts_frame-frame :
    (block more : Bytes)
    → first_is_brace block ≡ true
    → starts_frame (length block) (frame block ++ more) ≡ true
unfolding starts_frame
starts_frame-frame block more brace =
    let some_bytes = first_is_brace-length block brace in
    let full : ltb 0 (length block) ≡ true = ground arith in
    let fits : leb (4 + length block) (length (frame block ++ more)) ≡ true =
      ground (arith, length-frame_more block more) in
    let begin : first_is_brace (drop 4 (frame block ++ more)) ≡ true =
      rw (frame-append block more, drop-bytes (length block) (block ++ more))
        (first_is_brace-append block more brace) in
    rw (full, fits, begin) refl

abbrev here : ℕ → ℕ → ℕ → BlockPos
here file offset size = record { file = file; offset = offset; size = size }

scan_file_found :
    (fuel file offset len : ℕ) (s : Bytes)
    → read_u32 s ≡ some len
    → starts_frame len s ≡ true
    → scan_file (suc fuel) file offset s
      ≡ here file offset len ∷ scan_file fuel file (offset + (4 + len)) (drop (4 + len) s)
unfolding scan_file
scan_file_found fuel file offset len s h starts = ground arith

scan_file-frame :
    (fuel file offset : ℕ) (block more : Bytes)
    → IsBlock block
    → scan_file (suc fuel) file offset (frame block ++ more)
      ≡ here file offset (length block) ∷ scan_file fuel file (offset + (4 + length block)) more
scan_file-frame fuel file offset block more (brace, small) =
    scan_file_found fuel file offset (length block) (frame block ++ more)
      (read_u32-frame block more small) (starts_frame-frame block more brace)
    ∙ ap
        (λ s. here file offset (length block) ∷ scan_file fuel file (offset + (4 + length block)) s)
        (drop-frame block more)

scan_file-nil : (fuel file offset : ℕ) → scan_file fuel file offset [] ≡ []
unfolding scan_file read_u32
scan_file-nil zero file offset = refl
scan_file-nil (suc fuel) file offset = refl

-- Let every block begin with a brace and have fewer than 2^32 bytes. A file of their frames is
-- scanned to the positions of exactly those frames, with its size or more as fuel.
pub scan_file-frames :
    (fuel file offset : ℕ) (blocks : List Bytes)
    → All IsBlock blocks
    → length (frames blocks) ≤ fuel
    → scan_file fuel file offset (frames blocks) ≡ positions file offset blocks
scan_file-frames fuel file offset [] a enough = scan_file-nil fuel file offset
scan_file-frames zero file offset (block ∷ blocks) a enough =
    absurd (omega (arith, length-frame_more block (frames blocks)))
scan_file-frames (suc fuel) file offset (block ∷ blocks) (is, a) enough =
    let len = length-frame_more block (frames blocks) in
    let rest =
      scan_file-frames fuel file (offset + (4 + length block)) blocks a (omega (arith, len)) in
    scan_file-frame fuel file offset block (frames blocks) is
    ∙ ap (◌∷◌ (here file offset (length block))) rest

read_frame_whole :
    (s : Bytes) (size : ℕ)
    → read_u32 s ≡ some size
    → size ≤ length (drop 4 s)
    → read_frame size s ≡ some (take size (drop 4 s))
unfolding read_frame
read_frame_whole s size h whole = ground arith

-- A frame reads back as its block, whatever follows it.
pub read_frame-frame :
    (block more : Bytes)
    → length block < u32_mod
    → read_frame (length block) (frame block ++ more) ≡ some block
read_frame-frame block more small =
    let payload : drop 4 (frame block ++ more) ≡ block ++ more =
      ap (drop 4) (frame-append block more) ∙ drop-bytes (length block) (block ++ more) in
    let whole : length block ≤ length (drop 4 (frame block ++ more)) =
      omega (arith, ap length payload, length-append block more) in
    read_frame_whole (frame block ++ more) (length block) (read_u32-frame block more small) whole
    ∙ ap some (ap (take (length block)) payload ∙ take-append block more)
