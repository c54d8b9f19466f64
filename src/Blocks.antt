-- ===== src/Blocks.antt =====
-- cpp/pisecured/src/storage.cpp: the block files blk00000.dat, blk00001.dat and so on. A frame is the
-- length of the block as four bytes, the lowest first as on the machines that the node runs on, and
-- the block. The files are a list of byte strings by number. Whether the operating system opens a
-- file is the argument `opened` of an append; a file that is missing reads as nothing.
pub mod Frames
pub mod Files
pub mod Append
mod Examples
use pi_secure.Prelude.{
  ltb, leb, ◌==◌, if◌then◌else◌, ltb→lt, lt→ltb, leb→le, ==_iff, Bool-cases, Option-cases, tests,
  length, get_elem?, set, length-append, length-set, get_elem?-set_self, get_elem?-set_ne, get_or,
  take, drop, replicate, take-append-drop, length-take, length-drop, length-replicate, length-map,
  take-append, drop-append, drop-suc-append, Bytes, codes, u64_mod, u64_max, u32_mod, All,
  All-append, All-append_left, All-append_right, IsByte, bytes_eq, bytes_eq_iff, bytes_eq_refl,
  fail_if, ◌>>=◌, is_ok, ◌>>◌, Result-cases, Reason, Result, ok, err, add64, sub64, mul64, sub_ℕ, ℤ,
  pos, negsuc, ℕ, zero, suc, ◌+◌, ◌-◌, ◌*◌, ◌/◌, ◌%◌, ◌^◌, ◌≤◌, ◌<◌, ◌≡◌, refl, sym, ap, ap₂, subst,
  ◌∙◌, ◌≢◌, ◌↔◌, ◌⊎◌, inl, inr, Bool, true, false, not, ◌&&◌, ◌||◌, Option, none, some, List, [],
  ◌∷◌, ◌++◌, map, append-nil, append_assoc, arith, dec_lt, ℕ_discrete,
}
use pi_secure.Tx.Fields.{u32_bytes}

pub record BlockPos : Type 0 where
  pub file : ℕ
  pub offset : ℕ
  pub size : ℕ

-- kMaxBlockFileSize
abbrev pub max_block_file_size : ℕ
max_block_file_size = 134_217_728

-- The members of `Storage` for the block files, and the files.
pub record Blocks : Type 0 where
  pub files : List Bytes
  pub current_file : ℕ
  pub current_file_size : ℕ
  pub index : List BlockPos
  pub next_index : ℕ

pub frame : Bytes → Bytes
frame block = u32_bytes (length block) ++ block

-- Opening for append makes the file if it is missing.
pub append_file : List Bytes → ℕ → Bytes → List Bytes
append_file [] zero s = s ∷ []
append_file [] (suc i) s = [] ∷ append_file [] i s
append_file (f ∷ files) zero s = (f ++ s) ∷ files
append_file (f ∷ files) (suc i) s = f ∷ append_file files i s

-- `rotate_if_needed`
pub rotate_if_needed : Blocks → ℕ → Blocks
rotate_if_needed s upcoming =
    if leb (s.current_file_size + upcoming) max_block_file_size
    then s
    else record s { current_file = s.current_file + 1; current_file_size = 0 }

-- `append_block`, after the rotation. A failure to open leaves the rotation in place.
write_block : Blocks → Bytes → Blocks
write_block s block = record {
  files = append_file s.files s.current_file (frame block);
  current_file = s.current_file;
  current_file_size = s.current_file_size + (4 + length block);
  index =
      s.index
      ++ (record {
        file = s.current_file;
        offset = s.current_file_size;
        size = length block % u32_mod;
      }
          ∷ []);
  next_index = s.next_index + 1;
}

pub append_block : Blocks → Bool → Bytes → Blocks × Bool
unfolding write_block
append_block s opened block =
    let rotated = rotate_if_needed s (4 + length block) in
    if opened then (write_block rotated block, true) else (rotated, false)

-- Four bytes as a number, or nothing at the end of the file.
pub read_u32 : Bytes → Option ℕ
read_u32 (a ∷ b ∷ c ∷ d ∷ s) = some (a + 256 * b + 65_536 * c + 16_777_216 * d)
read_u32 s = none

-- The reads of `read_block`, from the offset on.
pub read_frame : ℕ → Bytes → Option Bytes
read_frame size s = elim (read_u32 s) [
  | none ↦ none
  | some len ↦
      if not (len == size)
      then none
      else if ltb (length (drop 4 s)) len
      then none
      else some (take len (drop 4 s))
]

pub read_at : List Bytes → BlockPos → Option Bytes
read_at files at = elim (get_elem? files at.file) [
  | none ↦ none
  | some s ↦ read_frame at.size (drop at.offset s)
]

pub read_block : Blocks → ℕ → Option Bytes
read_block s i = elim (get_elem? s.index i) [ none ↦ none | some at ↦ read_at s.files at ]

pub first_is_brace : Bytes → Bool
first_is_brace [] = false
first_is_brace (c ∷ s) = c == b'{'

-- Whether a frame starts here: a length that fits, and a block that begins with `{`.
pub starts_frame : ℕ → Bytes → Bool
unfolding first_is_brace
starts_frame len s = ltb 0 len && (leb (4 + len) (length s) && first_is_brace (drop 4 s))

-- The loop of `scan_existing` over one file, from `offset` on. Each round takes a byte at least, so
-- the size of the file is enough fuel.
pub scan_file : ℕ → ℕ → ℕ → Bytes → List BlockPos
scan_file zero file offset s = []
scan_file (suc fuel) file offset s = elim (read_u32 s) [
  | none ↦ []
  | some len ↦
      let next = scan_file fuel file (offset + (4 + len)) (drop (4 + len) s) in
      let stepped = scan_file fuel file (offset + 1) (drop 1 s) in
      if starts_frame len s
      then record { file = file; offset = offset; size = len } ∷ next
      else stepped
]

scan_files : ℕ → List Bytes → List BlockPos
scan_files file [] = []
scan_files file (s ∷ files) = scan_file (length s) file 0 s ++ scan_files (file + 1) files

last_size : List Bytes → ℕ
last_size [] = 0
last_size (s ∷ []) = length s
last_size (s ∷ (t ∷ files)) = last_size (t ∷ files)

-- `scan_existing` on files that can be read.
pub scan_existing : List Bytes → Blocks
unfolding scan_files last_size
scan_existing files = record {
  files = if length files == 0 then [] ∷ [] else files;
  current_file = length files - 1;
  current_file_size = last_size files;
  index = scan_files 0 files;
  next_index = length (scan_files 0 files);
}
