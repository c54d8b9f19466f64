-- ===== src/Wire.antt =====
-- cpp/pisecured/src/p2p.cpp: `MessageSerializer`, the fields that messages are made of. A write is
-- the bytes that it pushes. A read takes the bytes from `offset` to the end of the payload and
-- leaves those behind its field; a read behind the end of the payload, where the behaviour of the
-- program is not defined, is the outcome `past_end`.
pub mod Fields
pub mod VarInt
pub mod Rows
pub mod Messages
pub mod Codecs
pub mod HeaderRow
pub mod AddrRow
pub mod Headers
pub mod Peers
pub mod Bounds
pub mod PastEnd
mod Examples
use pi_secure.Prelude.{
  ltb, leb, ◌==◌, if◌then◌else◌, ltb→lt, lt→ltb, leb→le, ==_iff, Bool-cases, Option-cases, tests,
  length, get_elem?, set, length-append, length-set, get_elem?-set_self, get_elem?-set_ne,
  get_elem?-append_left, get_elem?-append_end, get_or, take, drop, replicate, take-append-drop,
  length-take, length-drop, length-replicate, length-map, take-append, drop-append, drop-suc-append,
  Bytes, codes, u64_mod, u64_max, u32_mod, All, All-append, All-append_left, All-append_right,
  IsByte, bytes_eq, bytes_eq_iff, bytes_eq_refl, fail_if, is_ok, ◌>>◌, Result-cases, Reason, Result,
  ok, err, add64, sub64, mul64, sub_ℕ, ℤ, pos, negsuc, ℕ, zero, suc, ◌+◌, ◌-◌, ◌*◌, ◌/◌, ◌%◌, ◌^◌,
  ◌≤◌, ◌<◌, ◌≡◌, refl, sym, ap, ap₂, subst, ◌∙◌, ◌≢◌, ◌↔◌, ◌⊎◌, inl, inr, Bool, true, false, not,
  ◌&&◌, ◌||◌, Option, none, some, List, [], ◌∷◌, ◌++◌, map, append-nil, append_assoc, arith, dec_lt,
  ℕ_discrete,
}
use pi_secure.Tx.Fields.{le_bytes}

pub data Parsed {ℓ} (A : Type ℓ) : Type ℓ where
  done : A → Parsed A
  -- `return false`
  refused : Parsed A
  past_end : Parsed A

infixl 5 ◌>>=◌
abbrev pub ◌>>=◌ {ℓ κ} : {A : Type ℓ} {B : Type κ} → Parsed A → (A → Parsed B) → Parsed B
(done a) >>= next = next a
refused >>= next = refused
past_end >>= next = past_end

unfoldable pub write_uint32 : ℕ → Bytes
write_uint32 val = le_bytes 4 val

unfoldable pub write_uint64 : ℕ → Bytes
write_uint64 val = le_bytes 8 val

unfoldable pub write_var_int : ℕ → Bytes
write_var_int val =
    if ltb val 0xfd
    then val ∷ []
    else if leb val 0xffff
    then 0xfd ∷ le_bytes 2 val
    else if leb val 0xffff_ffff
    then 0xfe ∷ write_uint32 val
    else 0xff ∷ write_uint64 val

unfoldable pub write_string : Bytes → Bytes
write_string str = write_var_int (length str) ++ str

-- The `n` next bytes as a number, least first.
unfoldable pub read_le : ℕ → Bytes → Parsed (ℕ × Bytes)
read_le zero s = done (0, s)
read_le (suc n) [] = past_end
read_le (suc n) (b ∷ s) = read_le n s >>= λ (v, t). done (b + 256 * v, t)

unfoldable pub read_uint32 : Bytes → Parsed (ℕ × Bytes)
read_uint32 s = read_le 4 s

unfoldable pub read_uint64 : Bytes → Parsed (ℕ × Bytes)
read_uint64 s = read_le 8 s

-- The `n` next bytes: `std::copy` and `std::copy_n` to an array, with `offset += n`.
unfoldable pub copy_bytes : ℕ → Bytes → Parsed (Bytes × Bytes)
copy_bytes zero s = done ([], s)
copy_bytes (suc n) [] = past_end
copy_bytes (suc n) (b ∷ s) = copy_bytes n s >>= λ (hash, t). done (b ∷ hash, t)

-- A count that is cut short is read as 0, and its first byte is taken all the same.
unfoldable pub read_var_int : Bytes → Parsed (ℕ × Bytes)
read_var_int [] = done (0, [])
read_var_int (first ∷ s) =
    if ltb first 0xfd
    then done (first, s)
    else if first == 0xfd && leb 2 (length s)
    then read_le 2 s
    else if first == 0xfe && leb 4 (length s)
    then read_uint32 s
    else if first == 0xff && leb 8 (length s)
    then read_uint64 s
    else done (0, s)

-- The text after its length, if the payload has that many bytes more.
text_of : ℕ → Bytes → Parsed (Bytes × Bytes)
text_of len s = if ltb (length s) len then done ([], s) else copy_bytes len s

unfoldable pub read_string : Bytes → Parsed (Bytes × Bytes)
unfolding text_of
read_string s = do (len, t) ← read_var_int s; text_of len t
