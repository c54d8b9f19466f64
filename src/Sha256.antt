-- ===== src/Sha256.antt =====
-- cpp/crypto/sha256.cpp and cpp/util/endian.h: SHA-256 over a stream of bytes. `buffer` is the part of
-- `buffer_` that is in use, so that `buffer_len_` is its length.
pub mod Stream
pub mod Blocks
mod Examples
use pi_secure.Prelude.{
  ltb, leb, ◌==◌, if◌then◌else◌, ltb→lt, lt→ltb, leb→le, ==_iff, Bool-cases, Option-cases, tests,
  length, get_elem?, set, length-append, length-set, get_elem?-set_self, get_elem?-set_ne,
  get_elem?-append_left, get_elem?-append_end, get_or, take, drop, replicate, take-append-drop,
  length-take, length-drop, length-replicate, length-map, take-append, drop-append, drop-suc-append,
  Bytes, codes, u64_mod, u64_max, u32_mod, All, All-append, All-append_left, All-append_right,
  IsByte, bytes_eq, bytes_eq_iff, bytes_eq_refl, fail_if, ◌>>=◌, is_ok, ◌>>◌, Result-cases, Reason,
  Result, ok, err, add64, sub64, mul64, sub_ℕ, ℤ, pos, negsuc, ℕ, zero, suc, ◌+◌, ◌-◌, ◌*◌, ◌/◌,
  ◌%◌, ◌^◌, ◌≤◌, ◌<◌, ◌≡◌, refl, sym, ap, ap₂, subst, ◌∙◌, ◌≢◌, ◌↔◌, ◌⊎◌, inl, inr, Bool, true,
  false, not, ◌&&◌, ◌||◌, Option, none, some, List, [], ◌∷◌, ◌++◌, map, append-nil, append_assoc,
  arith, dec_lt, ℕ_discrete,
}
use Prim.Native.Nat.{bit_and, bit_or, bit_xor, min}

-- The array K.
abbrev round_constants : List ℕ
round_constants =
    0x428a2f98 ∷ 0x71374491 ∷ 0xb5c0fbcf ∷ 0xe9b5dba5 ∷ 0x3956c25b ∷ 0x59f111f1 ∷ 0x923f82a4
    ∷ 0xab1c5ed5 ∷ 0xd807aa98 ∷ 0x12835b01 ∷ 0x243185be ∷ 0x550c7dc3 ∷ 0x72be5d74 ∷ 0x80deb1fe
    ∷ 0x9bdc06a7 ∷ 0xc19bf174 ∷ 0xe49b69c1 ∷ 0xefbe4786 ∷ 0x0fc19dc6 ∷ 0x240ca1cc ∷ 0x2de92c6f
    ∷ 0x4a7484aa ∷ 0x5cb0a9dc ∷ 0x76f988da ∷ 0x983e5152 ∷ 0xa831c66d ∷ 0xb00327c8 ∷ 0xbf597fc7
    ∷ 0xc6e00bf3 ∷ 0xd5a79147 ∷ 0x06ca6351 ∷ 0x14292967 ∷ 0x27b70a85 ∷ 0x2e1b2138 ∷ 0x4d2c6dfc
    ∷ 0x53380d13 ∷ 0x650a7354 ∷ 0x766a0abb ∷ 0x81c2c92e ∷ 0x92722c85 ∷ 0xa2bfe8a1 ∷ 0xa81a664b
    ∷ 0xc24b8b70 ∷ 0xc76c51a3 ∷ 0xd192e819 ∷ 0xd6990624 ∷ 0xf40e3585 ∷ 0x106aa070 ∷ 0x19a4c116
    ∷ 0x1e376c08 ∷ 0x2748774c ∷ 0x34b0bcb5 ∷ 0x391c0cb3 ∷ 0x4ed8aa4a ∷ 0x5b9cca4f ∷ 0x682e6ff3
    ∷ 0x748f82ee ∷ 0x78a5636f ∷ 0x84c87814 ∷ 0x8cc70208 ∷ 0x90befffa ∷ 0xa4506ceb ∷ 0xbef9a3f7
    ∷ 0xc67178f2 ∷ []

-- `state_`, and the working variables.
pub record Words : Type 0 where
  pub a : ℕ
  pub b : ℕ
  pub c : ℕ
  pub d : ℕ
  pub e : ℕ
  pub f : ℕ
  pub g : ℕ
  pub h : ℕ

abbrev pub initial_words : Words
initial_words = record {
  a = 0x6a09e667;
  b = 0xbb67ae85;
  c = 0x3c6ef372;
  d = 0xa54ff53a;
  e = 0x510e527f;
  f = 0x9b05688c;
  g = 0x1f83d9ab;
  h = 0x5be0cd19;
}

pub record Ctx : Type 0 where
  pub words : Words
  pub bytes : ℕ
  pub buffer : Bytes

abbrev pub new_ctx : Ctx
new_ctx = record { words = initial_words; bytes = 0; buffer = [] }

-- `(x >> n) | (x << (32 - n))`
unfoldable pub rotate : ℕ → ℕ → ℕ
rotate x n = bit_or (x / 2 ^ n) (x * 2 ^ (32 - n) % u32_mod)

unfoldable pub xor3 : ℕ → ℕ → ℕ → ℕ
xor3 x y z = bit_xor (bit_xor x y) z

unfoldable pub read_be32 : Bytes → ℕ
read_be32 s = get_or s 0 0 * 16_777_216 + get_or s 1 0 * 65_536 + get_or s 2 0 * 256 + get_or s 3 0

unfoldable pub write_be32 : ℕ → Bytes
write_be32 x = x / 16_777_216 % 256 ∷ x / 65_536 % 256 ∷ x / 256 % 256 ∷ x % 256 ∷ []

unfoldable pub write_be64 : ℕ → Bytes
write_be64 x = write_be32 (x / u32_mod % u32_mod) ++ write_be32 (x % u32_mod)

-- The first words of the message schedule, one for four bytes.
unfoldable pub load_words : ℕ → Bytes → List ℕ
load_words zero block = []
load_words (suc n) block = read_be32 block ∷ load_words n (drop 4 block)

unfoldable pub next_word : List ℕ → ℕ → ℕ
next_word w i =
    let x = get_or w (i - 15) 0 in
    let y = get_or w (i - 2) 0 in
    let s0 = xor3 (rotate x 7) (rotate x 18) (x / 2 ^ 3) in
    let s1 = xor3 (rotate y 17) (rotate y 19) (y / 2 ^ 10) in
    (get_or w (i - 16) 0 + s0 + get_or w (i - 7) 0 + s1) % u32_mod

unfoldable pub expand : ℕ → ℕ → List ℕ → List ℕ
expand zero i w = w
expand (suc n) i w = expand n (i + 1) (w ++ (next_word w i ∷ []))

unfoldable pub main_round : Words → ℕ → ℕ → Words
main_round v k w =
    let s1 = xor3 (rotate v.e 6) (rotate v.e 11) (rotate v.e 25) in
    let ch = bit_xor (bit_and v.e v.f) (bit_and (u32_mod - 1 - v.e) v.g) in
    let temp1 = (v.h + s1 + ch + k + w) % u32_mod in
    let s0 = xor3 (rotate v.a 2) (rotate v.a 13) (rotate v.a 22) in
    let maj = xor3 (bit_and v.a v.b) (bit_and v.a v.c) (bit_and v.b v.c) in
    let temp2 = (s0 + maj) % u32_mod in
    record {
      a = (temp1 + temp2) % u32_mod;
      b = v.a;
      c = v.b;
      d = v.c;
      e = (v.d + temp1) % u32_mod;
      f = v.e;
      g = v.f;
      h = v.g;
    }

unfoldable pub main_loop : Words → List ℕ → List ℕ → Words
main_loop v [] w = v
main_loop v (k ∷ ks) [] = v
main_loop v (k ∷ ks) (x ∷ w) = main_loop (main_round v k x) ks w

unfoldable pub add_words : Words → Words → Words
add_words s v = record {
  a = (s.a + v.a) % u32_mod;
  b = (s.b + v.b) % u32_mod;
  c = (s.c + v.c) % u32_mod;
  d = (s.d + v.d) % u32_mod;
  e = (s.e + v.e) % u32_mod;
  f = (s.f + v.f) % u32_mod;
  g = (s.g + v.g) % u32_mod;
  h = (s.h + v.h) % u32_mod;
}

-- `Transform`
unfoldable pub transform : Words → Bytes → Words
transform s block = add_words s (main_loop s round_constants (expand 48 16 (load_words 16 block)))

-- The end of a round of `write`: a full buffer is hashed.
unfoldable pub flush : Words → ℕ → Bytes → Ctx
flush s bytes buffer =
    if length buffer == 64
    then record { words = transform s buffer; bytes = bytes; buffer = [] }
    else record { words = s; bytes = bytes; buffer = buffer }

unfoldable pub absorb : Ctx → Bytes → Ctx
absorb c piece = flush c.words (add64 c.bytes (length piece)) (c.buffer ++ piece)

-- Every round takes a byte at least, so the length is enough fuel.
unfoldable pub write_loop : ℕ → Ctx → Bytes → Ctx
write_loop zero c s = c
write_loop (suc fuel) c [] = c
write_loop (suc fuel) c (x ∷ s) =
    let chunk = min (suc (length s)) (64 - length c.buffer) in
    write_loop fuel (absorb c (take chunk (x ∷ s))) (drop chunk (x ∷ s))

unfoldable pub write : Ctx → Bytes → Ctx
write c s = write_loop (length s) c s

unfoldable pub pad_length : ℕ → ℕ
pad_length bytes = if ltb (bytes % 64) 56 then 56 - bytes % 64 else 120 - bytes % 64

unfoldable pub padding : ℕ → Bytes
padding bytes = 128 ∷ (replicate (pad_length bytes - 1) 0 ++ write_be64 (mul64 bytes 8))

unfoldable pub words_out : Words → Bytes
words_out v =
    write_be32 v.a
    ++ (write_be32 v.b
        ++ (write_be32 v.c
            ++ (write_be32 v.d
                ++ (write_be32 v.e ++ (write_be32 v.f ++ (write_be32 v.g ++ write_be32 v.h))))))

unfoldable pub finalize : Ctx → Bytes
finalize c = words_out (write c (padding c.bytes)).words

unfoldable pub sha256 : Bytes → Bytes
sha256 s = finalize (write new_ctx s)

unfoldable pub sha256d : Bytes → Bytes
sha256d s = sha256 (sha256 s)

-- `blocks` digests, of 64 bytes each.
unfoldable pub sha256d64 : Bytes → ℕ → Bytes
sha256d64 s zero = []
sha256d64 s (suc blocks) = sha256d (take 64 s) ++ sha256d64 (drop 64 s) blocks
