-- ===== src/Wire/Codecs.antt =====
-- The hashes of `getheaders` and the rows of `inv` and `getdata` as `RowCodec`s.
use pi_secure.Prelude.{
  length, length-append, Bytes, u32_mod, All, All-append_right, IsByte, ℕ, ◌+◌, ◌^◌, ◌≤◌, ◌<◌, ◌≡◌,
  refl, subst, ◌++◌, append_assoc, arith,
}
use pi_secure.Tx.Fields.{le_bytes}
use pi_secure.Wire.{Parsed, ◌>>=◌, done, write_uint32, read_le, read_uint32, copy_bytes}
use pi_secure.Wire.Fields.{
  bind_inv, done_inv, pair_inv, read_le-le_bytes, length-le_bytes, read_le_takes, copy_bytes-append,
  copy_bytes_takes, read_le_sound, copy_bytes_sound,
}
use pi_secure.Wire.Rows.{RowCodec}
use pi_secure.Wire.Messages.{InvVect, write_inv, read_inv}

pub copy_bytes_exact : (n : ℕ) (h s : Bytes) → length h ≡ n → copy_bytes n (h ++ s) ≡ done (h, s)
copy_bytes_exact n h s e = rw (← e) (copy_bytes-append h s)

-- To go on behind a field that was read.
module _ {ℓ κ} {B : Type ℓ} {P : Type κ} where
  pub le_field :
      (n : ℕ) (s : Bytes) (next : ℕ × Bytes → Parsed B) (b : B)
      → All IsByte s
      → (read_le n s >>= next) ≡ done b
      → ((v : ℕ) (t : Bytes)
          → v < 256 ^ n
          → s ≡ le_bytes n v ++ t
          → All IsByte t
          → next (v, t) ≡ done b
          → P)
      → P
  le_field n s next b bytes e then_ =
      let ((v, t), (e1, h1)) = bind_inv (read_le n s) next b e in
      let (small, c) = read_le_sound n s v t bytes e1 in
      let rest = All-append_right IsByte (le_bytes n v) t (subst (All IsByte) c bytes) in
      then_ v t small c rest h1

  pub copy_field :
      (n : ℕ) (s : Bytes) (next : Bytes × Bytes → Parsed B) (b : B)
      → All IsByte s
      → (copy_bytes n s >>= next) ≡ done b
      → ((h t : Bytes) → length h ≡ n → s ≡ h ++ t → All IsByte t → next (h, t) ≡ done b → P)
      → P
  copy_field n s next b bytes e then_ =
      let ((h, t), (e1, h1)) = bind_inv (copy_bytes n s) next b e in
      let (len, c) = copy_bytes_sound n s h t e1 in
      let rest = All-append_right IsByte h t (subst (All IsByte) c bytes) in then_ h t len c rest h1

-- To go on behind a field that is there.
module _ {κ} {P : Type κ} where
  pub le_there :
      (n : ℕ) (s : Bytes)
      → n ≤ length s
      → ((v : ℕ) (t : Bytes) → read_le n s ≡ done (v, t) → n + length t ≡ length s → P)
      → P
  le_there n s there then_ = let (v, (t, (e, len))) = read_le_takes n s there in then_ v t e len

  pub copy_there :
      (n : ℕ) (s : Bytes)
      → n ≤ length s
      → ((h t : Bytes) → copy_bytes n s ≡ done (h, t) → n + length t ≡ length s → P)
      → P
  copy_there n s there then_ =
      let (h, (t, (e, len))) = copy_bytes_takes n s there in then_ h t e len

-- A hash of a locator.
abbrev pub hash_row : RowCodec Bytes
hash_row = record {
  size = 32;
  write = λ hash. hash;
  read = copy_bytes 32;
  IsRow = λ hash. length hash ≡ 32;
  length_write = λ hash h. h;
  read_write = λ hash s h. copy_bytes_exact 32 hash s h;
  read_sound = λ s hash t bytes e. copy_bytes_sound 32 s hash t e;
  read_takes = λ s h. copy_bytes_takes 32 s h;
}

abbrev pub IsInv : InvVect → Type 0
IsInv inv = (inv.type_ < u32_mod) × (length inv.hash ≡ 32)

pub length-write_inv : (inv : InvVect) → IsInv inv → length (write_inv inv) ≡ 36
unfolding write_inv write_uint32
length-write_inv inv (h, l) =
    omega (arith, length-append (le_bytes 4 inv.type_) inv.hash, length-le_bytes 4 inv.type_)

pub read_inv-write_inv :
    (inv : InvVect) (s : Bytes) → IsInv inv → read_inv (write_inv inv ++ s) ≡ done (inv, s)
unfolding write_inv write_uint32 read_inv read_uint32
read_inv-write_inv inv s (h, l) =
    rw append_assoc
      (rw (read_le-le_bytes 4 inv.type_ (inv.hash ++ s) h, copy_bytes_exact 32 inv.hash s l) refl)

pub read_inv_sound :
    (s : Bytes) (inv : InvVect) (t : Bytes)
    → All IsByte s
    → read_inv s ≡ done (inv, t)
    → IsInv inv × (s ≡ write_inv inv ++ t)
unfolding write_inv write_uint32 read_inv read_uint32
read_inv_sound s inv t bytes h =
    le_field 4 s _ (inv, t) bytes h
      λ v s1 r1 c1 b1 h1.
        copy_field 32 s1 _ (inv, t) b1 h1
          λ d s2 r2 c2 b2 h2.
            let (er, et) = pair_inv (record { type_ = v; hash = d }) inv s2 t (done_inv _ _ h2) in
            subst (λ inv. IsInv inv × (s ≡ (le_bytes 4 inv.type_ ++ inv.hash) ++ t)) er
              ((r1, r2), rw append_assoc (rw (c1, c2, et) refl))

pub read_inv_takes :
    (s : Bytes)
    → 36 ≤ length s
    → (inv : InvVect) × ((t : Bytes) × ((read_inv s ≡ done (inv, t)) × (36 + length t ≡ length s)))
unfolding read_inv read_uint32
read_inv_takes s h =
    let (v, (s1, (e1, l1))) = read_le_takes 4 s (omega arith) in
    let (d, (s2, (e2, l2))) = copy_bytes_takes 32 s1 (omega arith) in
    (record { type_ = v; hash = d }, (s2, (rw (e1, e2) refl, omega arith)))

abbrev pub inv_row : RowCodec InvVect
inv_row = record {
  size = 36;
  write = write_inv;
  read = read_inv;
  IsRow = IsInv;
  length_write = length-write_inv;
  read_write = read_inv-write_inv;
  read_sound = read_inv_sound;
  read_takes = read_inv_takes;
}
