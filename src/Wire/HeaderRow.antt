-- ===== src/Wire/HeaderRow.antt =====
-- The rows of `headers` as a `RowCodec`.
use pi_secure.Prelude.{
  length, length-append, Bytes, u64_mod, u32_mod, All, IsByte, ◌+◌, ◌≤◌, ◌<◌, ◌≡◌, refl, ap, subst,
  [], ◌++◌, append-nil, append_assoc, arith,
}
use pi_secure.Tx.Fields.{le_bytes}
use pi_secure.Index.{BlockHeader}
use pi_secure.Wire.{done, write_uint32, write_uint64, read_uint32, read_uint64}
use pi_secure.Wire.Fields.{done_inv, pair_inv, read_le-le_bytes, length-le_bytes}
use pi_secure.Wire.Rows.{RowCodec}
use pi_secure.Wire.Messages.{write_header, read_header, compact_header_bytes}
use pi_secure.Wire.Codecs.{copy_bytes_exact, le_field, copy_field, le_there, copy_there}

-- A header as it stands on the wire: its numbers fit, its hashes have 32 bytes, and its height is
-- not sent.
abbrev pub IsWireHeader : BlockHeader → Type 0
IsWireHeader h =
    (h.version < u32_mod)
    × ((length h.prev_block_hash ≡ 32)
        × ((length h.merkle_root ≡ 32)
            × ((h.timestamp < u64_mod)
                × ((h.difficulty < u32_mod)
                    × ((h.nonce < u64_mod) × ((length h.hash ≡ 32) × (h.height ≡ 0)))))))

-- The fields one behind the other, and what follows them.
abbrev fields : BlockHeader → Bytes → Bytes
fields h s =
    le_bytes 4 h.version
    ++ (h.prev_block_hash
        ++ (h.merkle_root
            ++ (le_bytes 8 h.timestamp
                ++ (le_bytes 4 h.difficulty ++ (le_bytes 8 h.nonce ++ (h.hash ++ s))))))

write_header-append : (h : BlockHeader) (s : Bytes) → write_header h ++ s ≡ fields h s
unfolding write_header write_uint32 write_uint64
write_header-append h s = simp append_assoc

length-fields :
    (h : BlockHeader) (s : Bytes)
    → length h.prev_block_hash ≡ 32
    → length h.merkle_root ≡ 32
    → length h.hash ≡ 32
    → length (fields h s) ≡ compact_header_bytes + length s
length-fields h s l1 l2 l3 = simp (length-append, length-le_bytes, l1, l2, l3) (omega arith)

pub length-write_header :
    (h : BlockHeader) → IsWireHeader h → length (write_header h) ≡ compact_header_bytes
length-write_header h (_, (l1, (l2, (_, (_, (_, (l3, _))))))) = omega (
  arith,
  ap length (append-nil (write_header h)),
  ap length (write_header-append h []),
  length-fields h [] l1 l2 l3,
)

pub read_header-write_header :
    (h : BlockHeader) (s : Bytes) → IsWireHeader h → read_header (write_header h ++ s) ≡ done (h, s)
unfolding read_header read_uint32 read_uint64
read_header-write_header h s (v, (p, (m, (t, (d, (n, (x, z))))))) = rw (write_header-append h s) (
    rw
      (
        read_le-le_bytes 4 h.version _ v,
        copy_bytes_exact 32 h.prev_block_hash _ p,
        copy_bytes_exact 32 h.merkle_root _ m,
        read_le-le_bytes 8 h.timestamp _ t,
        read_le-le_bytes 4 h.difficulty _ d,
        read_le-le_bytes 8 h.nonce _ n,
        copy_bytes_exact 32 h.hash _ x,
        ← z,
      )
      refl)

pub read_header_sound :
    (s : Bytes) (h : BlockHeader) (t : Bytes)
    → All IsByte s
    → read_header s ≡ done (h, t)
    → IsWireHeader h × (s ≡ write_header h ++ t)
unfolding read_header read_uint32 read_uint64
read_header_sound s h t b e =
    le_field 4 s _ (h, t) b e
      λ v s1 r1 c1 b1 e1.
        copy_field 32 s1 _ (h, t) b1 e1
          λ p s2 r2 c2 b2 e2.
            copy_field 32 s2 _ (h, t) b2 e2
              λ m s3 r3 c3 b3 e3.
                le_field 8 s3 _ (h, t) b3 e3
                  λ w s4 r4 c4 b4 e4.
                    le_field 4 s4 _ (h, t) b4 e4
                      λ d s5 r5 c5 b5 e5.
                        le_field 8 s5 _ (h, t) b5 e5
                          λ n s6 r6 c6 b6 e6.
                            copy_field 32 s6 _ (h, t) b6 e6
                              λ x s7 r7 c7 b7 e7.
                                let (er, et) = pair_inv _ h s7 t (done_inv _ _ e7) in
                                subst (λ h. IsWireHeader h × (s ≡ write_header h ++ t)) er
                                  (
                                    (r1, (r2, (r3, (r4, (r5, (r6, (r7, refl))))))),
                                    rw (write_header-append _ t)
                                        (rw (c1, c2, c3, c4, c5, c6, c7, et) refl),
                                  )

pub read_header_takes :
    (s : Bytes)
    → compact_header_bytes ≤ length s
    → (h : BlockHeader) × ((t : Bytes) × ((read_header s ≡ done (h, t))
          × (compact_header_bytes + length t ≡ length s)))
unfolding read_header read_uint32 read_uint64
read_header_takes s enough = le_there 4 s (omega arith) λ v s1 e1 l1.
    copy_there 32 s1 (omega arith) λ p s2 e2 l2. copy_there 32 s2 (omega arith) λ m s3 e3 l3.
      le_there 8 s3 (omega arith) λ w s4 e4 l4. le_there 4 s4 (omega arith) λ d s5 e5 l5.
        le_there 8 s5 (omega arith) λ n s6 e6 l6. copy_there 32 s6 (omega arith) λ x s7 e7 l7.
          let h : BlockHeader = record {
            version = v;
            prev_block_hash = p;
            merkle_root = m;
            timestamp = w;
            difficulty = d;
            nonce = n;
            hash = x;
            height = 0;
          } in
          (h, (s7, (rw (e1, e2, e3, e4, e5, e6, e7) refl, omega arith)))

abbrev pub header_row : RowCodec BlockHeader
header_row = record {
  size = compact_header_bytes;
  write = write_header;
  read = read_header;
  IsRow = IsWireHeader;
  length_write = length-write_header;
  read_write = read_header-write_header;
  read_sound = read_header_sound;
  read_takes = read_header_takes;
}
