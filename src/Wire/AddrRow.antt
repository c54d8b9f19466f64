-- ===== src/Wire/AddrRow.antt =====
-- The rows of `addr` as a `RowCodec`.
use pi_secure.Prelude.{
  length, length-append, Bytes, u64_mod, u32_mod, All, IsByte, ℕ, ◌+◌, ◌*◌, ◌/◌, ◌%◌, ◌^◌, ◌≤◌, ◌<◌,
  ◌≡◌, refl, subst, [], ◌∷◌, ◌++◌, append_assoc, arith,
}
use pi_secure.Tx.Fields.{le_bytes}
use pi_secure.Wire.{done, write_uint32, write_uint64, read_uint32, read_uint64}
use pi_secure.Wire.Fields.{
  bind_inv, done_inv, pair_inv, read_le-le_bytes, length-le_bytes, read_le_takes,
}
use pi_secure.Wire.Rows.{RowCodec}
use pi_secure.Wire.Messages.{PeerAddr, write_addr, read_port, read_addr}
use pi_secure.Wire.Codecs.{le_field}

-- An address as it stands on the wire: its numbers fit, and its failures are not sent.
abbrev pub IsWireAddr : PeerAddr → Type 0
IsWireAddr a =
    (a.last_seen < u64_mod)
    × ((a.services < u32_mod) × ((a.ip < u32_mod) × ((a.port < 2 ^ 16) × (a.failures ≡ 0))))

abbrev port_bytes : ℕ → Bytes
port_bytes port = (port / 256 % 256) ∷ (port % 256) ∷ []

read_port_lem :
    (port : ℕ) (s : Bytes) → port < 2 ^ 16 → read_port (port_bytes port ++ s) ≡ done (port, s)
unfolding read_port
read_port_lem port s h =
    let e : port / 256 % 256 * 256 + port % 256 ≡ port = omega arith in rw e refl

pub length-write_addr : (a : PeerAddr) → IsWireAddr a → length (write_addr a) ≡ 18
unfolding write_addr write_uint32 write_uint64
length-write_addr a h = omega (
  arith,
  length-append (le_bytes 8 a.last_seen)
      (le_bytes 4 a.services ++ (le_bytes 4 a.ip ++ port_bytes a.port)),
  length-append (le_bytes 4 a.services) (le_bytes 4 a.ip ++ port_bytes a.port),
  length-append (le_bytes 4 a.ip) (port_bytes a.port),
  length-le_bytes 8 a.last_seen,
  length-le_bytes 4 a.services,
  length-le_bytes 4 a.ip,
)

pub read_addr-write_addr :
    (a : PeerAddr) (s : Bytes) → IsWireAddr a → read_addr (write_addr a ++ s) ≡ done (a, s)
unfolding write_addr write_uint32 write_uint64 read_addr read_uint32 read_uint64
read_addr-write_addr a s (l, (v, (i, (p, z)))) = simp append_assoc (
    rw
      (
        read_le-le_bytes 8 a.last_seen _ l,
        read_le-le_bytes 4 a.services _ v,
        read_le-le_bytes 4 a.ip _ i,
        read_port_lem a.port s p,
        ← z,
      )
      refl)

read_port_sound :
    (s : Bytes) (port : ℕ) (t : Bytes)
    → All IsByte s
    → read_port s ≡ done (port, t)
    → (port < 2 ^ 16) × (s ≡ port_bytes port ++ t)
unfolding read_port
read_port_sound [] port t b e = cc
read_port_sound (x ∷ []) port t b e = cc
read_port_sound (high ∷ low ∷ s) port t (h, (l, b)) e =
    let (ep, et) = pair_inv (high * 256 + low) port s t (done_inv _ _ e) in
    let e1 : port / 256 % 256 ≡ high = omega arith in
    let e2 : port % 256 ≡ low = omega arith in (omega arith, rw (e1, e2, et) refl)

read_port_takes :
    (s : Bytes)
    → 2 ≤ length s
    → (port : ℕ) × ((t : Bytes) × ((read_port s ≡ done (port, t)) × (2 + length t ≡ length s)))
unfolding read_port
read_port_takes [] h = absurd (omega arith)
read_port_takes (x ∷ []) h = absurd (omega arith)
read_port_takes (high ∷ low ∷ s) h = (high * 256 + low, (s, (refl, omega arith)))

pub read_addr_sound :
    (s : Bytes) (a : PeerAddr) (t : Bytes)
    → All IsByte s
    → read_addr s ≡ done (a, t)
    → IsWireAddr a × (s ≡ write_addr a ++ t)
unfolding write_addr write_uint32 write_uint64 read_addr read_uint32 read_uint64
read_addr_sound s a t b e =
    le_field 8 s _ (a, t) b e
      λ l s1 r1 c1 b1 e1.
        le_field 4 s1 _ (a, t) b1 e1
          λ v s2 r2 c2 b2 e2.
            le_field 4 s2 _ (a, t) b2 e2
              λ i s3 r3 c3 b3 e3.
                let ((p, s4), (e4, h4)) = bind_inv (read_port s3) _ (a, t) e3 in
                let (er, et) = pair_inv _ a s4 t (done_inv _ _ h4) in
                let (r4, c4) = read_port_sound s3 p s4 b3 e4 in
                subst (λ a. IsWireAddr a × (s ≡ write_addr a ++ t)) er
                  ((r1, (r2, (r3, (r4, refl)))), simp append_assoc (rw (c1, c2, c3, c4, et) refl))

pub read_addr_takes :
    (s : Bytes)
    → 18 ≤ length s
    → (a : PeerAddr) × ((t : Bytes) × ((read_addr s ≡ done (a, t)) × (18 + length t ≡ length s)))
unfolding read_addr read_uint32 read_uint64
read_addr_takes s enough =
    let (l, (s1, (e1, l1))) = read_le_takes 8 s (omega arith) in
    let (v, (s2, (e2, l2))) = read_le_takes 4 s1 (omega arith) in
    let (i, (s3, (e3, l3))) = read_le_takes 4 s2 (omega arith) in
    let (p, (s4, (e4, l4))) = read_port_takes s3 (omega arith) in
    (
      record { ip = i; port = p; last_seen = l; services = v; failures = 0 },
      (s4, (rw (e1, e2, e3, e4) refl, omega arith)),
    )

abbrev pub addr_row : RowCodec PeerAddr
addr_row = record {
  size = 18;
  write = write_addr;
  read = read_addr;
  IsRow = IsWireAddr;
  length_write = length-write_addr;
  read_write = read_addr-write_addr;
  read_sound = read_addr_sound;
  read_takes = read_addr_takes;
}
