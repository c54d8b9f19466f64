-- ===== src/Wire/Peers.antt =====
-- `version`, `addr`, `inv`, `getdata` and `getheaders` messages read back.
use pi_secure.Prelude.{
  ltb, leb, length, length-append, drop, Bytes, u64_mod, u32_mod, All, ℕ, ◌%◌, ◌^◌, ◌≤◌, ◌<◌, ◌≡◌,
  refl, true, false, List, [], ◌++◌, append-nil, arith,
}
use pi_secure.Tx.Fields.{le_bytes}
use pi_secure.Wire.{
  done, write_uint32, write_uint64, write_var_int, read_uint32, read_uint64, copy_bytes,
}
use pi_secure.Wire.Fields.{read_le-le_bytes, length-le_bytes}
use pi_secure.Wire.VarInt.{
  read_var_int-write_var_int, read_string-write_string, length-write_var_int,
}
use pi_secure.Wire.Rows.{read_rows, write_rows, read_rows-write_rows}
use pi_secure.Wire.Messages.{
  PeerAddr, InvVect, Version, write_addr, read_addr, serialize_addr, addrs_of, deserialize_addr,
  write_inv, read_inv, serialize_inv, serialize_get_data, invs_of, deserialize_inv,
  serialize_get_headers, locator_of, deserialize_get_headers, read_hash_stop, serialize_version,
  deserialize_version, read_start_height, max_inv_size, protocol_version,
}
use pi_secure.Wire.Codecs.{copy_bytes_exact, hash_row, IsInv, inv_row}
use pi_secure.Wire.AddrRow.{IsWireAddr, addr_row}
use pi_secure.Wire.Headers.{is_empty-write_var_int}

addrs_of_rows :
    (count : ℕ) (s : Bytes) (addrs : List PeerAddr)
    → count ≤ 1000
    → read_rows 18 read_addr count s ≡ done (addrs, [])
    → addrs_of count s ≡ done addrs
unfolding addrs_of
addrs_of_rows count s addrs hi e =
    let few : ltb 1000 count ≡ false = ground arith in rw few (rw e refl)

invs_of_rows :
    (count : ℕ) (s : Bytes) (invs : List InvVect)
    → count ≤ max_inv_size
    → read_rows 36 read_inv count s ≡ done (invs, [])
    → invs_of count s ≡ done invs
unfolding invs_of
invs_of_rows count s invs hi e =
    let few : ltb max_inv_size count ≡ false = ground arith in rw few (rw e refl)

-- At most 1000 addresses whose numbers fit their fields and whose failures, which are not sent, are
-- 0: `deserialize_addr` gives back what `serialize_addr` was given.
pub deserialize_addr-serialize_addr :
    (addrs : List PeerAddr)
    → length addrs ≤ 1000
    → All IsWireAddr addrs
    → deserialize_addr (serialize_addr addrs) ≡ done addrs
unfolding deserialize_addr serialize_addr
deserialize_addr-serialize_addr addrs hi h =
    let count = length addrs in
    let rows : Bytes = write_rows write_addr addrs in
    rw (is_empty-write_var_int count rows, read_var_int-write_var_int count rows (omega arith))
      (addrs_of_rows count rows addrs hi
        (rw append-nil at (read_rows-write_rows addr_row addrs [] h)))

-- At most 50000 inventory entries with hashes of 32 bytes and types below 2^32:
-- `deserialize_inv` gives back what `serialize_inv`, or `serialize_get_data`, was given.
pub deserialize_inv-serialize_inv :
    (invs : List InvVect)
    → length invs ≤ max_inv_size
    → All IsInv invs
    → (deserialize_inv (serialize_inv invs) ≡ done invs)
      × (deserialize_inv (serialize_get_data invs) ≡ done invs)
unfolding deserialize_inv serialize_inv serialize_get_data
deserialize_inv-serialize_inv invs hi h =
    let count = length invs in
    let rows : Bytes = write_rows write_inv invs in
    let e : deserialize_inv (write_var_int count ++ rows) ≡ done invs =
      rw (is_empty-write_var_int count rows, read_var_int-write_var_int count rows (omega arith))
        (invs_of_rows count rows invs hi
          (rw append-nil at (read_rows-write_rows inv_row invs [] h))) in
    (e, e)

read_hash_stop_there : (old hash : Bytes) → length hash ≡ 32 → read_hash_stop old hash ≡ done hash
unfolding read_hash_stop
read_hash_stop_there old hash h =
    let full : leb 32 (length hash) ≡ true = ground arith in
    rw full (rw (rw append-nil at (copy_bytes_exact 32 hash [] h)) refl)

locator_of_rows :
    (old : Bytes) (count : ℕ) (s : Bytes) (locator : List Bytes) (hash_stop : Bytes)
    → count ≤ 500
    → length hash_stop ≡ 32
    → read_rows 32 (copy_bytes 32) count s ≡ done (locator, hash_stop)
    → locator_of old count s ≡ done (locator, hash_stop)
unfolding locator_of
locator_of_rows old count s locator hash_stop hi h e =
    let few : ltb 500 count ≡ false = ground arith in
    rw few (rw e (rw (read_hash_stop_there old hash_stop h) refl))

drop-write_uint32 : (v : ℕ) (s : Bytes) → drop 4 (write_uint32 v ++ s) ≡ s
unfolding write_uint32 le_bytes
drop-write_uint32 v s = refl

length-get_headers :
    (v c : ℕ) (rows hash_stop : Bytes)
    → length hash_stop ≡ 32
    → ltb (length (write_uint32 v ++ (write_var_int c ++ (rows ++ hash_stop)))) 37 ≡ false
unfolding write_uint32
length-get_headers v c rows hash_stop h =
    let l1 = length-append (le_bytes 4 v) (write_var_int c ++ (rows ++ hash_stop)) in
    let l2 = length-append (write_var_int c) (rows ++ hash_stop) in
    let l3 = length-append rows hash_stop in
    let l4 = length-le_bytes 4 v in
    let l5 = length-write_var_int c in
    let size : 37 ≤ length (le_bytes 4 v ++ (write_var_int c ++ (rows ++ hash_stop))) =
      omega arith in
    ground arith

-- At most 500 locator hashes and a hash to stop at, all of 32 bytes: `deserialize_get_headers` gives
-- back what `serialize_get_headers` was given, whatever hash to stop at stood there before.
pub deserialize_get_headers-serialize_get_headers :
    (locator : List Bytes) (hash_stop old : Bytes)
    → length locator ≤ 500
    → All (λ hash. length hash ≡ 32) locator
    → length hash_stop ≡ 32
    → deserialize_get_headers (serialize_get_headers locator hash_stop) old
      ≡ done (locator, hash_stop)
unfolding deserialize_get_headers serialize_get_headers
deserialize_get_headers-serialize_get_headers locator hash_stop old hi all h =
    let count = length locator in
    let rows : Bytes = write_rows (λ hash. hash) locator in
    rw
      (
        length-get_headers protocol_version count rows hash_stop h,
        drop-write_uint32 protocol_version (write_var_int count ++ (rows ++ hash_stop)),
        read_var_int-write_var_int count (rows ++ hash_stop) (omega arith),
      )
      (locator_of_rows old count (rows ++ hash_stop) locator hash_stop hi h
        (read_rows-write_rows hash_row locator hash_stop all))

-- A version message whose numbers fit their fields.
abbrev pub IsVersion : Version → Type 0
IsVersion v =
    (v.version < u32_mod)
    × ((v.services < u32_mod)
        × ((v.timestamp < u64_mod)
            × ((length v.user_agent < u64_mod) × (v.start_height < u32_mod))))

read_start_height_there :
    (old height : ℕ) → height < u32_mod → read_start_height old (write_uint32 height) ≡ done height
unfolding read_start_height write_uint32 read_uint32
read_start_height_there old height h =
    let l = length-le_bytes 4 height in
    let full : leb 4 (length (le_bytes 4 height)) ≡ true = ground arith in
    rw full (rw (rw append-nil at (read_le-le_bytes 4 height [] h)) refl)

drop-addr_fields : (a b : ℕ) (s : Bytes) → drop 16 (le_bytes 8 a ++ (le_bytes 8 b ++ s)) ≡ s
unfolding le_bytes
drop-addr_fields a b s = refl

length-numbers :
    (v a b c d e : ℕ) (s : Bytes)
    → ltb
        (length (
          le_bytes 4 v
          ++ (le_bytes 8 a
              ++ (le_bytes 8 b ++ (le_bytes 8 c ++ (le_bytes 8 d ++ (le_bytes 8 e ++ s)))))))
        40
      ≡ false
unfolding le_bytes
length-numbers v a b c d e s = ground arith

-- A version message whose numbers fit their fields reads back, whatever the two addresses and the
-- start height from before are.
pub deserialize_version-serialize_version :
    (v : Version) (addr_recv addr_from : PeerAddr) (nonce start_height : ℕ)
    → IsVersion v
    → nonce < u64_mod
    → deserialize_version (serialize_version v addr_recv addr_from nonce) start_height ≡ done v
unfolding deserialize_version serialize_version write_uint64 read_uint32 read_uint64
deserialize_version-serialize_version v addr_recv addr_from nonce start_height
      (h1, (h2, (h3, (h4, h5)))) small =
    let fits : v.services < 256 ^ 8 = omega arith in
    let same : v.services % u32_mod ≡ v.services = omega arith in
    unfold write_uint32 in
    rw
      (length-numbers v.version v.services v.timestamp addr_recv.services addr_from.services nonce
        _)
      (rw
        (
          read_le-le_bytes 4 v.version _ h1,
          read_le-le_bytes 8 v.services _ fits,
          read_le-le_bytes 8 v.timestamp _ h3,
          drop-addr_fields addr_recv.services addr_from.services _,
          read_le-le_bytes 8 nonce _ small,
          read_string-write_string v.user_agent _ h4,
          read_start_height_there start_height v.start_height h5,
          same,
        )
        refl)
