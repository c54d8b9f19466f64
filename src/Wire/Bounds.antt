-- ===== src/Wire/Bounds.antt =====
-- Which payloads make the program read behind their end.
use pi_secure.Prelude.{
  ltb, leb, ◌==◌, if◌then◌else◌, leb→le, length, drop, Bytes, ℕ, ◌*◌, ◌≤◌, ◌≡◌, refl, ◌≢◌, Bool,
  true, false, not, ◌||◌, arith,
}
use pi_secure.Wire.{Parsed, done, refused, past_end, read_le, read_uint64, read_var_int, copy_bytes}
use pi_secure.Wire.Fields.{bind-ne-past_end, read_le_takes, copy_bytes_takes}
use pi_secure.Wire.VarInt.{IsRead, read_var_int-IsRead}
use pi_secure.Wire.Rows.{read_rows, read_rows-ne-past_end}
use pi_secure.Wire.Messages.{
  read_addr, addrs_of, deserialize_addr, read_inv, invs_of, deserialize_inv, locator_of,
  deserialize_get_headers, read_hash_stop, read_header, headers_of, deserialize_headers,
  deserialize_ping, deserialize_pong, is_empty, max_inv_size, compact_header_bytes,
}
use pi_secure.Wire.Codecs.{hash_row, inv_row}
use pi_secure.Wire.HeaderRow.{header_row}
use pi_secure.Wire.AddrRow.{addr_row}

-- No read behind the end.
abbrev pub InBounds {ℓ} : {A : Type ℓ} → Parsed A → Type ℓ
InBounds p = p ≢ past_end

pub done-InBounds {ℓ} : {A : Type ℓ} (a : A) → InBounds (done a)
done-InBounds a h = cc

pub guard-InBounds {ℓ} :
    {A : Type ℓ} (test : Bool) (p : Parsed A)
    → (test ≡ false → InBounds p)
    → InBounds (if test then refused else p)
guard-InBounds true p h = λ e. cc
guard-InBounds false p h = h refl

kept-InBounds {ℓ} : {A : Type ℓ} (test : Bool) (a : A) → InBounds (if test then done a else refused)
kept-InBounds true a = λ e. cc
kept-InBounds false a = λ e. cc

-- Where a field at the end is read only if it is there.
pub optional-InBounds {ℓ} :
    {A : Type ℓ} (test : Bool) (p : Parsed A) (a : A)
    → (test ≡ true → InBounds p)
    → InBounds (if test then p else done a)
optional-InBounds true p a h = h refl
optional-InBounds false p a h = λ e. cc

pub IsRead-InBounds {ℓ} :
    {A : Type ℓ} (s : Bytes) (p : Parsed (A × Bytes)) → IsRead s p → InBounds p
IsRead-InBounds s p (v, (t, (e, l))) = λ h. cc

pub read_le-InBounds : (n : ℕ) (s : Bytes) → n ≤ length s → InBounds (read_le n s)
read_le-InBounds n s there = let (v, (t, (e, l))) = read_le_takes n s there in λ h. cc

copy_bytes-InBounds : (n : ℕ) (s : Bytes) → n ≤ length s → InBounds (copy_bytes n s)
copy_bytes-InBounds n s there = let (v, (t, (e, l))) = copy_bytes_takes n s there in λ h. cc

deserialize_addr-InBounds : (payload : Bytes) → InBounds (deserialize_addr payload)
unfolding deserialize_addr addrs_of
deserialize_addr-InBounds payload = guard-InBounds (is_empty payload) _ λ _.
    bind-ne-past_end (read_var_int payload) _ (IsRead-InBounds _ _ (read_var_int-IsRead payload))
      λ (count, s). guard-InBounds (ltb 1000 count) _ λ _.
        bind-ne-past_end (read_rows 18 read_addr count s) _ (read_rows-ne-past_end addr_row count s)
          λ (addrs, t). done-InBounds addrs

deserialize_inv-InBounds : (payload : Bytes) → InBounds (deserialize_inv payload)
unfolding deserialize_inv invs_of
deserialize_inv-InBounds payload = guard-InBounds (is_empty payload) _ λ _.
    bind-ne-past_end (read_var_int payload) _ (IsRead-InBounds _ _ (read_var_int-IsRead payload))
      λ (count, s). guard-InBounds (ltb max_inv_size count) _ λ _.
        bind-ne-past_end (read_rows 36 read_inv count s) _ (read_rows-ne-past_end inv_row count s)
          λ (invs, t). done-InBounds invs

read_hash_stop-InBounds : (old s : Bytes) → InBounds (read_hash_stop old s)
unfolding read_hash_stop
read_hash_stop-InBounds old s = optional-InBounds (leb 32 (length s)) _ old λ h.
    bind-ne-past_end (copy_bytes 32 s) _ (copy_bytes-InBounds 32 s (leb→le 32 (length s) h))
      λ (hash, t). done-InBounds hash

deserialize_get_headers-InBounds :
    (payload old : Bytes) → InBounds (deserialize_get_headers payload old)
unfolding deserialize_get_headers locator_of
deserialize_get_headers-InBounds payload old = guard-InBounds (ltb (length payload) 37) _ λ _.
    bind-ne-past_end (read_var_int (drop 4 payload)) _
      (IsRead-InBounds _ _ (read_var_int-IsRead (drop 4 payload)))
      λ (count, s). guard-InBounds (ltb 500 count) _ λ _.
        bind-ne-past_end (read_rows 32 (copy_bytes 32) count s) _
          (read_rows-ne-past_end hash_row count s)
          λ (locator, t).
            bind-ne-past_end (read_hash_stop old t) _ (read_hash_stop-InBounds old t)
              λ hash. done-InBounds (locator, hash)

deserialize_headers-InBounds : (payload : Bytes) → InBounds (deserialize_headers payload)
unfolding deserialize_headers headers_of
deserialize_headers-InBounds payload = guard-InBounds (is_empty payload) _ λ _.
    bind-ne-past_end (read_var_int payload) _ (IsRead-InBounds _ _ (read_var_int-IsRead payload))
      λ (count, s). guard-InBounds (count == 0 || ltb 2000 count) _ λ _.
        guard-InBounds (not (length s == count * compact_header_bytes)) _ λ _.
          bind-ne-past_end (read_rows compact_header_bytes read_header count s) _
            (read_rows-ne-past_end header_row count s) λ (headers, t). kept-InBounds (is_empty t) _

deserialize_ping-InBounds : (payload : Bytes) → InBounds (deserialize_ping payload)
unfolding deserialize_ping read_uint64
deserialize_ping-InBounds payload = guard-InBounds (ltb (length payload) 8) _ λ h.
    bind-ne-past_end (read_le 8 payload) _ (read_le-InBounds 8 payload (ground arith))
      λ (nonce, s). done-InBounds nonce

-- On no payload at all does `deserialize_addr`, `deserialize_inv`, `deserialize_get_headers`,
-- `deserialize_headers`, `deserialize_ping` or `deserialize_pong` read behind its end.
pub deserialize-InBounds :
    (payload old : Bytes)
    → InBounds (deserialize_addr payload)
      × (InBounds (deserialize_inv payload)
          × (InBounds (deserialize_get_headers payload old)
              × (InBounds (deserialize_headers payload)
                  × (InBounds (deserialize_ping payload) × InBounds (deserialize_pong payload)))))
unfolding deserialize_pong
deserialize-InBounds payload old = (
  deserialize_addr-InBounds payload,
  (
    deserialize_inv-InBounds payload,
    (
      deserialize_get_headers-InBounds payload old,
      (
        deserialize_headers-InBounds payload,
        (deserialize_ping-InBounds payload, deserialize_ping-InBounds payload),
      ),
    ),
  ),
)
