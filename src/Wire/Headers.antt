-- ===== src/Wire/Headers.antt =====
-- `headers` messages: `serializeHeaders` and `deserializeHeaders`.
use pi_secure.Prelude.{
  ltb, ◌==◌, ==_iff, length, Bytes, All, IsByte, ℕ, ◌*◌, ◌≤◌, ◌≡◌, refl, sym, ap₂, ◌∙◌, true, false,
  not, ◌||◌, some, List, [], ◌∷◌, ◌++◌, append-nil, arith,
}
use pi_secure.Index.{BlockHeader}
use pi_secure.Wire.{done, write_var_int, read_var_int}
use pi_secure.Wire.Fields.{bind_inv, done_inv, pair_inv, guard_inv, kept_inv}
use pi_secure.Wire.VarInt.{read_var_int-write_var_int, read_var_int-LeavesBytes}
use pi_secure.Wire.Rows.{
  read_rows, write_rows, read_rows-write_rows, length-write_rows, read_rows_sound,
}
use pi_secure.Wire.Messages.{
  write_header, read_header, header_rows, serialize_headers, headers_of, deserialize_headers,
  is_empty, compact_header_bytes, counted_rows,
}
use pi_secure.Wire.HeaderRow.{IsWireHeader, header_row, length-write_header}

header_rows-write_rows :
    (headers : List BlockHeader)
    → All IsWireHeader headers
    → header_rows headers ≡ some (write_rows write_header headers)
unfolding header_rows write_rows
header_rows-write_rows [] h = refl
header_rows-write_rows (x ∷ headers) (hx, h) =
    let sized : (length (write_header x) == compact_header_bytes) ≡ true =
      (==_iff _ _).1 (length-write_header x hx) in
    rw sized (rw (header_rows-write_rows headers h) refl)

serialize_headers-rows :
    (headers : List BlockHeader)
    → All IsWireHeader headers
    → serialize_headers headers ≡ write_var_int (length headers) ++ write_rows write_header headers
unfolding serialize_headers counted_rows
serialize_headers-rows headers h = rw (header_rows-write_rows headers h) refl

pub is_empty-write_var_int : (v : ℕ) (s : Bytes) → is_empty (write_var_int v ++ s) ≡ false
unfolding is_empty write_var_int
is_empty-write_var_int v s = ground arith

headers_of_rows :
    (size count : ℕ) (s : Bytes) (headers : List BlockHeader)
    → 1 ≤ count
    → count ≤ 2000
    → length s ≡ count * compact_header_bytes
    → read_rows compact_header_bytes read_header count s ≡ done (headers, [])
    → headers_of size count s ≡ done (headers, size)
unfolding headers_of is_empty
headers_of_rows size count s headers lo hi len e =
    let counted : (count == 0 || ltb 2000 count) ≡ false = ground arith in
    let sized : (length s == count * compact_header_bytes) ≡ true = (==_iff _ _).1 len in
    rw (counted, sized) (rw e refl)

-- From 1 to 2000 headers whose numbers fit their fields, whose three hashes have 32 bytes each, and
-- whose height, which is not sent, is 0. `deserialize_headers` accepts what `serialize_headers`
-- makes of them, gives back exactly those headers, and has consumed every byte.
pub deserialize_headers-serialize_headers :
    (headers : List BlockHeader)
    → 1 ≤ length headers
    → length headers ≤ 2000
    → All IsWireHeader headers
    → deserialize_headers (serialize_headers headers)
      ≡ done (headers, length (serialize_headers headers))
unfolding deserialize_headers
deserialize_headers-serialize_headers headers lo hi h =
    let count = length headers in
    let rows : Bytes = write_rows write_header headers in
    let read =
      headers_of_rows (length (write_var_int count ++ rows)) count rows headers lo hi
        (length-write_rows header_row headers h)
        (rw append-nil at (read_rows-write_rows header_row headers [] h)) in
    rw (serialize_headers-rows headers h) (
      rw (is_empty-write_var_int count rows, read_var_int-write_var_int count rows (omega arith))
        read)

is_empty_inv : (t : Bytes) → is_empty t ≡ true → t ≡ []
unfolding is_empty
is_empty_inv [] h = refl
is_empty_inv (b ∷ t) h = cc

headers_of_inv :
    (size count : ℕ) (s : Bytes) (headers : List BlockHeader) (consumed : ℕ)
    → headers_of size count s ≡ done (headers, consumed)
    → (1 ≤ count)
      × ((count ≤ 2000)
          × ((consumed ≡ size)
              × (read_rows compact_header_bytes read_header count s ≡ done (headers, []))))
unfolding headers_of
headers_of_inv size count s headers consumed e =
    let (counted, e1) = guard_inv (count == 0 || ltb 2000 count) _ _ e in
    let (sized, e2) = guard_inv (not (length s == count * compact_header_bytes)) _ _ e1 in
    let ((rows, t), (er, e3)) =
      bind_inv (read_rows compact_header_bytes read_header count s) _ _ e2 in
    let (ended, e4) = kept_inv (is_empty t) (done (rows, size)) _ e3 in
    let (eh, ec) = pair_inv rows headers size consumed (done_inv _ _ e4) in
    (
      ground arith,
      (ground arith, (sym ec, er ∙ ap₂ (λ r t. done (r, t)) eh (is_empty_inv t ended))),
    )

-- Whatever `deserialize_headers` accepts, it has consumed every byte of, and behind the count stand
-- exactly the rows that are written for the 1 to 2000 headers that it gives, all of which fit their
-- fields.
pub deserialize_headers_sound :
    (payload : Bytes) (headers : List BlockHeader) (consumed : ℕ)
    → All IsByte payload
    → deserialize_headers payload ≡ done (headers, consumed)
    → (consumed ≡ length payload)
      × ((1 ≤ length headers)
          × ((length headers ≤ 2000)
              × (All IsWireHeader headers
                  × (read_var_int payload
                      ≡ done (length headers, write_rows write_header headers)))))
unfolding deserialize_headers
deserialize_headers_sound payload headers consumed bytes e =
    let (_, e1) = guard_inv (is_empty payload) _ _ e in
    let ((count, s), (ec, e2)) = bind_inv (read_var_int payload) _ _ e1 in
    let (lo, (hi, (all, er))) = headers_of_inv (length payload) count s headers consumed e2 in
    let rest = read_var_int-LeavesBytes payload count s bytes ec in
    let (len, (rows, es)) = read_rows_sound header_row count s headers [] rest er in
    (
      all,
      (
        omega arith,
        (omega arith, (rows, ec ∙ ap₂ (λ c s. done (c, s)) (sym len) (es ∙ append-nil _))),
      ),
    )
