-- ===== src/P2p/Exchange.antt =====
-- Headers from one node to another: `handleGetHeaders` of the one, `handleHeaders` of the other.
use pi_secure.Wire.Headers.{deserialize_headers-serialize_headers}
use pi_secure.Wire.{done}
use pi_secure.Wire.HeaderRow.{IsWireHeader}
use pi_secure.P2p.{Env, Node, Store}
use pi_secure.P2p.Sync.{
  handle_headers, headers_for, received_headers, answered_headers, after_link, link_headers, linked,
}
use pi_secure.Prelude.{
  ◌==◌, ==_iff, length, length-map, Bytes, All, ℕ, ◌≤◌, ◌≡◌, refl, sym, ap, ap₂, ◌∙◌, true, some,
  List, [], ◌∷◌, map, arith,
}
use pi_secure.Index.{Index, BlockHeader}
use pi_secure.Wire.Messages.{
  write_header, serialize_headers, header_rows, counted_rows, deserialize_headers,
}
use pi_secure.P2p.Headers.{
  without_height, IsSendable, IsRun, IsAnchored, missing, length-headers_for, link_headers-IsRun,
}

write_header-height : (h : BlockHeader) → write_header h ≡ write_header (without_height h)
unfolding write_header
write_header-height h = refl

header_rows-height :
    (headers : List BlockHeader) → header_rows headers ≡ header_rows (map without_height headers)
unfolding header_rows write_header
header_rows-height [] = refl
header_rows-height (h ∷ headers) = rw (write_header-height h) (rw (header_rows-height headers) refl)

serialize_headers-height :
    (headers : List BlockHeader)
    → serialize_headers headers ≡ serialize_headers (map without_height headers)
unfolding serialize_headers
serialize_headers-height headers =
    ap₂ counted_rows (sym (length-map headers without_height)) (header_rows-height headers)

All-map :
    (headers : List BlockHeader)
    → All IsSendable headers
    → All IsWireHeader (map without_height headers)
All-map [] all = tt
All-map (h ∷ headers) (s, all) = (s, All-map headers all)

answered_whole :
    (env : Env) (n : Node) (headers : List BlockHeader) (size : ℕ)
    → answered_headers env n size (done (headers, size))
      ≡ some (received_headers env n n.storage headers)
unfolding answered_headers
answered_whole env n headers size =
    let all : (size == size) ≡ true = (==_iff size size).1 refl in rw all refl

received_known :
    (env : Env) (n : Node) (store : Store) (headers : List BlockHeader)
    → n.storage ≡ some store
    → received_headers env n n.storage headers
      ≡ record n { peer = after_link env headers (link_headers store.index headers) n.peer }
unfolding received_headers
received_known env n store headers known = rw known refl

-- What a node answers to `getheaders`, from its index `server`, arrives at a node whose storage has
-- the index of `store`. Let the answer be a run of headers whose numbers fit their fields, each
-- after the one before it and at the next height, and let the client know the block before the first.
-- Then the client reads the headers without their heights; its loop gives them exactly their
-- heights on the server, and asks for exactly the blocks among them that it does not have; and so
-- the handler ends.
pub handle_headers-headers_for :
    (env : Env) (n : Node) (store : Store) (server : Index) (locator : List Bytes) (stop : Bytes)
    (h : BlockHeader) (headers : List BlockHeader)
    → headers_for server locator stop ≡ h ∷ headers
    → All IsSendable (h ∷ headers)
    → IsRun h headers
    → IsAnchored store.index h
    → n.storage ≡ some store
    → (deserialize_headers (serialize_headers (h ∷ headers))
        ≡ done (map without_height (h ∷ headers), length (serialize_headers (h ∷ headers))))
      × ((link_headers store.index (map without_height (h ∷ headers))
            ≡ linked (h ∷ headers) (missing store.index (h ∷ headers)))
          × (handle_headers env n (serialize_headers (h ∷ headers))
              ≡ some (record n {
                peer =
                    after_link env
                      (map without_height (h ∷ headers))
                      (linked (h ∷ headers) (missing store.index (h ∷ headers)))
                      n.peer;
              })))
unfolding handle_headers
handle_headers-headers_for env n store server locator stop h headers e all run anchored known =
    let sent = map without_height (h ∷ headers) in
    let size = length-map headers without_height in
    let few : length sent ≤ 2000 =
      omega (arith, ap length e, length-headers_for server locator stop, size) in
    let read =
      deserialize_headers-serialize_headers sent (omega arith) few (All-map (h ∷ headers) all) in
    let placed = link_headers-IsRun store.index h headers anchored run in
    rw (serialize_headers-height (h ∷ headers)) (
      read,
      (
        placed,
        ap (answered_headers env n (length (serialize_headers sent))) read
            ∙ answered_whole env n sent (length (serialize_headers sent))
            ∙ ap some (received_known env n store sent known)
            ∙ ap (λ links. some (record n { peer = after_link env sent links n.peer })) placed,
      ),
    )
