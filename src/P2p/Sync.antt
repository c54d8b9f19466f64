-- ===== src/P2p/Sync.antt =====
-- cpp/pisecured/src/p2p.cpp: `handleGetHeaders`, `handleHeaders` and `handleBlock`.
use pi_secure.Prelude.{
  ltb, ◌==◌, if◌then◌else◌, length, take, Bytes, u32_mod, bytes_eq, ℕ, zero, suc, ◌+◌, ◌%◌, true,
  not, Option, none, some, List, [], ◌∷◌,
}
use pi_secure.Index.{
  Index, BlockHeader, block_index, get_header_by_hash, get_header_by_height, no_hash,
  validate_block_header, store_block_with_header,
}
use pi_secure.Pow.{validate_block_pow}
use pi_secure.Blocks.{append_block, Blocks}
use pi_secure.Wire.{Parsed, done, refused, past_end, ◌>>=◌, read_uint32, read_uint64, copy_bytes}
use pi_secure.Wire.Messages.{
  InvVect, serialize_headers, serialize_get_headers, deserialize_headers, deserialize_get_headers,
}
use pi_secure.P2p.{
  headers_msg, getheaders_msg, inv_block, max_block_bytes, Store, Peer, Node, Env, send_message,
  disconnect_peer, punish,
}
use pi_secure.P2p.Inventory.{request_data, broadcast_inv, begins_with_brace}

-- The first locator hash that the node has.
unfoldable pub find_start : Index → List Bytes → Option BlockHeader
find_start s [] = none
find_start s (hash ∷ locator) = elim (get_header_by_hash s hash) [
  | none ↦ find_start s locator
  | some header ↦ some header
]

unfoldable pub start_after : Option BlockHeader → ℕ
start_after none = 1
start_after (some header) = (header.height + 1) % u32_mod

-- The loop of `handleGetHeaders`, with the source's own bound of 2000 headers as `room`.
unfoldable pub collect_headers : Index → Bytes → ℕ → ℕ → List BlockHeader
collect_headers s hash_stop zero h = []
collect_headers s hash_stop (suc room) h =
    let rest = collect_headers s hash_stop room ((h + 1) % u32_mod) in
    if ltb s.best_height h then [] else elim (get_header_by_height s h) [
      | none ↦ []
      | some header ↦ header ∷ (if bytes_eq header.hash hash_stop then [] else rest)
    ]

unfoldable pub headers_for : Index → List Bytes → Bytes → List BlockHeader
headers_for s locator hash_stop =
    collect_headers s hash_stop 2000 (start_after (find_start s locator))

unfoldable pub send_headers : Env → List BlockHeader → Peer → Peer
send_headers env [] peer = peer
send_headers env (h ∷ headers) peer =
    send_message env headers_msg (serialize_headers (h ∷ headers)) peer

unfoldable pub answered_get_headers :
    Env → Node → Option Store → Parsed (List Bytes × Bytes) → Option Node
answered_get_headers env n none (done (locator, hash_stop)) = some n
answered_get_headers env n (some store) (done (locator, hash_stop)) =
    some (record n { peer = send_headers env (headers_for store.index locator hash_stop) n.peer })
answered_get_headers env n storage refused = some (punish n 10)
answered_get_headers env n storage past_end = none

unfoldable pub handle_get_headers : Env → Node → Bytes → Option Node
handle_get_headers env n payload =
    answered_get_headers env n n.storage (deserialize_get_headers payload env.stack_hash)

-- What the loop of `handleHeaders` comes to.
pub data Linked : Type 0 where
  -- every header links: the headers with their heights, and the blocks to request
  linked : List BlockHeader → List InvVect → Linked
  -- the first header follows nothing that is known
  unconnected : Linked
  -- a later header does not follow the one before it
  broken : Linked

-- The height of the first header.
unfoldable pub first_height : Index → BlockHeader → Option ℕ
first_height s header =
    if bytes_eq header.prev_block_hash no_hash
    then some 1
    else elim (get_header_by_hash s header.prev_block_hash) [
      | none ↦ none
      | some known ↦ some ((known.height + 1) % u32_mod)
    ]

-- The blocks to request: this one in front, unless it is there already.
unfoldable pub ask_unless : Option ℕ → Bytes → List InvVect → List InvVect
ask_unless none hash invs = record { type_ = inv_block; hash = hash } ∷ invs
ask_unless (some i) hash invs = invs

-- A header with its height, in front of what follows.
unfoldable pub link_to : Index → BlockHeader → Linked → Linked
link_to s header (linked headers invs) =
    linked (header ∷ headers) (ask_unless (block_index s header.hash) header.hash invs)
link_to s header unconnected = unconnected
link_to s header broken = broken

-- The rounds after the first.
unfoldable pub link_rest : Index → BlockHeader → List BlockHeader → Linked
link_rest s prev [] = linked [] []
link_rest s prev (header ∷ headers) =
    let here = record header { height = (prev.height + 1) % u32_mod } in
    let rest = link_rest s here headers in
    if not (bytes_eq header.prev_block_hash prev.hash) then broken else link_to s here rest

unfoldable pub link_first : Index → BlockHeader → List BlockHeader → Option ℕ → Linked
link_first s header headers none = unconnected
link_first s header headers (some height) =
    let here = record header { height = height } in link_to s here (link_rest s here headers)

unfoldable pub link_headers : Index → List BlockHeader → Linked
link_headers s [] = linked [] []
link_headers s (header ∷ headers) = link_first s header headers (first_height s header)

unfoldable pub last_hash : List BlockHeader → Bytes
last_hash [] = no_hash
last_hash (h ∷ []) = h.hash
last_hash (h ∷ (h' ∷ headers)) = last_hash (h' ∷ headers)

-- `handleHeaders`, after the loop.
unfoldable pub after_link : Env → List BlockHeader → Linked → Peer → Peer
after_link env headers broken peer = disconnect_peer (record peer { recv_buffer = [] })
after_link env headers unconnected peer =
    if peer.asked_from_start
    then peer
    else send_message env getheaders_msg (serialize_get_headers [] no_hash)
        (record peer { asked_from_start = true })
after_link env headers (linked _ invs) peer =
    let asked = request_data env invs peer in
    if length headers == 2000
    then send_message env getheaders_msg (serialize_get_headers (last_hash headers ∷ []) no_hash)
        asked
    else asked

unfoldable pub received_headers : Env → Node → Option Store → List BlockHeader → Node
received_headers env n none headers = n
received_headers env n (some store) headers = record n {
  peer = after_link env headers (link_headers store.index headers) n.peer;
}

unfoldable pub drop_peer : Node → Node
drop_peer n = record n { peer = disconnect_peer (record n.peer { recv_buffer = [] }) }

unfoldable pub answered_headers : Env → Node → ℕ → Parsed (List BlockHeader × ℕ) → Option Node
answered_headers env n size (done (headers, consumed)) =
    some (if consumed == size then received_headers env n n.storage headers else drop_peer n)
answered_headers env n size refused = some (drop_peer n)
answered_headers env n size past_end = none

unfoldable pub handle_headers : Env → Node → Bytes → Option Node
handle_headers env n payload = answered_headers env n (length payload) (deserialize_headers payload)

-- The header of a block that is not JSON, from its first 112 bytes.
unfoldable pub read_block_header : Env → Bytes → Parsed BlockHeader
read_block_header env payload = do
  (version, s) ← read_uint32 payload
  (prev_block_hash, s) ← copy_bytes 32 s
  (merkle_root, s) ← copy_bytes 32 s
  (timestamp, s) ← read_uint64 s
  (difficulty, s) ← read_uint32 s
  (nonce, s) ← read_uint64 s
  done (record {
    version = version;
    prev_block_hash = prev_block_hash;
    merkle_root = merkle_root;
    timestamp = timestamp;
    difficulty = difficulty;
    nonce = nonce;
    hash = env.sha256 (take 112 payload);
    height = 0;
  })

-- After `store_block_with_header`: a block that is stored is announced.
unfoldable pub stored_binary : Node → Store → BlockHeader → Blocks → Option Index → Node
stored_binary n store header blocks none = record n {
  storage = some (record store { blocks = blocks });
}
stored_binary n store header blocks (some index) =
    broadcast_inv (record n { storage = some (record store { index = index; blocks = blocks }) })
      (record { type_ = inv_block; hash = header.hash })

unfoldable pub store_binary : Env → Node → Store → BlockHeader → Bytes → Node
store_binary env n store header payload =
    let (blocks, appended) = append_block store.blocks env.opened payload in
    stored_binary n store header blocks
      (store_block_with_header store.index appended header.hash header)

-- The tests on the header of a block that is not JSON, with the header before it.
unfoldable pub check_binary : Env → Node → Store → BlockHeader → Option BlockHeader → Bytes → Node
check_binary env n store header none payload = n
check_binary env n store header (some prev) payload =
    let placed = record header { height = (prev.height + 1) % u32_mod } in
    if validate_block_header placed (some prev)
    then store_binary env n store placed payload
    else punish n 30

unfoldable pub binary_block : Env → Node → Store → Bytes → Parsed BlockHeader → Option Node
binary_block env n store payload (done header) = some (
    if validate_block_pow header.hash header.difficulty
    then check_binary env n store header (get_header_by_hash store.index header.prev_block_hash)
        payload
    else punish n 50)
binary_block env n store payload refused = some n
binary_block env n store payload past_end = none

unfoldable pub handle_block_at : Env → Node → Option Store → Bytes → Option Node
handle_block_at env n none payload = some n
handle_block_at env n (some store) payload =
    if begins_with_brace payload
    then (if ltb max_block_bytes (length payload)
        then some (punish n 20)
        else some (env.submit n payload))
    else if ltb (length payload) 112
    then some (punish n 10)
    else binary_block env n store payload (read_block_header env payload)

unfoldable pub handle_block : Env → Node → Bytes → Option Node
handle_block env n payload = handle_block_at env n n.storage payload
