-- ===== src/P2p/Process.antt =====
-- cpp/pisecured/src/p2p.cpp: `processMessages`.
use pi_secure.AddrMan.{ban}
use pi_secure.Prelude.{
  ltb, if◌then◌else◌, length, get_elem?, take, drop, Bytes, ℕ, zero, suc, ◌+◌, ◌*◌, Bool, true,
  false, not, ◌||◌, Option, none, some, [], ◌∷◌, ◌++◌,
}
use pi_secure.P2p.{
  MsgType, version_msg, verack_msg, addr_msg, inv_msg, getdata_msg, headers_msg, getheaders_msg,
  block_msg, tx_msg, ping_msg, pong_msg, reject_msg, getblocks_msg, threat_alert_msg, Node, Env,
  disconnect_peer, should_ban, max_message_bytes, max_block_bytes, max_tx_json_bytes, Peer,
}
use pi_secure.P2p.Greet.{handle_version, handle_verack, handle_addr, handle_ping, handle_pong}
use pi_secure.P2p.Inventory.{handle_inv, handle_get_data, handle_tx}
use pi_secure.P2p.Sync.{handle_get_headers, handle_headers, handle_block, drop_peer}
use pi_secure.P2p.Threats.{handle_threat_alert}

-- `static_cast<P2PMsgType>` of a known type.
unfoldable pub msg_type : ℕ → Option MsgType
msg_type code =
    get_elem?
      (version_msg ∷ verack_msg ∷ addr_msg ∷ inv_msg ∷ getdata_msg ∷ headers_msg ∷ getheaders_msg
        ∷ block_msg ∷ tx_msg ∷ ping_msg ∷ pong_msg ∷ reject_msg ∷ getblocks_msg ∷ threat_alert_msg
        ∷ [])
      code

-- The handlers: what `recv_buffer` holds behind the message stands in the peer.
unfoldable pub dispatch : Env → MsgType → Bytes → Node → Option Node
dispatch env version_msg payload n = handle_version env n payload
dispatch env verack_msg payload n = some (handle_verack env n)
dispatch env addr_msg payload n = handle_addr env n payload
dispatch env inv_msg payload n = handle_inv env n payload
dispatch env getdata_msg payload n = handle_get_data env n payload
dispatch env getheaders_msg payload n = handle_get_headers env n payload
dispatch env headers_msg payload n = handle_headers env n payload
dispatch env block_msg payload n = handle_block env n payload
dispatch env tx_msg payload n = some (handle_tx env n payload)
dispatch env ping_msg payload n = handle_ping env n payload
dispatch env pong_msg payload n = handle_pong env n payload
dispatch env threat_alert_msg payload n = handle_threat_alert env n payload
dispatch env reject_msg payload n = some n
dispatch env getblocks_msg payload n = some n

-- What one round of the loop comes to.
pub data Round : Type 0 where
  -- the socket is closed, or the message is not complete
  waits : Round
  -- `return`
  stops : Node → Round
  goes_on : Node → Round
  -- a read behind a payload
  undefined : Round

unfoldable pub is_open : Peer → Bool
is_open peer = elim peer.fd [ none ↦ false | some fd ↦ true ]

-- Whether the first five bytes end the connection: `declared` is the length that they name.
unfoldable pub is_rejected : Option MsgType → ℕ → Bool
is_rejected none declared = true
is_rejected (some block_msg) declared =
    ltb max_message_bytes declared || ltb max_block_bytes declared
is_rejected (some tx_msg) declared =
    ltb max_message_bytes declared || ltb max_tx_json_bytes declared
is_rejected (some other) declared = ltb max_message_bytes declared

-- After the handler.
unfoldable pub after_handler : Env → Option Node → Round
after_handler env none = undefined
after_handler env (some n) =
    if not (is_open n.peer)
    then stops (record n { peer = record n.peer { recv_buffer = [] } })
    else if should_ban n.peer
    then stops (drop_peer (record n { addrman = ban n.addrman n.peer.address env.unix_time }))
    else goes_on n

-- The payload to the handler, the bytes behind it to the buffer.
unfoldable pub deliver : Env → Node → Option MsgType → ℕ → Bytes → Round
deliver env n none declared rest = stops (drop_peer n)
deliver env n (some type_) declared rest = after_handler env (
    dispatch env type_ (take declared rest)
      (record n { peer = record n.peer { recv_buffer = drop declared rest } }))

unfoldable pub frame_round : Env → Node → Bytes → Round
frame_round env n (code ∷ a ∷ b ∷ c ∷ d ∷ rest) =
    let declared = a + 256 * b + 65_536 * c + 16_777_216 * d in
    if is_rejected (msg_type code) declared
    then stops (drop_peer n)
    else if ltb (length rest) declared
    then waits
    else deliver env n (msg_type code) declared rest
frame_round env n short = waits

unfoldable pub one_round : Env → Node → Round
one_round env n = if is_open n.peer then frame_round env n n.peer.recv_buffer else waits

-- Every round takes five bytes at least, so the length of the buffer is enough fuel.
unfoldable pub process_frames : ℕ → Env → Node → Option Node
process_frames zero env n = some n
process_frames (suc fuel) env n = elim (one_round env n) [
  | waits ↦ some n
  | stops m ↦ some m
  | goes_on m ↦ process_frames fuel env m
  | undefined ↦ none
]

-- What `recv` gives: bytes, nothing for now, or the end.
pub data Received : Type 0 where
  bytes_in : Bytes → Received
  try_again : Received
  closed : Received

-- The bytes join the buffer, and the messages that are whole are handled.
unfoldable pub take_in : Env → Node → Bytes → Option Node
take_in env n s =
    let buffer = n.peer.recv_buffer ++ s in
    process_frames (length buffer) env (record n { peer = record n.peer { recv_buffer = buffer } })

unfoldable pub process_messages : Env → Node → Received → Option Node
process_messages env n try_again = some n
process_messages env n closed = some (record n { peer = disconnect_peer n.peer })
process_messages env n (bytes_in s) = if is_open n.peer then take_in env n s else some n
