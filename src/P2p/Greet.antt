-- ===== src/P2p/Greet.antt =====
-- cpp/pisecured/src/p2p.cpp: `sendVersion`, `sendVerack`, `sendAddr`, `sendPing` and the handlers of
-- `version`, `verack`, `addr`, `ping` and `pong`. Dialling the addresses that a peer names, and the
-- exchange of addresses with the bootstrap server, concern other sockets and are left out. A handler
-- gives nothing where the source reads behind a payload.
use pi_secure.Prelude.{
  ltb, ◌==◌, if◌then◌else◌, Bytes, codes, ℕ, Bool, true, false, ◌&&◌, ◌||◌, Option, none, some,
  List, [], ◌∷◌,
}
use pi_secure.Index.{has_tip, get_block_locator_hashes, no_hash}
use pi_secure.Wire.{Parsed, done, refused, past_end}
use pi_secure.Wire.Messages.{
  PeerAddr, Version, serialize_version, serialize_addr, serialize_ping, serialize_pong,
  serialize_get_headers, deserialize_version, deserialize_addr, deserialize_ping, deserialize_pong,
  protocol_version,
}
use pi_secure.AddrMan.{AddrMan, add, get_many}
use pi_secure.P2p.{
  version_msg, verack_msg, addr_msg, ping_msg, pong_msg, getheaders_msg, Store, Peer, Node, Env,
  send_message, disconnect_peer, punish,
}

-- SERVICES_NODE
abbrev services_node : ℕ
services_node = 1

-- `best_height` as it stands after a look at the storage.
unfoldable pub seen_height : Option Store → ℕ → ℕ
seen_height none height = height
seen_height (some store) height = if has_tip store.index then store.index.best_height else height

abbrev pub my_addr : PeerAddr
my_addr = record { ip = 0; port = 0; last_seen = 0; services = 0; failures = 0 }

-- What `sendVersion` sends.
unfoldable pub own_version : Env → ℕ → Version
own_version env height = record {
  version = protocol_version;
  services = services_node;
  timestamp = env.unix_time;
  user_agent = codes "/pisecured:1.0/";
  start_height = height;
}

unfoldable pub is_closed : Option ℕ → Bool
is_closed none = true
is_closed (some fd) = false

unfoldable pub send_version : Env → Node → Node
unfolding is_closed
send_version env n =
    let height = seen_height n.storage n.best_height in
    if n.peer.version_sent || is_closed n.peer.fd then n else record n {
      peer =
          send_message env version_msg
            (serialize_version (own_version env height) n.peer.address my_addr env.nonce)
            (record n.peer { version_sent = true });
      best_height = height;
    }

unfoldable pub send_verack : Env → Peer → Peer
unfolding is_closed
send_verack env peer =
    if peer.verack_sent || is_closed peer.fd
    then peer
    else send_message env verack_msg [] (record peer { verack_sent = true })

unfoldable pub send_addrs : Env → List PeerAddr → Peer → Peer
send_addrs env [] peer = peer
send_addrs env (a ∷ addrs) peer = send_message env addr_msg (serialize_addr (a ∷ addrs)) peer

unfoldable pub send_addr : Env → Node → Node
send_addr env n = record n { peer = send_addrs env (get_many n.addrman 1000 env.unix_time) n.peer }

unfoldable pub send_ping : Env → Peer → Peer
send_ping env peer =
    send_message env ping_msg (serialize_ping env.nonce)
      (record peer { ping_nonce = env.nonce; last_ping_time = env.now })

-- `handleVersion`, once the message is read.
unfoldable pub greeted : Env → Node → Version → Node
greeted env n v =
    let peer = record n.peer {
      version_received = true;
      version = v.version;
      services = v.services;
      start_height = v.start_height;
      user_agent = v.user_agent;
    } in
    if peer.inbound && env.own_address peer.address.ip
    then record n { peer = disconnect_peer peer }
    else if peer.inbound
    then send_version env (record n { peer = send_verack env peer })
    else record n { peer = send_verack env peer }

unfoldable pub answered_version : Env → Node → Parsed Version → Option Node
answered_version env n (done v) = some (greeted env n v)
answered_version env n refused = some (punish n 10)
answered_version env n past_end = none

unfoldable pub handle_version : Env → Node → Bytes → Option Node
handle_version env n payload =
    if n.peer.version_received
    then some n
    else answered_version env n (deserialize_version payload env.stack_height)

-- `handleVerack`, the request for headers.
unfoldable pub request_headers : Env → Option Store → ℕ → Peer → Peer
request_headers env none best_height peer = peer
request_headers env (some store) best_height peer =
    if ltb best_height peer.start_height
    then send_message env getheaders_msg
        (serialize_get_headers (get_block_locator_hashes store.index) no_hash) peer
    else peer

unfoldable pub handle_verack : Env → Node → Node
handle_verack env n =
    let greeted =
      send_addr env
        (record n { peer = record n.peer { verack_received = true; handshake_complete = true } }) in
    if n.peer.verack_received || n.peer.handshake_complete then n else record greeted {
      peer = request_headers env greeted.storage greeted.best_height greeted.peer;
    }

unfoldable pub add_all : AddrMan → ℕ → List PeerAddr → AddrMan
add_all m now [] = m
add_all m now (a ∷ addrs) = add_all (add m a now) now addrs

unfoldable pub answered_addr : Env → Node → Parsed (List PeerAddr) → Option Node
answered_addr env n (done addrs) =
    some (record n { addrman = add_all n.addrman env.unix_time addrs })
answered_addr env n refused = some n
answered_addr env n past_end = none

unfoldable pub handle_addr : Env → Node → Bytes → Option Node
handle_addr env n payload = answered_addr env n (deserialize_addr payload)

unfoldable pub answered_ping : Env → Node → Parsed ℕ → Option Node
answered_ping env n (done nonce) =
    some (record n { peer = send_message env pong_msg (serialize_pong nonce) n.peer })
answered_ping env n refused = some n
answered_ping env n past_end = none

unfoldable pub handle_ping : Env → Node → Bytes → Option Node
handle_ping env n payload = answered_ping env n (deserialize_ping payload)

unfoldable pub answered_pong : Env → Node → Parsed ℕ → Option Node
answered_pong env n (done nonce) = some (
    if nonce == n.peer.ping_nonce
    then record n { peer = record n.peer { last_pong_time = env.now } }
    else n)
answered_pong env n refused = some n
answered_pong env n past_end = none

unfoldable pub handle_pong : Env → Node → Bytes → Option Node
handle_pong env n payload = answered_pong env n (deserialize_pong payload)
