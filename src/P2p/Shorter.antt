-- ===== src/P2p/Shorter.antt =====
-- No handler makes the buffer of the peer longer.
use pi_secure.P2p.Process.{dispatch}
use pi_secure.P2p.Threats.{
  record_threat, ban_source, activate_coordinated_defense, alerted, answered_alert,
  handle_threat_alert,
}
use pi_secure.Blocks.{Blocks}
use pi_secure.Pow.{validate_block_pow}
use pi_secure.P2p.Sync.{
  last_hash, drop_peer, received_headers, send_headers, answered_get_headers, handle_get_headers,
  after_link, answered_headers, handle_headers, Linked, linked, unconnected, broken, stored_binary,
  store_binary, check_binary, binary_block, handle_block_at, handle_block,
}
use pi_secure.Index.{no_hash, BlockHeader, Index, validate_block_header}
use pi_secure.Prelude.{
  ltb, ◌==◌, length, Bytes, ℕ, ◌≤◌, ◌≡◌, refl, true, not, Option, none, some, List, [], ◌∷◌, arith,
}
use pi_secure.Wire.{Parsed, done, refused, past_end}
use pi_secure.Wire.Messages.{InvVect, serialize_get_headers, ThreatAlert}
use pi_secure.P2p.{
  MsgType, version_msg, verack_msg, addr_msg, getdata_msg, getheaders_msg, block_msg, tx_msg,
  pong_msg, Peer, Node, Env, Store, punish, increase_ban_score, disconnect_peer, headers_msg,
  max_block_bytes, reject_msg, getblocks_msg, threat_alert_msg, inv_msg, ping_msg,
}
use pi_secure.P2p.Greet.{handle_addr, handle_ping, handle_pong}
use pi_secure.P2p.Inventory.{
  request_data, handle_tx_at, store_tx, broadcast_inv, answered_get_data, begins_with_brace,
  handle_tx, handle_get_data, handle_inv,
}
use pi_secure.P2p.Buffer.{
  shorter, either, IsShorter, AllShorter, just, nothing, send_message-recv_buffer,
  handle_version-IsShorter, handle_verack-IsShorter, handle_addr-IsShorter, handle_ping-IsShorter,
  handle_pong-IsShorter, handle_inv-IsShorter, request_data-recv_buffer, send_all-recv_buffer,
}

handle_get_data-IsShorter :
    (env : Env) (n : Node) (storage : Option Store) (p : Parsed (List InvVect))
    → AllShorter n (answered_get_data env n storage p)
unfolding answered_get_data punish increase_ban_score
handle_get_data-IsShorter env n none (done invs) = just (shorter n n refl)
handle_get_data-IsShorter env n (some store) (done invs) =
    just (shorter n _ (send_all-recv_buffer env store invs n.peer))
handle_get_data-IsShorter env n none refused = just (shorter n _ refl)
handle_get_data-IsShorter env n (some store) refused = just (shorter n _ refl)
handle_get_data-IsShorter env n none past_end = nothing
handle_get_data-IsShorter env n (some store) past_end = nothing

handle_tx-IsShorter :
    (env : Env) (n : Node) (storage : Option Store) (payload : Bytes)
    → IsShorter n (handle_tx_at env n storage payload)
unfolding handle_tx_at store_tx punish increase_ban_score broadcast_inv IsShorter
handle_tx-IsShorter env n none payload = omega arith
handle_tx-IsShorter env n (some store) payload = ground arith

send_headers-recv_buffer :
    (env : Env) (headers : List BlockHeader) (peer : Peer)
    → (send_headers env headers peer).recv_buffer ≡ peer.recv_buffer
unfolding send_headers
send_headers-recv_buffer env [] peer = refl
send_headers-recv_buffer env (h ∷ headers) peer = send_message-recv_buffer env headers_msg _ peer

handle_get_headers-IsShorter :
    (env : Env) (n : Node) (storage : Option Store) (p : Parsed (List Bytes × Bytes))
    → AllShorter n (answered_get_headers env n storage p)
unfolding answered_get_headers punish increase_ban_score
handle_get_headers-IsShorter env n none (done (locator, stop)) = just (shorter n n refl)
handle_get_headers-IsShorter env n (some store) (done (locator, stop)) =
    just (shorter n _ (send_headers-recv_buffer env _ n.peer))
handle_get_headers-IsShorter env n none refused = just (shorter n _ refl)
handle_get_headers-IsShorter env n (some store) refused = just (shorter n _ refl)
handle_get_headers-IsShorter env n none past_end = nothing
handle_get_headers-IsShorter env n (some store) past_end = nothing

after_link-length :
    (env : Env) (headers : List BlockHeader) (links : Linked) (peer : Peer)
    → length (after_link env headers links peer).recv_buffer ≤ length peer.recv_buffer
unfolding after_link disconnect_peer
after_link-length env headers broken peer = omega arith
after_link-length env headers unconnected peer = ground (
  arith,
  send_message-recv_buffer env getheaders_msg (serialize_get_headers [] no_hash)
      (record peer { asked_from_start = true }),
)
after_link-length env headers (linked placed invs) peer = ground (
  arith,
  request_data-recv_buffer env invs peer,
  send_message-recv_buffer env getheaders_msg
      (serialize_get_headers (last_hash headers ∷ []) no_hash) (request_data env invs peer),
)

received_headers-IsShorter :
    (env : Env) (n : Node) (storage : Option Store) (headers : List BlockHeader)
    → IsShorter n (received_headers env n storage headers)
unfolding received_headers IsShorter
received_headers-IsShorter env n none headers = omega arith
received_headers-IsShorter env n (some store) headers = after_link-length env headers _ n.peer

drop_peer-IsShorter : (n : Node) → IsShorter n (drop_peer n)
unfolding drop_peer disconnect_peer IsShorter
drop_peer-IsShorter n = omega arith

handle_headers-IsShorter :
    (env : Env) (n : Node) (size : ℕ) (p : Parsed (List BlockHeader × ℕ))
    → AllShorter n (answered_headers env n size p)
unfolding answered_headers
handle_headers-IsShorter env n size (done (headers, consumed)) = just (
    either (IsShorter n) (consumed == size) _ _ (received_headers-IsShorter env n n.storage headers)
      (drop_peer-IsShorter n))
handle_headers-IsShorter env n size refused = just (drop_peer-IsShorter n)
handle_headers-IsShorter env n size past_end = nothing

stored_binary-IsShorter :
    (n : Node) (store : Store) (header : BlockHeader) (index : Option Index) (blocks : Blocks)
    → IsShorter n (stored_binary n store header blocks index)
unfolding stored_binary broadcast_inv
stored_binary-IsShorter n store header none blocks = shorter n _ refl
stored_binary-IsShorter n store header (some index) blocks = shorter n _ refl

check_binary-IsShorter :
    (env : Env) (n : Node) (store : Store) (header : BlockHeader) (prev : Option BlockHeader)
    (payload : Bytes)
    → IsShorter n (check_binary env n store header prev payload)
unfolding check_binary store_binary punish increase_ban_score
check_binary-IsShorter env n store header none payload = shorter n n refl
check_binary-IsShorter env n store header (some prev) payload =
    either (IsShorter n) (validate_block_header _ (some prev)) _ _
      (stored_binary-IsShorter n store _ _ _) (shorter n _ refl)

binary_block-IsShorter :
    (env : Env) (n : Node) (store : Store) (payload : Bytes) (p : Parsed BlockHeader)
    → AllShorter n (binary_block env n store payload p)
unfolding binary_block punish increase_ban_score
binary_block-IsShorter env n store payload (done header) = just (
    either (IsShorter n) (validate_block_pow header.hash header.difficulty) _ _
      (check_binary-IsShorter env n store header _ payload) (shorter n _ refl))
binary_block-IsShorter env n store payload refused = just (shorter n n refl)
binary_block-IsShorter env n store payload past_end = nothing

-- What `rpc_submitblock` does on a block leaves the buffer of the peer no longer.
abbrev pub SubmitsShorter : Env → Type 0
SubmitsShorter env = (n : Node) (payload : Bytes) → IsShorter n (env.submit n payload)

handle_block-IsShorter :
    (env : Env) (n : Node) (storage : Option Store) (payload : Bytes)
    → SubmitsShorter env
    → AllShorter n (handle_block_at env n storage payload)
unfolding handle_block_at punish increase_ban_score
handle_block-IsShorter env n none payload submits = just (shorter n n refl)
handle_block-IsShorter env n (some store) payload submits =
    either (AllShorter n) (begins_with_brace payload) _ _
      (either (AllShorter n) (ltb max_block_bytes (length payload)) _ _ (just (shorter n _ refl))
        (just (submits n payload)))
      (either (AllShorter n) (ltb (length payload) 112) _ _ (just (shorter n _ refl))
        (binary_block-IsShorter env n store payload _))

alerted-IsShorter : (env : Env) (n : Node) (alert : ThreatAlert) → IsShorter n (alerted env n alert)
unfolding alerted record_threat ban_source activate_coordinated_defense disconnect_peer IsShorter
alerted-IsShorter env n alert = ground arith

handle_alert-IsShorter :
    (env : Env) (n : Node) (p : Parsed ThreatAlert) → AllShorter n (answered_alert env n p)
unfolding answered_alert
handle_alert-IsShorter env n (done alert) = just (alerted-IsShorter env n alert)
handle_alert-IsShorter env n refused = just (shorter n n refl)
handle_alert-IsShorter env n past_end = nothing

-- No handler makes the buffer longer.
pub dispatch-AllShorter :
    (env : Env) (type_ : MsgType) (payload : Bytes) (n : Node)
    → SubmitsShorter env
    → AllShorter n (dispatch env type_ payload n)
unfolding dispatch handle_addr handle_inv handle_get_data handle_get_headers handle_headers
    handle_block handle_tx handle_ping handle_pong handle_threat_alert
dispatch-AllShorter env version_msg payload n h = handle_version-IsShorter env n payload
dispatch-AllShorter env verack_msg payload n h = just (handle_verack-IsShorter env n)
dispatch-AllShorter env addr_msg payload n h = handle_addr-IsShorter env n _
dispatch-AllShorter env inv_msg payload n h = handle_inv-IsShorter env n _
dispatch-AllShorter env getdata_msg payload n h = handle_get_data-IsShorter env n n.storage _
dispatch-AllShorter env getheaders_msg payload n h = handle_get_headers-IsShorter env n n.storage _
dispatch-AllShorter env headers_msg payload n h = handle_headers-IsShorter env n _ _
dispatch-AllShorter env block_msg payload n h = handle_block-IsShorter env n n.storage payload h
dispatch-AllShorter env tx_msg payload n h = just (handle_tx-IsShorter env n n.storage payload)
dispatch-AllShorter env ping_msg payload n h = handle_ping-IsShorter env n _
dispatch-AllShorter env pong_msg payload n h = handle_pong-IsShorter env n _
dispatch-AllShorter env threat_alert_msg payload n h =
    either (AllShorter n) (not env.sentinel) _ _ (just (shorter n n refl))
      (handle_alert-IsShorter env n _)
dispatch-AllShorter env reject_msg payload n h = just (shorter n n refl)
dispatch-AllShorter env getblocks_msg payload n h = just (shorter n n refl)
