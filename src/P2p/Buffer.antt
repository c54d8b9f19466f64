-- ===== src/P2p/Buffer.antt =====
-- Sending leaves the buffer of the peer, and no handler of a greeting makes it longer.
use pi_secure.Prelude.{
  ◌==◌, if◌then◌else◌, length, Bytes, ℕ, ◌≤◌, ◌≡◌, refl, ap, ◌∙◌, Bool, true, false, ◌&&◌, ◌||◌,
  Option, none, some, List, [], ◌∷◌, arith,
}
use pi_secure.Wire.{Parsed, done, refused, past_end}
use pi_secure.Wire.Messages.{PeerAddr, InvVect, Version}
use pi_secure.P2p.{
  MsgType, version_msg, verack_msg, addr_msg, getdata_msg, getheaders_msg, block_msg, tx_msg,
  pong_msg, Peer, Node, Env, Store, Transaction, send_message, punish, increase_ban_score,
  disconnect_peer, inv_block, inv_tx,
}
use pi_secure.P2p.Greet.{
  send_version, send_verack, send_addrs, send_addr, greeted, answered_version, handle_version,
  request_headers, handle_verack, answered_addr, answered_ping, answered_pong,
}
use pi_secure.P2p.Inventory.{request_data, answered_inv, send_block, send_tx, send_all}

pub send_message-recv_buffer :
    (env : Env) (type_ : MsgType) (payload : Bytes) (peer : Peer)
    → (send_message env type_ payload peer).recv_buffer ≡ peer.recv_buffer
unfolding send_message
send_message-recv_buffer env type_ payload peer = ground arith

-- The buffer after is no longer than the buffer before.
unfoldable pub IsShorter : Node → Node → Type 0
IsShorter n m = length m.peer.recv_buffer ≤ length n.peer.recv_buffer

-- So is it after a handler that comes back.
pub data AllShorter (n : Node) : Option Node → Type 0 where
  nothing : AllShorter n none
  just : {m : Node} → IsShorter n m → AllShorter n (some m)

unfoldable pub HasBuffer : Bytes → Peer → Type 0
HasBuffer b peer = peer.recv_buffer ≡ b

send_verack-recv_buffer :
    (env : Env) (peer : Peer) → (send_verack env peer).recv_buffer ≡ peer.recv_buffer
unfolding send_verack
send_verack-recv_buffer env peer =
    ground (arith, send_message-recv_buffer env verack_msg [] (record peer { verack_sent = true }))

-- Either way of a test.
pub either {ℓ κ} :
    {A : Type ℓ} (P : A → Type κ) (test : Bool) (x y : A) → P x → P y → P (if test then x else y)
either P true x y hx hy = hx
either P false x y hx hy = hy

send_version-recv_buffer :
    (env : Env) (n : Node) → (send_version env n).peer.recv_buffer ≡ n.peer.recv_buffer
unfolding send_version HasBuffer
send_version-recv_buffer env n =
    either (λ (m : Node). HasBuffer n.peer.recv_buffer m.peer) _ _ _ refl
      (send_message-recv_buffer env version_msg _ (record n.peer { version_sent = true }))

send_addrs-recv_buffer :
    (env : Env) (addrs : List PeerAddr) (peer : Peer)
    → (send_addrs env addrs peer).recv_buffer ≡ peer.recv_buffer
unfolding send_addrs
send_addrs-recv_buffer env [] peer = refl
send_addrs-recv_buffer env (a ∷ addrs) peer = send_message-recv_buffer env addr_msg _ peer

request_headers-recv_buffer :
    (env : Env) (storage : Option Store) (height : ℕ) (peer : Peer)
    → (request_headers env storage height peer).recv_buffer ≡ peer.recv_buffer
unfolding request_headers HasBuffer
request_headers-recv_buffer env none height peer = refl
request_headers-recv_buffer env (some store) height peer =
    either (HasBuffer peer.recv_buffer) _ _ _ (send_message-recv_buffer env getheaders_msg _ peer)
      refl

-- The same buffer is no longer one.
pub shorter : (n m : Node) → m.peer.recv_buffer ≡ n.peer.recv_buffer → IsShorter n m
unfolding IsShorter
shorter n m e = omega (arith, ap length e)

greeted-IsShorter : (env : Env) (n : Node) (v : Version) → IsShorter n (greeted env n v)
unfolding greeted disconnect_peer
greeted-IsShorter env n v =
    let own = n.peer.inbound && env.own_address n.peer.address.ip in
    either (IsShorter n) own _ _ (shorter n _ refl) (
      either (IsShorter n) n.peer.inbound _ _
        (shorter n _ (send_version-recv_buffer env _ ∙ send_verack-recv_buffer env _))
        (shorter n _ (send_verack-recv_buffer env _)))

answered_version-IsShorter :
    (env : Env) (n : Node) (p : Parsed Version) → AllShorter n (answered_version env n p)
unfolding answered_version punish increase_ban_score
answered_version-IsShorter env n (done v) = just (greeted-IsShorter env n v)
answered_version-IsShorter env n refused = just (shorter n _ refl)
answered_version-IsShorter env n past_end = nothing

pub handle_version-IsShorter :
    (env : Env) (n : Node) (payload : Bytes) → AllShorter n (handle_version env n payload)
unfolding handle_version
handle_version-IsShorter env n payload =
    either (AllShorter n) _ _ _ (just (shorter n n refl)) (answered_version-IsShorter env n _)

pub handle_verack-IsShorter : (env : Env) (n : Node) → IsShorter n (handle_verack env n)
unfolding handle_verack send_addr
handle_verack-IsShorter env n =
    let again = n.peer.verack_received || n.peer.handshake_complete in
    either (IsShorter n) again _ _ (shorter n n refl)
      (shorter n _ (request_headers-recv_buffer env _ _ _ ∙ send_addrs-recv_buffer env _ _))

pub handle_addr-IsShorter :
    (env : Env) (n : Node) (p : Parsed (List PeerAddr)) → AllShorter n (answered_addr env n p)
unfolding answered_addr
handle_addr-IsShorter env n (done addrs) = just (shorter n _ refl)
handle_addr-IsShorter env n refused = just (shorter n _ refl)
handle_addr-IsShorter env n past_end = nothing

pub handle_ping-IsShorter :
    (env : Env) (n : Node) (p : Parsed ℕ) → AllShorter n (answered_ping env n p)
unfolding answered_ping
handle_ping-IsShorter env n (done nonce) =
    just (shorter n _ (send_message-recv_buffer env pong_msg _ n.peer))
handle_ping-IsShorter env n refused = just (shorter n _ refl)
handle_ping-IsShorter env n past_end = nothing

pub handle_pong-IsShorter :
    (env : Env) (n : Node) (p : Parsed ℕ) → AllShorter n (answered_pong env n p)
unfolding answered_pong
handle_pong-IsShorter env n (done nonce) =
    just
      (either (IsShorter n) (nonce == n.peer.ping_nonce) _ _ (shorter n _ refl) (shorter n n refl))
handle_pong-IsShorter env n refused = just (shorter n _ refl)
handle_pong-IsShorter env n past_end = nothing

pub request_data-recv_buffer :
    (env : Env) (invs : List InvVect) (peer : Peer)
    → (request_data env invs peer).recv_buffer ≡ peer.recv_buffer
unfolding request_data
request_data-recv_buffer env [] peer = refl
request_data-recv_buffer env (inv ∷ invs) peer = send_message-recv_buffer env getdata_msg _ peer

pub handle_inv-IsShorter :
    (env : Env) (n : Node) (p : Parsed (List InvVect)) → AllShorter n (answered_inv env n p)
unfolding answered_inv punish increase_ban_score
handle_inv-IsShorter env n (done invs) = just (shorter n _ (request_data-recv_buffer env _ _))
handle_inv-IsShorter env n refused = just (shorter n _ refl)
handle_inv-IsShorter env n past_end = nothing

send_block-recv_buffer :
    (env : Env) (block : Option Bytes) (peer : Peer)
    → (send_block env block peer).recv_buffer ≡ peer.recv_buffer
unfolding send_block
send_block-recv_buffer env none peer = refl
send_block-recv_buffer env (some block) peer = send_message-recv_buffer env block_msg block peer

send_tx-recv_buffer :
    (env : Env) (tx : Option Transaction) (peer : Peer)
    → (send_tx env tx peer).recv_buffer ≡ peer.recv_buffer
unfolding send_tx
send_tx-recv_buffer env none peer = refl
send_tx-recv_buffer env (some tx) peer = send_message-recv_buffer env tx_msg _ peer

pub send_all-recv_buffer :
    (env : Env) (store : Store) (invs : List InvVect) (peer : Peer)
    → (send_all env store invs peer).recv_buffer ≡ peer.recv_buffer
unfolding send_all HasBuffer
send_all-recv_buffer env store [] peer = refl
send_all-recv_buffer env store (inv ∷ invs) peer =
    let same = HasBuffer peer.recv_buffer in
    send_all-recv_buffer env store invs _
    ∙ either same (inv.type_ == inv_block) _ _ (send_block-recv_buffer env _ peer)
        (either same (inv.type_ == inv_tx) _ _ (send_tx-recv_buffer env _ peer) refl)
