-- ===== src/P2p/Inventory.antt =====
-- cpp/pisecured/src/p2p.cpp: `handleInv`, `handleGetData`, `handleTx` and `broadcastInv`; and
-- cpp/pisecured/src/storage.cpp: the mempool.
use pi_secure.Prelude.{
  ltb, ◌==◌, if◌then◌else◌, length, Bytes, bytes_eq, Bool, true, false, ◌&&◌, ◌||◌, Option, none,
  some, List, [], ◌∷◌, ◌++◌,
}
use pi_secure.Index.{block_index, at_key}
use pi_secure.Blocks.{read_block}
use pi_secure.Wire.{Parsed, done, refused, past_end}
use pi_secure.Wire.Messages.{InvVect, serialize_get_data, deserialize_inv}
use pi_secure.P2p.{
  getdata_msg, block_msg, tx_msg, inv_tx, inv_block, max_tx_json_bytes, Transaction, Store, Peer,
  Node, Env, send_message, punish,
}

-- `InvVect::operator==`
unfoldable pub same_inv : InvVect → InvVect → Bool
same_inv a b = a.type_ == b.type_ && bytes_eq a.hash b.hash

unfoldable pub is_known : InvVect → List InvVect → Bool
is_known inv [] = false
is_known inv (k ∷ known) = same_inv k inv || is_known inv known

-- Whether a block is in the storage. There may be no storage.
unfoldable pub has_block : Option Store → Bytes → Bool
has_block none hash = false
has_block (some store) hash = elim (block_index store.index hash) [ none ↦ false | some i ↦ true ]

-- The loop of `handleInv`: what is new, in front of what is known, and what to request.
unfoldable pub new_invs : Option Store → List InvVect → List InvVect → List InvVect × List InvVect
new_invs storage known [] = (known, [])
new_invs storage known (inv ∷ invs) =
    if (inv.type_ == inv_block && has_block storage inv.hash) || is_known inv known
    then new_invs storage known invs
    else let (after, wanted) = new_invs storage (inv ∷ known) invs in (after, inv ∷ wanted)

unfoldable pub request_data : Env → List InvVect → Peer → Peer
request_data env [] peer = peer
request_data env (inv ∷ invs) peer =
    send_message env getdata_msg (serialize_get_data (inv ∷ invs)) peer

unfoldable pub answered_inv : Env → Node → Parsed (List InvVect) → Option Node
answered_inv env n (done invs) =
    let (known, wanted) = new_invs n.storage n.peer.known_inv invs in
    some (record n { peer = request_data env wanted (record n.peer { known_inv = known }) })
answered_inv env n refused = some (punish n 10)
answered_inv env n past_end = none

unfoldable pub handle_inv : Env → Node → Bytes → Option Node
handle_inv env n payload = answered_inv env n (deserialize_inv payload)

unfoldable pub get_transaction : Store → Bytes → Option Transaction
get_transaction store hash = at_key hash store.mempool

unfoldable pub add_transaction : Store → Transaction → Store
add_transaction store tx = record store { mempool = (tx.hash, tx) ∷ store.mempool }

-- The block that an entry asks for.
unfoldable pub wanted_block : Store → Bytes → Option Bytes
wanted_block store hash = elim (block_index store.index hash) [
  | none ↦ none
  | some i ↦ read_block store.blocks i
]

unfoldable pub send_block : Env → Option Bytes → Peer → Peer
send_block env none peer = peer
send_block env (some block) peer = send_message env block_msg block peer

unfoldable pub send_tx : Env → Option Transaction → Peer → Peer
send_tx env none peer = peer
send_tx env (some tx) peer = send_message env tx_msg tx.payload peer

-- The loop of `handleGetData`.
unfoldable pub send_all : Env → Store → List InvVect → Peer → Peer
send_all env store [] peer = peer
send_all env store (inv ∷ invs) peer = send_all env store invs (
    if inv.type_ == inv_block
    then send_block env (wanted_block store inv.hash) peer
    else if inv.type_ == inv_tx
    then send_tx env (get_transaction store inv.hash) peer
    else peer)

unfoldable pub answered_get_data : Env → Node → Option Store → Parsed (List InvVect) → Option Node
answered_get_data env n none (done invs) = some n
answered_get_data env n (some store) (done invs) =
    some (record n { peer = send_all env store invs n.peer })
answered_get_data env n storage refused = some (punish n 10)
answered_get_data env n storage past_end = none

unfoldable pub handle_get_data : Env → Node → Bytes → Option Node
handle_get_data env n payload = answered_get_data env n n.storage (deserialize_inv payload)

unfoldable pub broadcast_inv : Node → InvVect → Node
broadcast_inv n inv = record n { broadcasts = n.broadcasts ++ (inv ∷ []) }

unfoldable pub begins_with_brace : Bytes → Bool
begins_with_brace [] = false
begins_with_brace (c ∷ s) = c == b'{'

-- `handleTx`, with a storage.
unfoldable pub store_tx : Env → Node → Store → Bytes → Node
store_tx env n store payload =
    let tx_hash = env.sha256 payload in
    let tx : Transaction = record {
      hash = tx_hash;
      payload = payload;
      timestamp = env.unix_time;
      fee = 0;
    } in
    let known : Bool = elim (get_transaction store tx_hash) [ none ↦ false | some t ↦ true ] in
    if known
    then n
    else if ltb max_tx_json_bytes (length payload)
    then punish n 10
    else if begins_with_brace payload && env.has_many_inputs payload
    then punish n 10
    else broadcast_inv (record n { storage = some (add_transaction store tx) })
        (record { type_ = inv_tx; hash = tx_hash })

unfoldable pub handle_tx_at : Env → Node → Option Store → Bytes → Node
handle_tx_at env n none payload = n
handle_tx_at env n (some store) payload = store_tx env n store payload

unfoldable pub handle_tx : Env → Node → Bytes → Node
handle_tx env n payload = handle_tx_at env n n.storage payload
