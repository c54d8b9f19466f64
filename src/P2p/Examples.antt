-- ===== src/P2p/Examples.antt =====
-- A peer and its messages on concrete input.
use pi_secure.Prelude.{
  length, take, replicate, Bytes, bytes_eq, ℕ, ◌+◌, ◌<◌, ◌≡◌, refl, true, false, some, [], ◌∷◌,
  ◌++◌, arith,
}
use pi_secure.Tx.Fields.{le_bytes}
use pi_secure.Index.{Index, BlockHeader, get_header_by_hash, at_key, get_header_by_height}
use pi_secure.Wire.{done, write_uint32, read_le, read_uint32, read_uint64, copy_bytes}
use pi_secure.Wire.Messages.{
  PeerAddr, Version, serialize_version, serialize_headers, deserialize_headers,
}
use pi_secure.P2p.{Env, Node, Peer, Store, ping_msg, verack_msg, message}
use pi_secure.P2p.Inventory.{begins_with_brace}
use pi_secure.P2p.Sync.{
  handle_headers, handle_block, headers_for, collect_headers, start_after, find_start,
  read_block_header, after_link, linked, first_height, link_headers,
}
use pi_secure.P2p.Greet.{handle_version, handle_verack}
use pi_secure.P2p.Process.{
  is_open, process_frames, process_messages, bytes_in, one_round, after_handler, dispatch,
  is_rejected, waits, frame_round, take_in,
}
use pi_secure.P2p.Shorter.{SubmitsShorter}
use pi_secure.P2p.Buffer.{IsShorter}
use pi_secure.P2p.Rounds.{buffer_limit}
use pi_secure.P2p.Loop.{process_messages-length}
use pi_secure.P2p.Headers.{IsAnchored, missing, without_height}
use pi_secure.P2p.Exchange.{handle_headers-headers_for}
use pi_secure.P2p.Binary.{HasTip, handle_block-HasTip}
use pi_secure.P2p.Handshake.{IsComplete, handshake-IsComplete}
use pi_secure.P2p.Framing.{one_round-message, one_round-take}

abbrev env : Env
env = record {
  now = 1000;
  unix_time = 1_700_000_000;
  nonce = 7;
  stack_height = 0;
  stack_hash = [];
  stack_confidence = 0;
  sends = λ msg. true;
  opened = true;
  own_address = λ ip. false;
  sha256 = λ s. take 32 s;
  submit = λ n payload. n;
  has_many_inputs = λ payload. false;
  sentinel = false;
  is_suspicious = λ peer ip. false;
}

abbrev host : PeerAddr
host = record { ip = 16_777_343; port = 31_415; last_seen = 0; services = 1; failures = 0 }

abbrev peer_with : Bytes → Peer
peer_with buffer = record {
  fd = some 5;
  address = host;
  inbound = true;
  handshake_complete = false;
  version_received = false;
  verack_received = false;
  version_sent = true;
  verack_sent = false;
  last_ping_time = 0;
  last_pong_time = 0;
  last_send_time = 0;
  ban_score = 0;
  version = 0;
  services = 0;
  start_height = 0;
  asked_from_start = false;
  user_agent = [];
  ping_nonce = 0;
  known_inv = [];
  recv_buffer = buffer;
  sent = [];
}

abbrev hash_of : ℕ → Bytes
hash_of b = replicate 32 b

abbrev header_at : ℕ → ℕ → BlockHeader
header_at height parent = record {
  version = 1;
  prev_block_hash = hash_of parent;
  merkle_root = hash_of 9;
  timestamp = 1000 + height;
  difficulty = 3;
  nonce = 4;
  hash = hash_of (parent + 1);
  height = height;
}

-- A chain of two blocks.
abbrev two_blocks : Index
two_blocks = record {
  next_index = 2;
  hash_to_index = (hash_of 1, 0) ∷ (hash_of 2, 1) ∷ [];
  headers_cache = (hash_of 1, header_at 1 0) ∷ (hash_of 2, header_at 2 1) ∷ [];
  height_to_hash = hash_of 0 ∷ hash_of 1 ∷ hash_of 2 ∷ [];
  best_block_hash = hash_of 2;
  best_height = 2;
}

abbrev one_block : Index
one_block = record {
  next_index = 1;
  hash_to_index = (hash_of 1, 0) ∷ [];
  headers_cache = (hash_of 1, header_at 1 0) ∷ [];
  height_to_hash = hash_of 0 ∷ hash_of 1 ∷ [];
  best_block_hash = hash_of 1;
  best_height = 1;
}

abbrev store_with : Index → Store
store_with index = record {
  index = index;
  blocks = record {
    files = [] ∷ [];
    current_file = 0;
    current_file_size = 0;
    index = [];
    next_index = 0;
  };
  mempool = [];
}

abbrev node_with : Bytes → Index → Node
node_with buffer index = record {
  peer = peer_with buffer;
  storage = some (store_with index);
  best_height = 0;
  addrman = record { addr_list = []; banned_ips = [] };
  broadcasts = [];
  threat_history = [];
  known_threats = [];
}

env-SubmitsShorter : SubmitsShorter env
env-SubmitsShorter n payload = unfold IsShorter in omega arith

abbrev verack : Bytes
verack = 1 ∷ 0 ∷ 0 ∷ 0 ∷ 0 ∷ []

abbrev ping : Bytes
ping = 9 ∷ 8 ∷ 0 ∷ 0 ∷ 0 ∷ 1 ∷ 2 ∷ 3 ∷ 4 ∷ 5 ∷ 6 ∷ 7 ∷ 8 ∷ []

one_round-message_example :
    one_round env (node_with (verack ++ (9 ∷ [])) one_block)
    ≡ after_handler env (dispatch env verack_msg [] (node_with (9 ∷ []) one_block))
unfolding message is_open is_rejected write_uint32 le_bytes
one_round-message_example =
    one_round-message env (node_with (verack ++ (9 ∷ [])) one_block) verack_msg [] (9 ∷ []) refl
      refl refl

served : headers_for two_blocks (hash_of 1 ∷ []) (hash_of 0) ≡ header_at 2 1 ∷ []
unfolding headers_for find_start start_after collect_headers get_header_by_hash get_header_by_height
    at_key bytes_eq
served = refl

anchored : IsAnchored one_block (header_at 2 1)
unfolding first_height get_header_by_hash at_key bytes_eq
anchored = refl

handle_headers-headers_for_example :
    (deserialize_headers (serialize_headers (header_at 2 1 ∷ []))
      ≡ done (without_height (header_at 2 1) ∷ [], length (serialize_headers (header_at 2 1 ∷ []))))
    × ((link_headers one_block (without_height (header_at 2 1) ∷ [])
          ≡ linked (header_at 2 1 ∷ []) (missing one_block (header_at 2 1 ∷ [])))
        × (handle_headers env (node_with [] one_block) (serialize_headers (header_at 2 1 ∷ []))
            ≡ some (record (node_with [] one_block) {
              peer =
                  after_link env
                    (without_height (header_at 2 1) ∷ [])
                    (linked (header_at 2 1 ∷ []) (missing one_block (header_at 2 1 ∷ [])))
                    (peer_with []);
            })))
handle_headers-headers_for_example =
    handle_headers-headers_for env (node_with [] one_block) (store_with one_block) two_blocks
      (hash_of 1 ∷ []) (hash_of 0) (header_at 2 1) [] served
      ((omega arith, (refl, (refl, (omega arith, (omega arith, (omega arith, (refl, refl))))))), tt)
      tt anchored refl

-- Two bytes of a ping.
abbrev half_ping : Bytes
half_ping = 9 ∷ 8 ∷ []

half_waits :
    process_messages env (node_with [] one_block) (bytes_in half_ping)
    ≡ some (node_with half_ping one_block)
unfolding process_messages take_in process_frames one_round frame_round is_open
half_waits = refl

process_messages-length_example : 2 < buffer_limit
unfolding is_open
process_messages-length_example =
    process_messages-length env (node_with [] one_block) (node_with half_ping one_block) half_ping
      env-SubmitsShorter refl half_waits

-- A header with difficulty 0 after the block of height 1.
abbrev free_block : Bytes
free_block = 1 ∷ 0 ∷ 0 ∷ 0 ∷ (hash_of 1 ++ (hash_of 9 ++ (208 ∷ 7 ∷ replicate 42 0)))

abbrev free_header : BlockHeader
free_header = record {
  version = 1;
  prev_block_hash = hash_of 1;
  merkle_root = hash_of 9;
  timestamp = 2000;
  difficulty = 0;
  nonce = 0;
  hash = take 32 free_block;
  height = 0;
}

free_header_read : read_block_header env free_block ≡ done free_header
unfolding read_block_header read_uint32 read_uint64 read_le copy_bytes
free_header_read = refl

parent_known : get_header_by_hash one_block (hash_of 1) ≡ some (header_at 1 0)
unfolding get_header_by_hash at_key bytes_eq
parent_known = refl

handle_block-HasTip_example :
    (m : Node) × ((handle_block env (node_with [] one_block) free_block ≡ some m)
      × HasTip m free_header.hash 2)
unfolding begins_with_brace
handle_block-HasTip_example =
    handle_block-HasTip env (node_with [] one_block) (store_with one_block) free_block free_header
      (header_at 1 0) refl refl refl (omega arith) free_header_read refl parent_known refl refl
      (omega arith) (omega arith)

abbrev hello : Version
hello = record {
  version = 1;
  services = 1;
  timestamp = 900;
  user_agent = 47 ∷ [];
  start_height = 2;
}

handshake-IsComplete_example :
    (m : Node) × ((handle_version env (node_with [] one_block) (serialize_version hello host host 3)
        ≡ some m)
      × IsComplete hello (handle_verack env m).peer)
handshake-IsComplete_example =
    handshake-IsComplete env (node_with [] one_block) hello host host 3 (λ msg. refl)
      (unfold is_open in refl) refl refl refl
      (omega arith, (omega arith, (omega arith, (omega arith, omega arith)))) (omega arith) refl

half_ping_waits : one_round env (node_with half_ping one_block) ≡ waits
unfolding message is_rejected write_uint32 le_bytes
half_ping_waits =
    one_round-take env (node_with half_ping one_block) ping_msg (replicate 8 1) 2 refl refl
      (omega arith)
