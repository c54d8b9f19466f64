-- ===== src/P2p.antt =====
-- cpp/pisecured/src/p2p.cpp: one peer of the node, what the node keeps for all, and the messages that
-- go out. A socket is a number while it is open; `sent` is every message that the socket took whole.
-- What the surroundings decide is the record `Env`.
pub mod Greet
pub mod Inventory
pub mod Sync
pub mod Threats
pub mod Process
pub mod Buffer
pub mod Shorter
pub mod Rounds
pub mod Loop
pub mod Headers
pub mod Exchange
pub mod Binary
pub mod Handshake
pub mod Framing
mod Examples
use pi_secure.Prelude.{
  ltb, leb, ◌==◌, if◌then◌else◌, ltb→lt, lt→ltb, leb→le, ==_iff, Bool-cases, Option-cases, tests,
  length, get_elem?, set, length-append, length-set, get_elem?-set_self, get_elem?-set_ne,
  get_elem?-append_left, get_elem?-append_end, get_or, take, drop, replicate, take-append-drop,
  length-take, length-drop, length-replicate, length-map, take-append, drop-append, drop-suc-append,
  Bytes, codes, u64_mod, u64_max, u32_mod, All, All-append, All-append_left, All-append_right,
  IsByte, bytes_eq, bytes_eq_iff, bytes_eq_refl, add64, sub64, mul64, sub_ℕ, ℤ, pos, negsuc, ℕ,
  zero, suc, ◌+◌, ◌-◌, ◌*◌, ◌/◌, ◌%◌, ◌^◌, ◌≤◌, ◌<◌, ◌≡◌, refl, sym, ap, ap₂, subst, ◌∙◌, ◌≢◌, ◌↔◌,
  ◌⊎◌, inl, inr, Bool, true, false, not, ◌&&◌, ◌||◌, Option, none, some, List, [], ◌∷◌, ◌++◌, map,
  append-nil, append_assoc, arith, dec_lt, ℕ_discrete,
}
use pi_secure.Index.{Index}
use pi_secure.Blocks.{Blocks}
use pi_secure.Wire.{write_uint32}
use pi_secure.Wire.Messages.{PeerAddr, InvVect, ThreatAlert}
use pi_secure.AddrMan.{AddrMan}

-- P2PMsgType
pub data MsgType : Type 0 where
  version_msg verack_msg addr_msg inv_msg getdata_msg headers_msg getheaders_msg : MsgType
  block_msg tx_msg ping_msg pong_msg reject_msg getblocks_msg threat_alert_msg : MsgType

abbrev pub msg_code : MsgType → ℕ
msg_code version_msg = 0
msg_code verack_msg = 1
msg_code addr_msg = 2
msg_code inv_msg = 3
msg_code getdata_msg = 4
msg_code headers_msg = 5
msg_code getheaders_msg = 6
msg_code block_msg = 7
msg_code tx_msg = 8
msg_code ping_msg = 9
msg_code pong_msg = 10
msg_code reject_msg = 11
msg_code getblocks_msg = 12
msg_code threat_alert_msg = 13

-- InvType
abbrev pub inv_tx : ℕ
inv_tx = 1

abbrev pub inv_block : ℕ
inv_block = 2

abbrev pub ban_score_threshold : ℕ
ban_score_threshold = 100

-- kMaxMessageBytes, kMaxBlockBytes, kMaxTxJsonBytes
abbrev pub max_message_bytes : ℕ
max_message_bytes = 2 * 1024 * 1024

abbrev pub max_block_bytes : ℕ
max_block_bytes = 256 * 1024

abbrev pub max_tx_json_bytes : ℕ
max_tx_json_bytes = 64 * 1024

pub record Transaction : Type 0 where
  pub hash : Bytes
  pub payload : Bytes
  pub timestamp : ℕ
  pub fee : ℕ

-- The members of `Storage` that the handlers use.
pub record Store : Type 0 where
  pub index : Index
  pub blocks : Blocks
  pub mempool : List (Bytes × Transaction)

pub record Peer : Type 0 where
  pub fd : Option ℕ
  pub address : PeerAddr
  pub inbound : Bool
  pub handshake_complete : Bool
  pub version_received : Bool
  pub verack_received : Bool
  pub version_sent : Bool
  pub verack_sent : Bool
  pub last_ping_time : ℕ
  pub last_pong_time : ℕ
  pub last_send_time : ℕ
  pub ban_score : ℕ
  pub version : ℕ
  pub services : ℕ
  pub start_height : ℕ
  pub asked_from_start : Bool
  pub user_agent : Bytes
  pub ping_nonce : ℕ
  pub known_inv : List InvVect
  pub recv_buffer : Bytes
  pub sent : List Bytes

-- `P2PServer` with the peer at hand. `broadcasts` is the inventory announced to all peers.
pub record Node : Type 0 where
  pub peer : Peer
  pub storage : Option Store
  pub best_height : ℕ
  pub addrman : AddrMan
  pub broadcasts : List InvVect
  pub threat_history : List ThreatAlert
  pub known_threats : List ℕ

-- `sends msg`: the socket takes all of `msg`. `opened`: a block file opens. The fields `stack_...`
-- are what stands in variables that the source does not set. `submit` is `rpc_submitblock` on a block
-- in JSON with what the handler does on its answer, and `has_many_inputs` the test on a transaction
-- in JSON. `sentinel` is `sentinelEnabled`, and `is_suspicious` the test on a peer in a Sybil attack.
pub record Env : Type 0 where
  pub now : ℕ
  pub unix_time : ℕ
  pub nonce : ℕ
  pub stack_height : ℕ
  pub stack_hash : Bytes
  pub stack_confidence : ℕ
  pub sends : Bytes → Bool
  pub opened : Bool
  pub own_address : ℕ → Bool
  pub sha256 : Bytes → Bytes
  pub submit : Node → Bytes → Node
  pub has_many_inputs : Bytes → Bool
  pub sentinel : Bool
  pub is_suspicious : Peer → ℕ → Bool

-- Message format: [type:1][length:4][payload]
unfoldable pub message : MsgType → Bytes → Bytes
message type_ payload = msg_code type_ ∷ (write_uint32 (length payload % u32_mod) ++ payload)

unfoldable pub send_message : Env → MsgType → Bytes → Peer → Peer
send_message env type_ payload peer = elim peer.fd [
  | none ↦ peer
  | some fd ↦
      if env.sends (message type_ payload)
      then record peer {
        sent = peer.sent ++ (message type_ payload ∷ []);
        last_send_time = env.now;
      }
      else record peer { fd = none }
]

unfoldable pub increase_ban_score : Peer → ℕ → Peer
increase_ban_score peer amount = record peer { ban_score = peer.ban_score + amount }

unfoldable pub should_ban : Peer → Bool
should_ban peer = leb ban_score_threshold peer.ban_score

unfoldable pub disconnect_peer : Peer → Peer
disconnect_peer peer = record peer { fd = none }

unfoldable pub punish : Node → ℕ → Node
punish n amount = record n { peer = increase_ban_score n.peer amount }
