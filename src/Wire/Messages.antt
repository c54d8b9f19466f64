-- ===== src/Wire/Messages.antt =====
-- cpp/pisecured/src/p2p.cpp: `serialize...` and `deserialize...`, and the structs of
-- cpp/pisecured/include/pisecured/p2p.hpp. A vector or a text that a call fills is its result; a
-- field that a call may leave alone is an argument.
use pi_secure.Prelude.{
  ltb, leb, ◌==◌, if◌then◌else◌, length, drop, Bytes, u32_mod, ℕ, ◌+◌, ◌*◌, ◌/◌, ◌%◌, Bool, true,
  false, not, ◌||◌, Option, none, some, List, [], ◌∷◌, ◌++◌,
}
use pi_secure.Index.{BlockHeader}
use pi_secure.Wire.{
  Parsed, done, refused, past_end, ◌>>=◌, write_uint32, write_uint64, write_var_int, write_string,
  read_uint32, read_uint64, copy_bytes, read_var_int, read_string,
}
use pi_secure.Wire.Rows.{read_rows, write_rows}

abbrev pub protocol_version : ℕ
protocol_version = 31_400

abbrev pub max_inv_size : ℕ
max_inv_size = 50_000

-- kCompactHeaderBytes
abbrev pub compact_header_bytes : ℕ
compact_header_bytes = 4 + 32 + 32 + 8 + 4 + 8 + 32

-- `addr.sin_addr.s_addr` and `addr.sin_port` are the fields `ip` and `port`.
pub record PeerAddr : Type 0 where
  pub ip : ℕ
  pub port : ℕ
  pub last_seen : ℕ
  pub services : ℕ
  pub failures : ℕ

pub record InvVect : Type 0 where
  pub type_ : ℕ
  pub hash : Bytes

pub record Version : Type 0 where
  pub version : ℕ
  pub services : ℕ
  pub timestamp : ℕ
  pub user_agent : Bytes
  pub start_height : ℕ

-- `confidence_fixed` is the confidence as it is sent, in millionths.
pub record ThreatAlert : Type 0 where
  pub threat_type : Bytes
  pub severity : Bytes
  pub source_ip : ℕ
  pub timestamp : ℕ
  pub details : Bytes
  pub reporting_node_id : Bytes
  pub confidence_fixed : ℕ

unfoldable pub serialize_version : Version → PeerAddr → PeerAddr → ℕ → Bytes
serialize_version v addr_recv addr_from nonce =
    write_uint32 v.version
    ++ (write_uint64 v.services
        ++ (write_uint64 v.timestamp
            ++ (write_uint64 addr_recv.services
                ++ (write_uint64 addr_from.services
                    ++ (write_uint64 nonce
                        ++ (write_string v.user_agent ++ write_uint32 v.start_height))))))

unfoldable pub write_addr : PeerAddr → Bytes
write_addr a =
    write_uint64 a.last_seen
    ++ (write_uint32 a.services
        ++ (write_uint32 a.ip ++ ((a.port / 256 % 256) ∷ (a.port % 256) ∷ [])))

unfoldable pub serialize_addr : List PeerAddr → Bytes
serialize_addr addrs = write_var_int (length addrs) ++ write_rows write_addr addrs

unfoldable pub write_inv : InvVect → Bytes
write_inv inv = write_uint32 inv.type_ ++ inv.hash

unfoldable pub serialize_inv : List InvVect → Bytes
serialize_inv invs = write_var_int (length invs) ++ write_rows write_inv invs

unfoldable pub serialize_get_data : List InvVect → Bytes
serialize_get_data invs = serialize_inv invs

unfoldable pub serialize_get_headers : List Bytes → Bytes → Bytes
serialize_get_headers locator hash_stop =
    write_uint32 protocol_version
    ++ (write_var_int (length locator) ++ (write_rows (λ hash. hash) locator ++ hash_stop))

unfoldable pub write_header : BlockHeader → Bytes
write_header h =
    write_uint32 h.version
    ++ (h.prev_block_hash
        ++ (h.merkle_root
            ++ (write_uint64 h.timestamp
                ++ (write_uint32 h.difficulty ++ (write_uint64 h.nonce ++ h.hash)))))

-- The loop of `serializeHeaders`: nothing, if a header has another size.
unfoldable pub header_rows : List BlockHeader → Option Bytes
header_rows [] = some []
header_rows (h ∷ headers) =
    if length (write_header h) == compact_header_bytes
    then elim (header_rows headers) [ none ↦ none | some s ↦ some (write_header h ++ s) ]
    else none

unfoldable pub counted_rows : ℕ → Option Bytes → Bytes
counted_rows count none = []
counted_rows count (some rows) = write_var_int count ++ rows

unfoldable pub serialize_headers : List BlockHeader → Bytes
serialize_headers headers = counted_rows (length headers) (header_rows headers)

unfoldable pub serialize_ping : ℕ → Bytes
serialize_ping nonce = write_uint64 nonce

unfoldable pub serialize_pong : ℕ → Bytes
serialize_pong nonce = write_uint64 nonce

unfoldable pub serialize_reject : Bytes → ℕ → Bytes → Bytes
serialize_reject message code reason = write_string message ++ (code ∷ write_string reason)

unfoldable pub serialize_threat_alert : ThreatAlert → Bytes
serialize_threat_alert a =
    write_string a.threat_type
    ++ (write_string a.severity
        ++ (write_uint32 a.source_ip
            ++ (write_uint64 a.timestamp
                ++ (write_string a.details
                    ++ (write_string a.reporting_node_id ++ write_uint64 a.confidence_fixed)))))

-- The height at the end, if there are four bytes for it.
unfoldable pub read_start_height : ℕ → Bytes → Parsed ℕ
read_start_height start_height s =
    if leb 4 (length s) then (read_uint32 s >>= λ (height, t). done height) else done start_height

unfoldable pub deserialize_version : Bytes → ℕ → Parsed Version
deserialize_version payload start_height = if ltb (length payload) 40 then refused else do
  (version, s) ← read_uint32 payload
  (services, s) ← read_uint64 s
  (timestamp, s) ← read_uint64 s
  -- skip addr fields
  (nonce, s) ← read_uint64 (drop 16 s)
  (user_agent, s) ← read_string s
  start_height ← read_start_height start_height s
  done (record {
    version = version;
    services = services % u32_mod;
    timestamp = timestamp;
    user_agent = user_agent;
    start_height = start_height;
  })

unfoldable pub read_port : Bytes → Parsed (ℕ × Bytes)
read_port (high ∷ low ∷ s) = done (high * 256 + low, s)
read_port s = past_end

unfoldable pub read_addr : Bytes → Parsed (PeerAddr × Bytes)
read_addr s = do
  (last_seen, s) ← read_uint64 s
  (services, s) ← read_uint32 s
  (ip, s) ← read_uint32 s
  (port, s) ← read_port s
  done
      (record { ip = ip; port = port; last_seen = last_seen; services = services; failures = 0 }, s)

-- Whether the payload is empty.
unfoldable pub is_empty : Bytes → Bool
is_empty [] = true
is_empty (b ∷ s) = false

unfoldable pub addrs_of : ℕ → Bytes → Parsed (List PeerAddr)
addrs_of count s =
    if ltb 1000 count
    then refused
    else (read_rows 18 read_addr count s >>= λ (addrs, t). done addrs)

unfoldable pub deserialize_addr : Bytes → Parsed (List PeerAddr)
deserialize_addr payload =
    if is_empty payload then refused else (read_var_int payload >>= λ (count, s). addrs_of count s)

unfoldable pub read_inv : Bytes → Parsed (InvVect × Bytes)
read_inv s = do
  (type_, s) ← read_uint32 s
  (hash, s) ← copy_bytes 32 s
  done (record { type_ = type_; hash = hash }, s)

unfoldable pub invs_of : ℕ → Bytes → Parsed (List InvVect)
invs_of count s =
    if ltb max_inv_size count
    then refused
    else (read_rows 36 read_inv count s >>= λ (invs, t). done invs)

unfoldable pub deserialize_inv : Bytes → Parsed (List InvVect)
deserialize_inv payload =
    if is_empty payload then refused else (read_var_int payload >>= λ (count, s). invs_of count s)

-- The hash to stop at, if there are bytes for it.
unfoldable pub read_hash_stop : Bytes → Bytes → Parsed Bytes
read_hash_stop hash_stop s =
    if leb 32 (length s) then (copy_bytes 32 s >>= λ (hash, t). done hash) else done hash_stop

unfoldable pub locator_of : Bytes → ℕ → Bytes → Parsed (List Bytes × Bytes)
locator_of hash_stop count s = if ltb 500 count then refused else do
  (locator, s) ← read_rows 32 (copy_bytes 32) count s
  hash_stop ← read_hash_stop hash_stop s
  done (locator, hash_stop)

-- The four bytes of the version are skipped.
unfoldable pub deserialize_get_headers : Bytes → Bytes → Parsed (List Bytes × Bytes)
deserialize_get_headers payload hash_stop =
    if ltb (length payload) 37
    then refused
    else (read_var_int (drop 4 payload) >>= λ (count, s). locator_of hash_stop count s)

unfoldable pub read_header : Bytes → Parsed (BlockHeader × Bytes)
read_header s = do
  (version, s) ← read_uint32 s
  (prev_block_hash, s) ← copy_bytes 32 s
  (merkle_root, s) ← copy_bytes 32 s
  (timestamp, s) ← read_uint64 s
  (difficulty, s) ← read_uint32 s
  (nonce, s) ← read_uint64 s
  (hash, s) ← copy_bytes 32 s
  done (
    record {
      version = version;
      prev_block_hash = prev_block_hash;
      merkle_root = merkle_root;
      timestamp = timestamp;
      difficulty = difficulty;
      nonce = nonce;
      hash = hash;
      height = 0;
    },
    s,
  )

-- From the count on, where `size` is the size of the payload.
unfoldable pub headers_of : ℕ → ℕ → Bytes → Parsed (List BlockHeader × ℕ)
headers_of size count s =
    if count == 0 || ltb 2000 count
    then refused
    else if not (length s == count * compact_header_bytes)
    then refused
    else (read_rows compact_header_bytes read_header count s >>= λ (headers, t).
        if is_empty t then done (headers, size) else refused)

-- The headers and `consumed`.
unfoldable pub deserialize_headers : Bytes → Parsed (List BlockHeader × ℕ)
deserialize_headers payload =
    if is_empty payload
    then refused
    else (read_var_int payload >>= λ (count, s). headers_of (length payload) count s)

unfoldable pub deserialize_ping : Bytes → Parsed ℕ
deserialize_ping payload =
    if ltb (length payload) 8 then refused else (read_uint64 payload >>= λ (nonce, s). done nonce)

unfoldable pub deserialize_pong : Bytes → Parsed ℕ
deserialize_pong payload = deserialize_ping payload

-- The confidence at the end, if there are eight bytes for it.
unfoldable pub read_confidence : ℕ → Bytes → Parsed ℕ
read_confidence confidence s =
    if leb 8 (length s) then (read_uint64 s >>= λ (fixed, t). done fixed) else done confidence

unfoldable pub deserialize_threat_alert : Bytes → ℕ → Parsed ThreatAlert
deserialize_threat_alert payload confidence = if ltb (length payload) 20 then refused else do
  (threat_type, s) ← read_string payload
  (severity, s) ← read_string s
  (source_ip, s) ← read_uint32 s
  (timestamp, s) ← read_uint64 s
  (details, s) ← read_string s
  (reporting_node_id, s) ← read_string s
  confidence_fixed ← read_confidence confidence s
  done (record {
    threat_type = threat_type;
    severity = severity;
    source_ip = source_ip;
    timestamp = timestamp;
    details = details;
    reporting_node_id = reporting_node_id;
    confidence_fixed = confidence_fixed;
  })
