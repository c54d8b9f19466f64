-- ===== src/P2p/Threats.antt =====
-- cpp/pisecured/src/p2p.cpp: `handleThreatAlert`, `activateCoordinatedDefense` for the peer at hand,
-- and the history of threats of `ThreatDetector`. Reports to the bootstrap server are left out.
use pi_secure.Prelude.{
  ltb, ◌==◌, if◌then◌else◌, length, drop, Bytes, codes, bytes_eq, ℕ, ◌+◌, ◌*◌, ◌/◌, ◌%◌, not, ◌||◌,
  Option, none, some, [], ◌∷◌, ◌++◌,
}
use pi_secure.Wire.{Parsed, done, refused, past_end}
use pi_secure.Wire.Messages.{PeerAddr, ThreatAlert, deserialize_threat_alert}
use pi_secure.AddrMan.{ban}
use pi_secure.P2p.{Node, Env, disconnect_peer}

-- `htonl` on the machines that the node runs on.
unfoldable pub htonl : ℕ → ℕ
htonl ip =
    ip % 256 * 16_777_216
    + ip / 256 % 256 * 65_536
    + ip / 65_536 % 256 * 256
    + ip / 16_777_216 % 256

-- The last 1000 threats are kept.
unfoldable pub record_threat : Node → ThreatAlert → Node
record_threat n alert =
    let grown = n.threat_history ++ (alert ∷ []) in
    record n {
      threat_history = if ltb 1000 (length grown) then drop 1 grown else grown;
      known_threats = alert.source_ip ∷ n.known_threats;
    }

threat_addr : ThreatAlert → PeerAddr
threat_addr alert = record {
  ip = htonl alert.source_ip;
  port = 0;
  last_seen = 0;
  services = 0;
  failures = 0;
}

unfoldable pub ban_source : Env → Node → ThreatAlert → Node
unfolding threat_addr
ban_source env n alert = record n { addrman = ban n.addrman (threat_addr alert) env.unix_time }

unfoldable pub activate_coordinated_defense : Env → Node → ThreatAlert → Node
activate_coordinated_defense env n alert =
    if bytes_eq alert.threat_type (codes "ddos_attack")
    then ban_source env n alert
    else if bytes_eq alert.threat_type (codes "sybil_attack")
    then (if htonl n.peer.address.ip == alert.source_ip || env.is_suspicious n.peer alert.source_ip
        then record n { peer = disconnect_peer n.peer }
        else n)
    else n

-- A confidence above 0.8 is more than 800000 millionths.
unfoldable pub alerted : Env → Node → ThreatAlert → Node
alerted env n alert =
    let recorded = record_threat n alert in
    let severe =
      bytes_eq alert.severity (codes "high") || bytes_eq alert.severity (codes "critical") in
    let defended = if severe then activate_coordinated_defense env recorded alert else recorded in
    if ltb 800_000 alert.confidence_fixed then ban_source env defended alert else defended

unfoldable pub answered_alert : Env → Node → Parsed ThreatAlert → Option Node
answered_alert env n (done alert) = some (alerted env n alert)
answered_alert env n refused = some n
answered_alert env n past_end = none

unfoldable pub handle_threat_alert : Env → Node → Bytes → Option Node
handle_threat_alert env n payload =
    if not env.sentinel
    then some n
    else answered_alert env n (deserialize_threat_alert payload env.stack_confidence)
