-- ===== src/Wire/Examples.antt =====
-- Messages on concrete input.
use pi_secure.Wire.HeaderRow.{IsWireHeader}
use pi_secure.Prelude.{
  length, replicate, Bytes, codes, All, IsByte, ℕ, ◌≤◌, ◌<◌, ◌≡◌, refl, ◌↔◌, List, [], ◌∷◌, ◌++◌,
  arith,
}
use pi_secure.Tx.Fields.{le_bytes}
use pi_secure.Index.{BlockHeader}
use pi_secure.Wire.{
  done, past_end, write_uint32, write_var_int, write_string, read_le, read_uint32, read_uint64,
  copy_bytes, read_var_int, read_string,
}
use pi_secure.Wire.Rows.{read_rows, write_rows}
use pi_secure.Wire.Messages.{
  PeerAddr, Version, write_header, serialize_headers, deserialize_headers, serialize_addr,
  deserialize_addr, serialize_version, deserialize_version, serialize_get_headers,
  deserialize_get_headers, deserialize_threat_alert, serialize_reject, is_empty, headers_of,
  read_header, deserialize_inv, deserialize_ping, deserialize_pong,
}
use pi_secure.Wire.Headers.{deserialize_headers-serialize_headers, deserialize_headers_sound}
use pi_secure.Wire.Peers.{
  deserialize_version-serialize_version, deserialize_addr-serialize_addr,
  deserialize_get_headers-serialize_get_headers,
}
use pi_secure.Wire.Bounds.{InBounds, deserialize-InBounds}
use pi_secure.Wire.PastEnd.{deserialize_version-past_end_iff, deserialize_threat_alert-past_end_iff}

var_int_widths :
    ◌≡◌ {A = List Bytes}
      (write_var_int 252 ∷ write_var_int 253 ∷ write_var_int 65_536 ∷ [])
      ((252 ∷ []) ∷ (253 ∷ 253 ∷ 0 ∷ []) ∷ (254 ∷ 0 ∷ 0 ∷ 1 ∷ 0 ∷ []) ∷ [])
unfolding write_var_int write_uint32 le_bytes
var_int_widths = refl

-- A count that is cut short is 0.
var_int_cut : read_var_int (254 ∷ 1 ∷ 2 ∷ []) ≡ done (0, 1 ∷ 2 ∷ [])
unfolding read_var_int read_uint32 read_le
var_int_cut = refl

reject_ok :
    serialize_reject (codes "tx") 16 (codes "no") ≡ 2 ∷ b't' ∷ b'x' ∷ 16 ∷ 2 ∷ b'n' ∷ b'o' ∷ []
unfolding serialize_reject write_string write_var_int
reject_ok = refl

abbrev hash_of : ℕ → Bytes
hash_of b = replicate 32 b

abbrev two_headers : List BlockHeader
two_headers =
    record {
      version = 1;
      prev_block_hash = hash_of 0;
      merkle_root = hash_of 7;
      timestamp = 1_700_000_000;
      difficulty = 3;
      nonce = 99;
      hash = hash_of 1;
      height = 0;
    }
    ∷ record {
      version = 1;
      prev_block_hash = hash_of 1;
      merkle_root = hash_of 8;
      timestamp = 1_700_000_314;
      difficulty = 3;
      nonce = 5;
      hash = hash_of 2;
      height = 0;
    }
    ∷ []

two_headers-IsWireHeader : All IsWireHeader two_headers
two_headers-IsWireHeader = (
  (omega arith, (refl, (refl, (omega arith, (omega arith, (omega arith, (refl, refl))))))),
  ((omega arith, (refl, (refl, (omega arith, (omega arith, (omega arith, (refl, refl))))))), tt),
)

deserialize_headers-serialize_headers_example :
    deserialize_headers (serialize_headers two_headers)
    ≡ done (two_headers, length (serialize_headers two_headers))
deserialize_headers-serialize_headers_example =
    deserialize_headers-serialize_headers two_headers (omega arith) (omega arith)
      two_headers-IsWireHeader

abbrev one_header : Bytes
one_header =
    1
    ∷ 1
    ∷ 0
    ∷ 0
    ∷ 0
    ∷ (hash_of 0
        ++ (hash_of 7 ++ (7 ∷ replicate 7 0 ++ (3 ∷ 0 ∷ 0 ∷ 0 ∷ (9 ∷ replicate 7 0 ++ hash_of 1)))))

one_header-IsByte : All IsByte one_header
one_header-IsByte = omega arith

abbrev header_one : BlockHeader
header_one = record {
  version = 1;
  prev_block_hash = hash_of 0;
  merkle_root = hash_of 7;
  timestamp = 7;
  difficulty = 3;
  nonce = 9;
  hash = hash_of 1;
  height = 0;
}

one_header_read : deserialize_headers one_header ≡ done (header_one ∷ [], 121)
unfolding deserialize_headers read_var_int headers_of read_rows read_header read_uint32 read_uint64
    read_le copy_bytes is_empty
one_header_read = refl

deserialize_headers_sound_example :
    (121 ≡ length one_header)
    × ((1 ≤ length (header_one ∷ []))
        × ((length (header_one ∷ []) ≤ 2000)
            × (All IsWireHeader (header_one ∷ [])
                × (read_var_int one_header ≡ done (1, write_rows write_header (header_one ∷ []))))))
deserialize_headers_sound_example =
    deserialize_headers_sound one_header (header_one ∷ []) 121 one_header-IsByte one_header_read

deserialize-InBounds_example :
    InBounds (deserialize_addr (2 ∷ 0 ∷ []))
    × (InBounds (deserialize_inv (2 ∷ 0 ∷ []))
        × (InBounds (deserialize_get_headers (2 ∷ 0 ∷ []) (hash_of 0))
            × (InBounds (deserialize_headers (2 ∷ 0 ∷ []))
                × (InBounds (deserialize_ping (2 ∷ 0 ∷ []))
                    × InBounds (deserialize_pong (2 ∷ 0 ∷ []))))))
deserialize-InBounds_example = deserialize-InBounds (2 ∷ 0 ∷ []) (hash_of 0)

deserialize_version-past_end_iff_example :
    (deserialize_version (replicate 41 0) 7 ≡ past_end) ↔ ((40 ≤ 41) × (41 < 44))
deserialize_version-past_end_iff_example = deserialize_version-past_end_iff (replicate 41 0) 7

-- Two texts and eleven bytes.
abbrev cut_alert : Bytes
cut_alert = 4 ∷ b'd' ∷ b'd' ∷ b'o' ∷ b's' ∷ 3 ∷ b'l' ∷ b'o' ∷ b'w' ∷ replicate 11 0

alert_read_past_end : (deserialize_threat_alert cut_alert 0 ≡ past_end) ↔ (11 < 12)
unfolding read_string read_var_int copy_bytes
alert_read_past_end =
    deserialize_threat_alert-past_end_iff cut_alert 0 (codes "ddos") (codes "low")
      (3 ∷ b'l' ∷ b'o' ∷ b'w' ∷ replicate 11 0) (replicate 11 0) (omega arith) refl refl

abbrev version_one : Version
version_one = record {
  version = 31_400;
  services = 1;
  timestamp = 1_700_000_000;
  user_agent = codes "/PiSecure/";
  start_height = 12;
}

abbrev peer : PeerAddr
peer = record { ip = 16_777_343; port = 14_867; last_seen = 9; services = 1; failures = 0 }

version_reads_back :
    deserialize_version (serialize_version version_one peer peer 5) 0 ≡ done version_one
version_reads_back =
    deserialize_version-serialize_version version_one peer peer 5 0
      (omega arith, (omega arith, (omega arith, (omega arith, omega arith)))) (omega arith)

addrs_read_back : deserialize_addr (serialize_addr (peer ∷ [])) ≡ done (peer ∷ [])
addrs_read_back =
    deserialize_addr-serialize_addr (peer ∷ []) (omega arith)
      ((omega arith, (omega arith, (omega arith, (omega arith, refl)))), tt)

locator_reads_back :
    deserialize_get_headers (serialize_get_headers (hash_of 3 ∷ []) (hash_of 0)) (hash_of 1)
    ≡ done (hash_of 3 ∷ [], hash_of 0)
locator_reads_back =
    deserialize_get_headers-serialize_get_headers (hash_of 3 ∷ []) (hash_of 0) (hash_of 1)
      (omega arith) (refl, tt) refl
