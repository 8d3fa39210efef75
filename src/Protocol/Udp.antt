-- ===== src/Protocol/Udp.antt =====
-- The data channel of skeleton/protocol.h: the constants and `udp_header_t` as sixteen bytes.
-- A field holds the number that the programs compute with: `encode` and `decode` do the `htonl`,
-- `htons`, `ntohl` and `ntohs` of the code. The checksum is stored with no conversion, in the byte
-- order of the host, which is little-endian here.
pub mod Laws
use cpe_464_program.Base.{ℕ, ◌+◌, ◌*◌, ◌/◌, ◌%◌, ◌^◌, List, [], ◌∷◌, get_or, set}

abbrev pub udp_data : ℕ
udp_data = 1

abbrev pub udp_ack : ℕ
udp_ack = 2

abbrev pub udp_request_file : ℕ
udp_request_file = 3

abbrev pub udp_file_start : ℕ
udp_file_start = 4

abbrev pub chunk_size : ℕ
chunk_size = 1024

abbrev pub window_size : ℕ
window_size = 64

abbrev pub timeout_ms : ℕ
timeout_ms = 500

abbrev pub max_retries : ℕ
max_retries = 10

-- `sizeof(udp_header_t)`, a packed structure.
abbrev pub sizeof_udp_header : ℕ
sizeof_udp_header = 16

pub record UdpHeader : Type 0 where
  pub msg_type : ℕ
  pub flags : ℕ
  pub checksum : ℕ
  pub seq_num : ℕ
  pub ack_num : ℕ
  pub data_len : ℕ
  pub window : ℕ

-- Byte `k` of a number, counted from the least.
abbrev pub byte : ℕ → ℕ → ℕ
byte v k = v / 256 ^ k % 256

-- The header in memory, followed by `rest`.
abbrev pub encode : UdpHeader → List ℕ → List ℕ
encode h rest =
    byte h.msg_type 0
    ∷ byte h.flags 0
    ∷ byte h.checksum 0
    ∷ byte h.checksum 1
    ∷ byte h.seq_num 3
    ∷ byte h.seq_num 2
    ∷ byte h.seq_num 1
    ∷ byte h.seq_num 0
    ∷ byte h.ack_num 3
    ∷ byte h.ack_num 2
    ∷ byte h.ack_num 1
    ∷ byte h.ack_num 0
    ∷ byte h.data_len 1
    ∷ byte h.data_len 0
    ∷ byte h.window 1
    ∷ byte h.window 0
    ∷ rest

abbrev pub be16 : List ℕ → ℕ → ℕ
be16 p i = get_or p i 0 * 256 + get_or p (i + 1) 0

abbrev pub be32 : List ℕ → ℕ → ℕ
be32 p i =
    get_or p i 0 * 256 ^ 3
    + get_or p (i + 1) 0 * 256 ^ 2
    + get_or p (i + 2) 0 * 256
    + get_or p (i + 3) 0

-- A header read from a packet of at least sixteen bytes.
abbrev pub decode : List ℕ → UdpHeader
decode p = record {
  msg_type = get_or p 0 0;
  flags = get_or p 1 0;
  checksum = get_or p 2 0 + get_or p 3 0 * 256;
  seq_num = be32 p 4;
  ack_num = be32 p 8;
  data_len = be16 p 12;
  window = be16 p 14;
}

-- `((udp_header_t *)packet)->checksum = v`.
abbrev pub store_checksum : List ℕ → ℕ → List ℕ
store_checksum p v = set (set p 2 (byte v 0)) 3 (byte v 1)
