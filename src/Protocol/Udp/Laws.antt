-- ===== src/Protocol/Udp/Laws.antt =====
-- The layout of `udp_header_t` read back.
use cpe_464_program.Base.{◌+◌, drop, get_or, get_or-drop, ap, ℕ, ◌^◌, ◌<◌, ◌≡◌, refl, List, arith}
use cpe_464_program.Protocol.Udp.{UdpHeader, encode, decode, store_checksum, be16, be32}

-- Every field fits its width.
pub record IsHeader (h : UdpHeader) : Type 0 where
  pub msg_type_fits : h.msg_type < 2 ^ 8
  pub flags_fits : h.flags < 2 ^ 8
  pub checksum_fits : h.checksum < 2 ^ 16
  pub seq_num_fits : h.seq_num < 2 ^ 32
  pub ack_num_fits : h.ack_num < 2 ^ 32
  pub data_len_fits : h.data_len < 2 ^ 16
  pub window_fits : h.window < 2 ^ 16

-- A header whose fields fit their widths is read back from its bytes, whatever follows them.
pub decode-encode : (h : UdpHeader) (rest : List ℕ) → IsHeader h → decode (encode h rest) ≡ h
decode-encode h rest v = ground arith

-- Storing a checksum into an encoded header changes that field alone.
pub store_checksum-encode :
    (h : UdpHeader) (rest : List ℕ) (v : ℕ)
    → store_checksum (encode h rest) v ≡ encode (record h { checksum = v }) rest
store_checksum-encode h rest v = refl

-- A number is read from what lies behind the bytes before it.
pub be32-drop : (n : ℕ) (p : List ℕ) → be32 p n ≡ be32 (drop n p) 0
be32-drop n p = omega (
  arith,
  get_or-drop n 0 p 0,
  get_or-drop n 1 p 0,
  get_or-drop n 2 p 0,
  get_or-drop n 3 p 0,
  ap (λ k. get_or p k 0) {x = n + 0} {y = n} (omega arith),
)

pub be16-drop : (n : ℕ) (p : List ℕ) → be16 p n ≡ be16 (drop n p) 0
be16-drop n p = omega (
  arith,
  get_or-drop n 0 p 0,
  get_or-drop n 1 p 0,
  ap (λ k. get_or p k 0) {x = n + 0} {y = n} (omega arith),
)
