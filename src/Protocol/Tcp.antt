-- ===== src/Protocol/Tcp.antt =====
-- The control channel of skeleton/protocol.h: messages between a client and the directory server as
-- bytes. Numbers are converted with `htons` and `htonl`, so they are stored with the highest byte first.
use cpe_464_program.Base.{
  ℕ, zero, suc, List, [], ◌∷◌, ◌++◌, replicate, take, drop, ◌==◌, if◌then◌else◌,
}
use cpe_464_program.Protocol.Udp.{byte, be32}

abbrev pub tcp_register : ℕ
tcp_register = 1

abbrev pub tcp_register_ack : ℕ
tcp_register_ack = 2

abbrev pub tcp_share_file : ℕ
tcp_share_file = 3

abbrev pub tcp_share_ack : ℕ
tcp_share_ack = 4

abbrev pub tcp_list_files : ℕ
tcp_list_files = 5

abbrev pub tcp_file_list : ℕ
tcp_file_list = 6

abbrev pub tcp_request_file : ℕ
tcp_request_file = 7

abbrev pub tcp_file_location : ℕ
tcp_file_location = 8

abbrev pub tcp_unregister : ℕ
tcp_unregister = 9

abbrev pub tcp_error : ℕ
tcp_error = 10

abbrev pub err_none : ℕ
err_none = 0

abbrev pub err_file_not_found : ℕ
err_file_not_found = 1

abbrev pub err_no_peers : ℕ
err_no_peers = 2

abbrev pub err_invalid_msg : ℕ
err_invalid_msg = 3

-- The sizes of the packed structures.
abbrev pub sizeof_tcp_header : ℕ
sizeof_tcp_header = 4

abbrev pub sizeof_tcp_register : ℕ
sizeof_tcp_register = 2

abbrev pub sizeof_tcp_share_file : ℕ
sizeof_tcp_share_file = 292

abbrev pub sizeof_file_info : ℕ
sizeof_file_info = 297

abbrev pub sizeof_tcp_request_file : ℕ
sizeof_tcp_request_file = 4

abbrev pub sizeof_tcp_file_location : ℕ
sizeof_tcp_file_location = 302

abbrev pub put16 : ℕ → List ℕ → List ℕ
put16 v rest = byte v 1 ∷ byte v 0 ∷ rest

abbrev pub put32 : ℕ → List ℕ → List ℕ
put32 v rest = byte v 3 ∷ byte v 2 ∷ byte v 1 ∷ byte v 0 ∷ rest

-- `tcp_header_t`, followed by the message's data.
abbrev pub tcp_message : ℕ → ℕ → ℕ → List ℕ → List ℕ
tcp_message msg_type error_code data_len payload =
    byte msg_type 0 ∷ byte error_code 0 ∷ put16 data_len payload

-- `strncpy`: the characters up to the first zero, filled up with zeros.
abbrev pub strncpy : ℕ → List ℕ → List ℕ
strncpy zero src = []
strncpy (suc n) [] = 0 ∷ strncpy n []
strncpy (suc n) (c ∷ src) = if c == 0 then replicate (suc n) 0 else c ∷ strncpy n src

-- A `char[256]` that the programs fill: `strncpy` of 255 characters and a final zero.
abbrev pub filename_of : List ℕ → List ℕ
filename_of src = strncpy 255 src ++ (0 ∷ [])

-- `tcp_share_file_t`.
pub record ShareFile : Type 0 where
  pub file_size : ℕ
  pub hash : List ℕ
  pub filename : List ℕ

abbrev pub decode_share_file : List ℕ → ShareFile
decode_share_file p = record {
  file_size = be32 p 0;
  hash = take 32 (drop 4 p);
  filename = take 256 (drop 36 p);
}
