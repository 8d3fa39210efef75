-- ===== src/Client/Dialogue.antt =====
-- The requests that skeleton/client.c sends to the server over TCP and its reading of the answers:
-- `share`, `list`, the first part of `get`, `quit`, and the registration in `main`.
pub mod Laws
pub mod Tests
use cpe_464_program.Base.{
  ℕ, zero, suc, ◌+◌, ◌*◌, ◌/◌, ◌%◌, ◌^◌, Bool, true, false, not, ◌&&◌, Option, none, some, List, [],
  ◌∷◌, ◌++◌, map, ltb, ◌==◌, u32, length, take, drop, get_or,
}
use cpe_464_program.Protocol.Udp.{be16, be32}
use cpe_464_program.Protocol.Tcp.{
  tcp_register, tcp_register_ack, tcp_share_file, tcp_share_ack, tcp_list_files, tcp_file_list,
  tcp_request_file, tcp_file_location, tcp_unregister, tcp_error, err_none, sizeof_tcp_header,
  sizeof_tcp_register, sizeof_tcp_share_file, sizeof_file_info, sizeof_tcp_request_file,
  sizeof_tcp_file_location, put16, put32, tcp_message, filename_of,
}
use cpe_464_program.Shares.{add_shared_file}
use cpe_464_program.Client.{World, Action, pure, guard, ◌>>=◌, ◌>>◌, recv_exact, send_exact}

-- `file_info_t` as `list` reads it.
pub record FileInfo : Type 0 where
  pub file_id : ℕ
  pub file_size : ℕ
  pub hash : List ℕ
  pub num_peers : ℕ
  pub filename : List ℕ

abbrev pub decode_file_info : List ℕ → FileInfo
decode_file_info p = record {
  file_id = be32 p 0;
  file_size = be32 p 4;
  hash = take 32 (drop 8 p);
  num_peers = get_or p 40 0;
  filename = take 256 (drop 41 p);
}

-- `tcp_file_location_t`; the address and the port stay in network order until they are used.
pub record Location : Type 0 where
  pub file_id : ℕ
  pub file_size : ℕ
  pub hash : List ℕ
  pub peer_ip : ℕ
  pub peer_port : ℕ
  pub filename : List ℕ

abbrev pub decode_location : List ℕ → Location
decode_location p = record {
  file_id = be32 p 0;
  file_size = be32 p 4;
  hash = take 32 (drop 8 p);
  peer_ip = be32 p 40;
  peer_port = be16 p 44;
  filename = take 256 (drop 46 p);
}

-- The messages that the client sends.
abbrev pub register_message : ℕ → List ℕ
register_message udp_port =
    tcp_message tcp_register err_none sizeof_tcp_register (put16 udp_port [])

abbrev pub share_message : ℕ → List ℕ → List ℕ → List ℕ
share_message size hash filename =
    tcp_message tcp_share_file err_none sizeof_tcp_share_file
      (put32 size (hash ++ filename_of filename))

abbrev pub list_message : List ℕ
list_message = tcp_message tcp_list_files err_none 0 []

abbrev pub request_message : ℕ → List ℕ
request_message file_id =
    tcp_message tcp_request_file err_none sizeof_tcp_request_file (put32 file_id [])

abbrev pub unregister_message : List ℕ
unregister_message = tcp_message tcp_unregister err_none 0 []

-- A reply of the given kind whose body has `len` bytes: the header is read and tested, then the body.
abbrev pub recv_body : ℕ → ℕ → List ℕ → Action (List ℕ)
recv_body msg_type len header = do
  guard (not (get_or header 0 0 == tcp_error))
  guard (get_or header 0 0 == msg_type)
  guard (be16 header 2 == len)
  recv_exact len

unfoldable pub recv_reply : ℕ → ℕ → Action (List ℕ)
recv_reply msg_type len = recv_exact sizeof_tcp_header >>= recv_body msg_type len

-- The registration in `main`; the result is the client's id.
unfoldable pub register : ℕ → Action ℕ
register udp_port = do
  send_exact (register_message udp_port)
  body ← recv_reply tcp_register_ack 4
  pure (be32 body 0)

-- `add_shared_file` on the client's table.
abbrev pub record_share : ℕ → ℕ → List ℕ → List ℕ → Action (Unit {0})
record_share file_id size hash filename w =
    (some tt, record w { shares = add_shared_file (w.shares) file_id size hash filename })

-- `share`, with what `read_file_to_buffer` and `compute_sha256` do.
module _ (read_file : List ℕ → Option (List ℕ)) (sha256 : List ℕ → List ℕ) where
  abbrev pub read_contents : List ℕ → Action (List ℕ)
  read_contents filename w = (read_file filename, w)

  unfoldable pub share : List ℕ → Action (Unit {0})
  share filename = do
    contents ← read_contents filename
    guard (ltb (length contents) (2 ^ 32))
    let hash = sha256 contents
    send_exact (share_message (length contents) hash filename)
    body ← recv_reply tcp_share_ack 4
    record_share (be32 body 0) (length contents) hash filename

-- The entries of the body of a list.
abbrev pub decode_file_infos : ℕ → List ℕ → List FileInfo
decode_file_infos zero p = []
decode_file_infos (suc n) p = decode_file_info p ∷ decode_file_infos n (drop sizeof_file_info p)

-- What `list` prints of an entry, in the order of the line.
pub record Line : Type 0 where
  pub file_id : ℕ
  pub filename : List ℕ
  pub file_size : ℕ
  pub num_peers : ℕ

abbrev pub line_of : FileInfo → Line
line_of f = record {
  file_id = f.file_id;
  filename = f.filename;
  file_size = f.file_size;
  num_peers = f.num_peers;
}

-- `list`, with whether `malloc` has so many bytes; its result is the lines that are printed.
module _ (malloc : ℕ → Bool) where
  -- What `list` does with the length that the header declares.
  unfoldable pub recv_list : ℕ → Action (List Line)
  recv_list body_len = elim (body_len == 0) [
    | true ↦ pure []
    | false ↦ do
      guard (body_len % sizeof_file_info == 0)
      guard (malloc body_len)
      body ← recv_exact body_len
      pure (map line_of (decode_file_infos (body_len / sizeof_file_info) body))
  ]

  unfoldable pub list : Action (List Line)
  list = do
    send_exact list_message
    header ← recv_exact sizeof_tcp_header
    guard (not (get_or header 0 0 == tcp_error))
    guard (get_or header 0 0 == tcp_file_list)
    recv_list (be16 header 2)

-- The part of `get` that asks the server where the file is.
unfoldable pub locate : ℕ → Action Location
locate file_id = do
  send_exact (request_message file_id)
  body ← recv_reply tcp_file_location sizeof_tcp_file_location
  let location = decode_location body
  guard (file_id == location.file_id)
  pure location

-- `quit`, which returns nothing: a failure is printed only.
unfoldable pub quit : World → World
quit w = (send_exact unregister_message w).1
