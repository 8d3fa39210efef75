-- ===== src/Directory/Messages.antt =====
-- skeleton/server.c: the messages of a client, and the connections, that the event loop handles.
-- The result of `send_response` is read by no caller, so a reply is the call of `send` alone.
use cpe_464_program.Base.{
  ℕ, ◌+◌, ◌*◌, Bool, true, false, not, Option, none, some, List, [], ◌∷◌, ◌++◌, ltb, leb, ◌==◌,
  if◌then◌else◌, u16, u32, length, get_or, set, drop,
}
use cpe_464_program.Protocol.Udp.{be16, be32}
use cpe_464_program.Protocol.Tcp.{
  tcp_register, tcp_register_ack, tcp_share_file, tcp_share_ack, tcp_list_files, tcp_file_list,
  tcp_request_file, tcp_file_location, tcp_unregister, tcp_error, err_none, err_file_not_found,
  err_no_peers, err_invalid_msg, sizeof_tcp_header, sizeof_tcp_register, sizeof_tcp_share_file,
  sizeof_file_info, sizeof_tcp_request_file, sizeof_tcp_file_location, put16, put32, tcp_message,
  filename_of, ShareFile, decode_share_file,
}
use cpe_464_program.Transfer.Sender.{Addr}
use cpe_464_program.Directory.{
  Client, SharedFile, Directory, max_files, client_at, file_at, listed, find_index, find_client,
  find_client_by_fd, find_file, remove_client,
}

abbrev pub send_response : Directory → ℕ → List ℕ → Directory
send_response d i bytes = record d {
  replies = d.replies ++ (record { to = (client_at d i).fd; bytes = bytes } ∷ []);
}

abbrev pub error_reply : ℕ → List ℕ
error_reply code = tcp_message tcp_error code 0 []

unfoldable pub handle_register : Directory → ℕ → ℕ → Directory
handle_register d i udp_port =
    let registered : Directory = record d {
      clients = set d.clients i (record (client_at d i) {
        udp_port = udp_port;
        client_id = d.next_client_id;
        active = true;
      });
      next_client_id = u32 (d.next_client_id + 1);
      num_clients = d.num_clients + 1;
    } in
    send_response registered i (tcp_message tcp_register_ack err_none 4 (put32 d.next_client_id []))

-- The entry that `handle_share_file` makes.
abbrev pub shared_entry : ℕ → ℕ → ShareFile → SharedFile
shared_entry file_id owner_id share = record {
  file_id = file_id;
  file_size = share.file_size;
  hash = share.hash;
  filename = filename_of share.filename;
  owner_id = owner_id;
}

unfoldable pub handle_share_file : Directory → ℕ → ShareFile → Directory
handle_share_file d i share =
    let added : Directory = record d {
      files = set d.files d.num_files (shared_entry d.next_file_id (client_at d i).client_id share);
      num_files = d.num_files + 1;
      next_file_id = u32 (d.next_file_id + 1);
    } in
    if leb max_files d.num_files
    then send_response d i (error_reply err_invalid_msg)
    else send_response added i (tcp_message tcp_share_ack err_none 4 (put32 d.next_file_id []))

-- `file_info_t`.
abbrev pub file_info : SharedFile → List ℕ
file_info f = put32 f.file_id (put32 f.file_size (f.hash ++ (1 ∷ filename_of f.filename)))

abbrev pub file_infos : List SharedFile → List ℕ
file_infos [] = []
file_infos (f ∷ files) = file_info f ++ file_infos files

-- `tcp_file_location_t`; the address stays in network order.
abbrev pub file_location : SharedFile → Client → List ℕ
file_location f owner = put32 f.file_id (
    put32 f.file_size
      (f.hash ++ put32 owner.addr.ip (put16 owner.udp_port (filename_of f.filename))))

unfoldable pub handle_request_file : Directory → ℕ → ℕ → Directory
handle_request_file d i file_id = elim (find_file d file_id) [
  | none ↦ send_response d i (error_reply err_file_not_found)
  | some k ↦ elim (find_client d (file_at d k).owner_id) [
    | none ↦ send_response d i (error_reply err_no_peers)
    | some j ↦ send_response d i (
        tcp_message tcp_file_location err_none sizeof_tcp_file_location
          (file_location (file_at d k) (client_at d j)))
  ]
]

unfoldable pub handle_unregister : Directory → ℕ → Directory
handle_unregister d i = remove_client d i

-- What `accept` returned: `none` below zero.
unfoldable pub accept_new_client : Directory → Option (ℕ × Addr) → Directory
accept_new_client d none = d
accept_new_client d (some (client_fd, client_addr)) =
    elim (find_index (λ c. not c.active) d.clients) [
      | none ↦ record d { closed = d.closed ++ (some client_fd ∷ []) }
      | some i ↦ record d {
        clients =
            set d.clients i
              (record (client_at d i) { fd = some client_fd; addr = client_addr; active = false });
      }
    ]

-- The functions that call `malloc`, which says whether it has so many bytes.
module _ (malloc : ℕ → Bool) where
  unfoldable pub handle_list_files : Directory → ℕ → Directory
  handle_list_files d i =
      if malloc (sizeof_tcp_header + d.num_files * sizeof_file_info)
      then send_response d i (
          tcp_message tcp_file_list err_none (u16 (d.num_files * sizeof_file_info))
            (file_infos (listed d)))
      else d

  -- The `switch` of `process_client_message`.
  unfoldable pub dispatch : Directory → ℕ → ℕ → ℕ → List ℕ → Directory
  dispatch d i msg_type data_len payload =
      if msg_type == tcp_register
      then if data_len == sizeof_tcp_register then handle_register d i (be16 payload 0) else d
      else if msg_type == tcp_share_file
      then if data_len == sizeof_tcp_share_file
        then handle_share_file d i (decode_share_file payload)
        else d
      else if msg_type == tcp_list_files
      then handle_list_files d i
      else if msg_type == tcp_request_file
      then if data_len == sizeof_tcp_request_file
        then handle_request_file d i (be32 payload 0)
        else d
      else if msg_type == tcp_unregister
      then handle_unregister d i
      else d

  unfoldable pub process_client_message : Directory → ℕ → List ℕ → Directory
  process_client_message d i packet =
      if ltb (length packet) sizeof_tcp_header
      then d
      else if not (sizeof_tcp_header + be16 packet 2 == length packet)
      then d
      else dispatch d i (get_or packet 0 0) (be16 packet 2) (drop sizeof_tcp_header packet)

  -- A socket is readable: `packet` is what `recv` gave, and `none` an error. Nothing read is the end of
  -- the connection.
  unfoldable pub client_readable : Directory → ℕ → Option (List ℕ) → Directory
  client_readable d fd packet = elim (find_client_by_fd d fd) [
    | none ↦ d
    | some i ↦ elim packet [
      | none ↦ remove_client d i
      | some bytes ↦ elim bytes [
        | [] ↦ remove_client d i
        | b ∷ more ↦ process_client_message d i (b ∷ more)
      ]
    ]
  ]

-- What `poll` reports.
pub data Event : Type 0 where
  connection : (accepted : Option (ℕ × Addr)) → Event
  readable : (fd : ℕ) (packet : Option (List ℕ)) → Event

unfoldable pub handle_event : (ℕ → Bool) → Directory → Event → Directory
handle_event malloc d (connection accepted) = accept_new_client d accepted
handle_event malloc d (readable fd packet) = client_readable malloc d fd packet

unfoldable pub handle_events : (ℕ → Bool) → Directory → List Event → Directory
handle_events malloc d [] = d
handle_events malloc d (e ∷ events) = handle_events malloc (handle_event malloc d e) events
