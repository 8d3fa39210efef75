-- ===== src/Directory/Cases.antt =====
-- The cases of an event in skeleton/server.c: whatever holds of the state as it was and after each kind of change
-- holds after the event.
use cpe_464_program.Base.{
  ℕ, ◌+◌, ◌*◌, Bool, Option, none, some, List, [], ◌∷◌, ltb, ◌==◌, length, get_or, drop, Bool-cases,
  Option-cases, inl, inr,
}
use cpe_464_program.Protocol.Udp.{be16, be32}
use cpe_464_program.Protocol.Tcp.{
  ShareFile, decode_share_file, sizeof_tcp_header, sizeof_tcp_register, sizeof_tcp_share_file,
  sizeof_tcp_request_file, tcp_register, tcp_share_file, tcp_list_files, tcp_request_file,
  tcp_unregister, sizeof_file_info,
}
use cpe_464_program.Transfer.Sender.{Addr}
use cpe_464_program.Directory.{
  Directory, file_at, find_client, find_client_by_fd, find_file, remove_client,
}
use cpe_464_program.Directory.Messages.{
  send_response, handle_register, handle_share_file, handle_request_file, handle_unregister,
  accept_new_client, handle_list_files, dispatch, process_client_message, client_readable, Event,
  connection, readable, handle_event,
}

module _ (P : Directory → Type 0) (malloc : ℕ → Bool) (d : Directory) (unchanged : P d)
    (replied : (i : ℕ) (bytes : List ℕ) → P (send_response d i bytes))
    (registered : (i udp_port : ℕ) → P (handle_register d i udp_port))
    (shared : (i : ℕ) (share : ShareFile) → P (handle_share_file d i share))
    (removed : (i : ℕ) → P (remove_client d i))
    (came : (accepted : Option (ℕ × Addr)) → P (accept_new_client d accepted)) where
  handle_request_file-Cases : (i file_id : ℕ) → P (handle_request_file d i file_id)
  unfolding handle_request_file
  handle_request_file-Cases i file_id = elim (Option-cases (find_file d file_id)) [
    | inl missing ↦ rw (missing, handle_request_file) (replied i _)
    | inr (k, found) ↦ elim (Option-cases (find_client d (file_at d k).owner_id)) [
      | inl gone ↦ rw (found, handle_request_file, gone) (replied i _)
      | inr (j, owner) ↦ rw (found, handle_request_file, owner) (replied i _)
    ]
  ]

  handle_list_files-Cases : (i : ℕ) → P (handle_list_files malloc d i)
  unfolding handle_list_files
  handle_list_files-Cases i =
      elim (Bool-cases (malloc (sizeof_tcp_header + d.num_files * sizeof_file_info))) [
        | inl fits ↦ rw (fits, handle_list_files) (replied i _)
        | inr none_left ↦ rw (none_left, handle_list_files) unchanged
      ]

  dispatch-Cases :
      (i msg_type data_len : ℕ) (payload : List ℕ)
      → P (dispatch malloc d i msg_type data_len payload)
  unfolding dispatch handle_unregister
  dispatch-Cases i msg_type data_len payload = elim (Bool-cases (msg_type == tcp_register)) [
    | inl a ↦ elim (Bool-cases (data_len == sizeof_tcp_register)) [
      | inl n ↦ rw (a, dispatch, n) (registered i (be16 payload 0))
      | inr n ↦ rw (a, dispatch, n) unchanged
    ]
    | inr a ↦ elim (Bool-cases (msg_type == tcp_share_file)) [
      | inl b ↦ elim (Bool-cases (data_len == sizeof_tcp_share_file)) [
        | inl n ↦ rw (a, dispatch, b, n) (shared i (decode_share_file payload))
        | inr n ↦ rw (a, dispatch, b, n) unchanged
      ]
      | inr b ↦ elim (Bool-cases (msg_type == tcp_list_files)) [
        | inl c ↦ rw (a, dispatch, b, c) (handle_list_files-Cases i)
        | inr c ↦ elim (Bool-cases (msg_type == tcp_request_file)) [
          | inl e ↦ elim (Bool-cases (data_len == sizeof_tcp_request_file)) [
            | inl n ↦ rw (a, dispatch, b, c, e, n) (handle_request_file-Cases i (be32 payload 0))
            | inr n ↦ rw (a, dispatch, b, c, e, n) unchanged
          ]
          | inr e ↦ elim (Bool-cases (msg_type == tcp_unregister)) [
            | inl f ↦ rw (a, dispatch, b, c, e, f) (removed i)
            | inr f ↦ rw (a, dispatch, b, c, e, f) unchanged
          ]
        ]
      ]
    ]
  ]

  pub process_client_message-Cases :
      (i : ℕ) (packet : List ℕ) → P (process_client_message malloc d i packet)
  unfolding process_client_message
  process_client_message-Cases i packet =
      elim (Bool-cases (ltb (length packet) sizeof_tcp_header)) [
        | inl short ↦ rw (short, process_client_message) unchanged
        | inr long ↦ elim (Bool-cases (sizeof_tcp_header + be16 packet 2 == length packet)) [
          | inl fits ↦
              rw (long, process_client_message, fits)
                (dispatch-Cases i (get_or packet 0 0) (be16 packet 2)
                  (drop sizeof_tcp_header packet))
          | inr cut ↦ rw (long, process_client_message, cut) unchanged
        ]
      ]

  client_readable-Cases :
      (fd : ℕ) (packet : Option (List ℕ)) → P (client_readable malloc d fd packet)
  unfolding client_readable
  client_readable-Cases fd packet = elim (Option-cases (find_client_by_fd d fd)) [
    | inl unknown ↦ rw (unknown, client_readable) unchanged
    | inr (i, known) ↦ rw (known, client_readable) (by_packet i packet)
  ]
    where
      by_packet :
          (i : ℕ) (packet : Option (List ℕ))
          → P (elim packet [
            | none ↦ remove_client d i
            | some bytes ↦ elim bytes [
              | [] ↦ remove_client d i
              | b ∷ more ↦ process_client_message malloc d i (b ∷ more)
            ]
          ])
      by_packet i none = removed i
      by_packet i (some []) = removed i
      by_packet i (some (b ∷ more)) = process_client_message-Cases i (b ∷ more)

  pub handle_event-Cases : (e : Event) → P (handle_event malloc d e)
  unfolding handle_event
  handle_event-Cases (connection accepted) = came accepted
  handle_event-Cases (readable fd packet) = client_readable-Cases fd packet
