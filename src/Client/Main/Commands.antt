-- ===== src/Client/Main/Commands.antt =====
-- The commands of skeleton/client.c keep what every action keeps.
use cpe_464_program.Base.{
  ℕ, ◌≡◌, refl, Bool, true, not, ◌==◌, Option, none, some, List, [], ◌∷◌, length, get_or,
  Bool-cases, inl, inr, Option-cases, ltb, take, ◌^◌, ◌%◌, All-append,
}
use cpe_464_program.Protocol.Udp.{be16, be32}
use cpe_464_program.Protocol.Tcp.{
  tcp_error, tcp_share_ack, tcp_file_list, sizeof_tcp_header, sizeof_file_info,
}
use cpe_464_program.Transfer.Sender.{Datagram}
use cpe_464_program.Transfer.Receiver.{Receiver, sr_receiver_init, sr_receiver_get_file}
use cpe_464_program.Client.{World, recv_exact, send_exact, guard}
use cpe_464_program.Client.Dialogue.{
  Location, recv_reply, read_contents, share, recv_list, list, locate, quit, list_message,
  share_message, unregister_message,
}
use cpe_464_program.Client.Get.{
  Transfer, faulted, failed, complete, receive_loop, same_bytes, lossy_recv, accept_start, save,
  send_datagram, init_transfer, open_transfer, run_transfer, get, peer_of,
}
use cpe_464_program.Client.Get.Keeps.{locate-Keeps}
use cpe_464_program.Client.Command.{
  Command, blank, unknown, usage, invalid_id, share_file, list_files, get_file, quit_client, finish,
  has_memory, run_command, handle_command, parse_command,
}
use cpe_464_program.Client.Main.Outbox.{IsQuiet, receive_loop-IsQuiet}
use cpe_464_program.Client.Main.State.{
  add_shared_file-IsShares, IsFromClient, requests, IsWorld, Preserves, of_Keeps, bind-Preserves,
  recv_reply-Preserves, guard-Preserves, send_exact-Preserves, recv_exact-Preserves,
  lossy_recv-Preserves,
}

module _ (read_file : List ℕ → Option (List ℕ)) (sha256 : List ℕ → List ℕ) where
  share-Preserves : (filename : List ℕ) → Preserves (share read_file sha256 filename)
  unfolding share
  share-Preserves filename =
      bind-Preserves (read_contents read_file sha256 filename) _ (λ w v. v)
        (λ contents.
          bind-Preserves (guard (ltb (length contents) (2 ^ 32))) _ (guard-Preserves _) (λ _.
            bind-Preserves (send_exact (share_message (length contents) (sha256 contents) filename))
              _ (send_exact-Preserves _)
              (λ _.
                bind-Preserves (recv_reply tcp_share_ack 4) _ (recv_reply-Preserves tcp_share_ack 4)
                  (λ body w v. record {
                    shares =
                        add_shared_file-IsShares (w.shares) (be32 body 0) (length contents)
                          (sha256 contents) filename v.shares;
                    sent = v.sent;
                  }))))

module _ (malloc : ℕ → Bool) where
  recv_list-Preserves : (body_len : ℕ) → Preserves (recv_list malloc body_len)
  unfolding recv_list
  recv_list-Preserves body_len w v = elim (Bool-cases (body_len == 0)) [
    | inl nothing ↦ rw (nothing, recv_list) v
    | inr some_files ↦
        rw (some_files, recv_list)
          (bind-Preserves (guard (body_len % sizeof_file_info == 0)) _ (guard-Preserves _)
            (λ _. bind-Preserves (guard (malloc body_len)) _ (guard-Preserves _) (λ _.
              bind-Preserves (recv_exact body_len) _ (recv_exact-Preserves body_len)
                (λ body w v. v)))
            w v)
  ]

  list-Preserves : Preserves (list malloc)
  unfolding list
  list-Preserves =
      bind-Preserves (send_exact list_message) _ (send_exact-Preserves list_message) (λ _.
        bind-Preserves (recv_exact sizeof_tcp_header) _ (recv_exact-Preserves sizeof_tcp_header)
          (λ header.
            bind-Preserves (guard (not (get_or header 0 0 == tcp_error))) _ (guard-Preserves _)
              (λ _.
                bind-Preserves (guard (get_or header 0 0 == tcp_file_list)) _ (guard-Preserves _)
                  (λ _. recv_list-Preserves (be16 header 2)))))

quit-Preserves : (w : World) → IsWorld w → IsWorld (quit w)
unfolding quit
quit-Preserves = send_exact-Preserves unregister_message

module _ (udp_fd : ℕ) (sendto : Datagram → Bool) (malloc : ℕ → Option (List ℕ))
    (sha256 : List ℕ → List ℕ) (writable : List ℕ → Option (ℕ → ℕ)) where
  send_datagram-Preserves :
      (d : Datagram)
      → IsFromClient d
      → Preserves (send_datagram udp_fd sendto malloc sha256 writable d)
  send_datagram-Preserves d ours w v = elim (Bool-cases (sendto d)) [
    | inl sent ↦
        rw (sent, send_datagram)
          (record {
            shares = v.shares;
            sent = All-append IsFromClient w.sent (d ∷ []) v.sent (ours, tt);
          })
    | inr lost ↦ rw (lost, send_datagram) v
  ]

  init_transfer-Preserves :
      (loc : Location) (start : Option (ℕ × ℕ))
      → Preserves (init_transfer udp_fd sendto malloc sha256 writable loc start)
  init_transfer-Preserves loc none w v = v
  init_transfer-Preserves loc (some (size, chunks)) w v =
      elim (Option-cases
        (sr_receiver_init malloc true udp_fd (some (peer_of loc)) size chunks true)) [
          | inl no_memory ↦ rw (no_memory, init_transfer) v
          | inr (r, made) ↦ rw (made, init_transfer) v
        ]

  open_transfer-Preserves :
      (file_id : ℕ) → Preserves (open_transfer udp_fd sendto malloc sha256 writable file_id)
  unfolding open_transfer
  open_transfer-Preserves file_id =
      bind-Preserves (locate file_id) _ (of_Keeps (locate file_id) (locate-Keeps file_id)) (λ loc.
        bind-Preserves (send_datagram udp_fd sendto malloc sha256 writable _) _
          (send_datagram-Preserves _ (requests file_id loc.hash refl))
          (λ _. bind-Preserves lossy_recv _ lossy_recv-Preserves (λ a.
            bind-Preserves (λ w. (accept_start (peer_of loc) a, w)) _ (λ w v. v)
              (init_transfer-Preserves loc))))

  save-Preserves : (loc : Location) (r : Receiver) → Preserves (save sha256 writable loc r)
  unfolding save
  save-Preserves loc r w v =
      let contents = take (sr_receiver_get_file r).1 (sr_receiver_get_file r).0 in
      elim (Bool-cases (same_bytes (sha256 contents) loc.hash)) [
        | inr differs ↦ rw (differs, save) v
        | inl same ↦ elim (Option-cases (writable loc.filename)) [
          | inl shut ↦ rw (same, save, shut) v
          | inr (fwrite, can_write) ↦
              rw (same, save, can_write) (record { shares = v.shares; sent = v.sent })
        ]
      ]

  -- What an action with a copy outside an array comes to.
  abbrev IsWorldAfter {ℓ} : {A : Type ℓ} → Option (A × World) → Type 0
  IsWorldAfter none = Unit
  IsWorldAfter (some out) = IsWorld out.1

  after_loop-IsWorld :
      (loc : Location) (t : Transfer) (w : World) (r : Receiver)
      → receive_loop (peer_of loc) w.arrivals (record { receiver = r; outbox = [] }) ≡ t
      → IsQuiet t
      → IsWorld w
      → IsWorldAfter (run_transfer udp_fd sendto malloc sha256 writable (some (some (loc, r)), w))
  after_loop-IsWorld loc faulted w r ran quiet v = rw (ran, run_transfer) tt
  after_loop-IsWorld loc (failed rx rest) w r ran quiet v =
      rw (ran, run_transfer)
        (record { shares = v.shares; sent = All-append IsFromClient w.sent rx.outbox v.sent quiet })
  after_loop-IsWorld loc (complete rx rest) w r ran quiet v =
      rw (ran, run_transfer)
        (save-Preserves loc rx.receiver _ (record {
          shares = v.shares;
          sent = All-append IsFromClient w.sent rx.outbox v.sent quiet;
        }))

  run_transfer-IsWorld :
      (out : Option (Option (Location × Receiver)) × World)
      → IsWorld out.1
      → IsWorldAfter (run_transfer udp_fd sendto malloc sha256 writable out)
  run_transfer-IsWorld (none, w) v = v
  run_transfer-IsWorld (some none, w) v = v
  run_transfer-IsWorld (some (some (loc, r)), w) v =
      after_loop-IsWorld loc _ w r refl
        (receive_loop-IsQuiet (peer_of loc) w.arrivals (record { receiver = r; outbox = [] }) tt) v

  get-IsWorld :
      (file_id : ℕ) (w : World)
      → IsWorld w
      → IsWorldAfter (get udp_fd sendto malloc sha256 writable file_id w)
  unfolding get
  get-IsWorld file_id w v =
      run_transfer-IsWorld (open_transfer udp_fd sendto malloc sha256 writable file_id w)
        (open_transfer-Preserves file_id w v)

module _ (udp_fd : ℕ) (sendto : Datagram → Bool) (malloc : ℕ → Option (List ℕ))
    (sha256 : List ℕ → List ℕ) (writable : List ℕ → Option (ℕ → ℕ))
    (read_file : List ℕ → Option (List ℕ)) where
  finish-IsWorld {ℓ} :
      {A : Type ℓ} (out : Option A × World)
      → IsWorld out.1
      → IsWorld (finish udp_fd sendto malloc sha256 writable read_file out).1
  finish-IsWorld (some a, w) v = v
  finish-IsWorld (none, w) v = quit-Preserves w v

  -- What a command comes to: a copy outside an array comes from `get` only.
  abbrev pub IsCommandAfter : Command → Option (Bool × World) → Type 0
  IsCommandAfter c none = (file_id : ℕ) × (c ≡ get_file file_id)
  IsCommandAfter c (some out) = IsWorld out.1

  after_get :
      (file_id : ℕ) (out : Option (Option (Unit {0}) × World))
      → IsWorldAfter udp_fd sendto malloc sha256 writable out
      → IsCommandAfter (get_file file_id) (elim out [
        | none ↦ none
        | some out' ↦ some (finish udp_fd sendto malloc sha256 writable read_file out')
      ])
  after_get file_id none v = (file_id, refl)
  after_get file_id (some out) v = finish-IsWorld out v

  run_command-IsWorld :
      (c : Command) (w : World)
      → IsWorld w
      → IsCommandAfter c (run_command udp_fd sendto malloc sha256 writable read_file c w)
  run_command-IsWorld blank w v = v
  run_command-IsWorld unknown w v = v
  run_command-IsWorld usage w v = v
  run_command-IsWorld invalid_id w v = v
  run_command-IsWorld (share_file name) w v =
      finish-IsWorld (share read_file sha256 name w) (share-Preserves read_file sha256 name w v)
  run_command-IsWorld list_files w v =
      finish-IsWorld _
        (list-Preserves (has_memory udp_fd sendto malloc sha256 writable read_file) w v)
  run_command-IsWorld (get_file file_id) w v =
      after_get file_id _ (get-IsWorld udp_fd sendto malloc sha256 writable file_id w v)
  run_command-IsWorld quit_client w v = quit-Preserves w v

  pub handle_command-IsWorld :
      (line : List ℕ) (w : World)
      → IsWorld w
      → IsCommandAfter
          (parse_command line)
          (handle_command udp_fd sendto malloc sha256 writable read_file line w)
  unfolding handle_command
  handle_command-IsWorld line w v = run_command-IsWorld (parse_command line) w v
