-- ===== src/Client/Dialogue/Laws/Share.antt =====
-- `share` of skeleton/client.c against the answers of skeleton/server.c.
use cpe_464_program.Base.{
  ℕ, ◌^◌, ◌≤◌, ◌<◌, ◌≡◌, refl, ◌∙◌, ap, Bool, true, Option, none, some, List, [], ◌++◌, arith, ltb,
  ◌==◌, get_or, length, length-append, take, drop,
}
use cpe_464_program.Protocol.Tcp.{tcp_share_ack, put32, filename_of, tcp_error, err_invalid_msg}
use cpe_464_program.Directory.{Directory, max_files, find_file}
use cpe_464_program.Directory.Invariant.{IsDirectory}
use cpe_464_program.Directory.Messages.{process_client_message, handle_share_file, error_reply}
use cpe_464_program.Directory.Lookup.{find_file-shared}
use cpe_464_program.Directory.Requests.{
  last_reply, last_reply-handle_share_file, last_reply-handle_share_file_full,
  share_message_handled, be32-put32, length-filename_of,
}
use cpe_464_program.Shares.{add_shared_file}
use cpe_464_program.Client.{World, send_exact}
use cpe_464_program.Client.Dialogue.{share, share_message, recv_reply}
use cpe_464_program.Client.Dialogue.Laws.{
  IsReady, Reads, Writes, recv_exact-Reads, send_exact-Writes, recv_reply-Reads,
}

length-share_message :
    (size : ℕ) (hash name : List ℕ) → length hash ≡ 32 → length (share_message size hash name) ≡ 296
length-share_message size hash name long =
    omega (arith, length-append hash (filename_of name), length-filename_of name)

module _ (read_file : List ℕ → Option (List ℕ)) (sha256 : List ℕ → List ℕ)
    (filename contents : List ℕ) (got : read_file filename ≡ some contents)
    (small : length contents < 2 ^ 32) (digest : length (sha256 contents) ≡ 32) (malloc : ℕ → Bool)
    (d : Directory) (i : ℕ) (v : IsDirectory d) (w : World) (ready : IsReady 296 8 w.socket)
    (rest : List ℕ)
    (answered : w.socket.incoming
      ≡ last_reply
          (process_client_message malloc d i
            (share_message (length contents) (sha256 contents) filename)).replies
        ++ rest) where
  abbrev request : List ℕ
  request = share_message (length contents) (sha256 contents) filename

  sending : Writes request w (send_exact request w)
  sending = send_exact-Writes request w (record {
    enough = omega (
      arith,
      ready.sends.enough,
      length-share_message (length contents) (sha256 contents) filename digest,
    );
    all_move = ready.sends.all_move;
  })

  handled :
      process_client_message malloc d i request
      ≡ handle_share_file d i (record {
        file_size = length contents;
        hash = sha256 contents;
        filename = filename_of filename;
      })
  handled =
      share_message_handled malloc d i (length contents) (sha256 contents) filename small digest

  abbrev w1 : World
  w1 = record w { socket = sending.socket }

  reading :
      d.num_files < max_files
      → d.next_file_id < 2 ^ 32
      → Reads 8 w1 (put32 d.next_file_id []) (recv_reply tcp_share_ack 4 w1)
  reading room ids =
      recv_reply-Reads tcp_share_ack 4 (put32 d.next_file_id []) rest w1 (omega arith) (omega arith)
        (omega arith) refl
        (sending.incoming
          ∙ answered
          ∙ ap (λ after. last_reply after.replies ++ rest) handled
          ∙ ap (λ reply. reply ++ rest) (last_reply-handle_share_file d i _ room))
        (rw (sending.recv_sizes) (ready.receives))

  -- A client shares a file that it can read, over a ready connection on which the server's answer to
  -- the request comes back, and the server has room and an id to give. Then `share` returns 0, has
  -- sent the request whole, and has added the file to the client's table with the id under which the server
  -- lists it.
  pub share_accepted :
      d.num_files < max_files
      → d.next_file_id < 2 ^ 32
      → ((share read_file sha256 filename w).0 ≡ some tt)
        × ((share read_file sha256 filename w).1.shares
            ≡ add_shared_file
                (w.shares)
                d.next_file_id
                (length contents)
                (sha256 contents)
                filename)
        × ((share read_file sha256 filename w).1.socket.outgoing ≡ w.socket.outgoing ++ request)
        × (find_file
              (process_client_message malloc d i
                (share_message (length contents) (sha256 contents) filename))
              d.next_file_id
            ≡ some d.num_files)
  unfolding share
  share_accepted room ids =
      let r = reading room ids in
      let fits : ltb (length contents) (2 ^ 32) ≡ true = ground arith in
      rw (got, share, fits, sending.returned, r.returned)
        (
          refl,
          ap (λ id. add_shared_file (w.shares) id (length contents) (sha256 contents) filename)
              (be32-put32 d.next_file_id [] ids),
          r.outgoing ∙ sending.outgoing,
          ap (λ after. find_file after d.next_file_id) handled ∙ find_file-shared d i _ v room,
        )

  -- Where the server's table is full, `share` fails, as it does on every error reply: the client's own
  -- table is not changed, and it has read the header alone.
  pub share_refused :
      max_files ≤ d.num_files
      → ((share read_file sha256 filename w).0 ≡ none)
        × ((share read_file sha256 filename w).1.shares ≡ w.shares)
        × ((share read_file sha256 filename w).1.socket.incoming ≡ rest)
  unfolding share recv_reply
  share_refused full =
      let fits : ltb (length contents) (2 ^ 32) ≡ true = ground arith in
      let there : sending.socket.incoming ≡ error_reply err_invalid_msg ++ rest =
        sending.incoming
        ∙ answered
        ∙ ap (λ after. last_reply after.replies ++ rest) handled
        ∙ ap (λ reply. reply ++ rest) (last_reply-handle_share_file_full d i _ full) in
      let r = recv_exact-Reads 4 w1 (omega (arith, ap (λ s. length s) there)) (record {
        enough = omega (arith, ap (λ l. length l) sending.recv_sizes, ready.receives.enough);
        all_move = rw (sending.recv_sizes) (ready.receives.all_move);
      }) in
      let refused : (get_or (take 4 sending.socket.incoming) 0 0 == tcp_error) ≡ true =
        ap (λ s. get_or (take 4 s) 0 0 == tcp_error) there in
      rw (got, share, fits, sending.returned, recv_reply, r.returned, refused)
        (refl, refl, r.incoming ∙ ap (drop 4) there)
