-- ===== src/Client/Dialogue/Laws/Locate.antt =====
-- The part of `get` of skeleton/client.c that asks the server, against the answers of skeleton/server.c.
use cpe_464_program.Base.{
  ℕ, ◌^◌, ◌<◌, ◌≡◌, sym, ◌∙◌, ap, Bool, true, some, List, ◌++◌, arith, ◌==◌, ==_iff, drop,
  drop-append_eq,
}
use cpe_464_program.Protocol.Tcp.{tcp_message, tcp_file_location, err_none}
use cpe_464_program.Directory.{Directory, find_file, find_client, file_at, client_at}
use cpe_464_program.Directory.Messages.{process_client_message, file_location}
use cpe_464_program.Directory.Lookup.{handle_request_file_located}
use cpe_464_program.Directory.Requests.{last_reply, last_reply-append, request_message_handled}
use cpe_464_program.Client.{World}
use cpe_464_program.Client.Dialogue.{decode_location, request_message, locate, recv_reply}
use cpe_464_program.Client.Dialogue.Laws.{IsReady, Reads, send_exact-Writes, recv_reply-Reads}
use cpe_464_program.Client.Dialogue.Laws.Fields.{
  IsEncodable, location_of, decode_location-file_location, length-file_location,
}

module _ (malloc : ℕ → Bool) (d : Directory) (i : ℕ) (w : World) (rest : List ℕ) where
  -- A client asks the server for a file that is listed, whose owner is registered, and the answer comes
  -- back over a ready connection; the fields of the file and its owner fit the message. Then the first part
  -- of `get` returns the file's id, size, hash and name, and its owner's address and UDP port.
  pub locate_found :
      (k m file_id : ℕ)
      → find_file d file_id ≡ some k
      → find_client d (file_at d k).owner_id ≡ some m
      → (file_at d k).file_id ≡ file_id
      → IsEncodable (file_at d k)
      → (client_at d m).addr.ip < 2 ^ 32
      → (client_at d m).udp_port < 2 ^ 16
      → IsReady 8 306 w.socket
      → w.socket.incoming
        ≡ last_reply (process_client_message malloc d i (request_message file_id)).replies ++ rest
      → ((locate file_id w).0 ≡ some (location_of (file_at d k) (client_at d m)))
        × ((locate file_id w).1.socket.outgoing ≡ w.socket.outgoing ++ request_message file_id)
        × ((locate file_id w).1.socket.incoming ≡ rest)
  unfolding locate
  locate_found k m file_id found owner numbered v ip port ready answered =
      let f = file_at d k in
      let c = client_at d m in
      let small : file_id < 2 ^ 32 = omega (arith, numbered, v.id_fits) in
      let s = send_exact-Writes (request_message file_id) w (ready.sends) in
      let w1 : World = record w { socket = s.socket } in
      let there : w1.socket.incoming
          ≡ tcp_message tcp_file_location err_none 302 (file_location f c ++ rest) =
        s.incoming
        ∙ answered
        ∙ ap (λ after. last_reply after.replies ++ rest)
            (request_message_handled malloc d i file_id small
              ∙ handle_request_file_located d i file_id k m found owner)
        ∙ ap (λ reply. reply ++ rest) (last_reply-append d.replies _) in
      let r : Reads 306 w1 (file_location f c) (recv_reply tcp_file_location 302 w1) =
        recv_reply-Reads tcp_file_location 302 (file_location f c) rest w1 (omega arith)
          (omega arith) (omega arith) (length-file_location f c v) there
          (rw (s.recv_sizes) (ready.receives)) in
      let decoded = decode_location-file_location f c v ip port in
      let matches : (file_id == (decode_location (file_location f c)).file_id) ≡ true =
        (==_iff file_id _).1 (sym numbered ∙ sym (ap (λ l. l.file_id) decoded)) in
      rw (s.returned, locate, r.returned, matches)
        (
          ap some decoded,
          r.outgoing ∙ s.outgoing,
          r.incoming
              ∙ ap (drop 306) there
              ∙ drop-append_eq 302 (file_location f c) rest (sym (length-file_location f c v)),
        )
