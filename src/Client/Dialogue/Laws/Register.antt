-- ===== src/Client/Dialogue/Laws/Register.antt =====
-- The registration in `main` of skeleton/client.c against the answer of skeleton/server.c.
use mathlib.Core.Path.{subst}
use cpe_464_program.Base.{
  ℕ, ◌^◌, ◌<◌, ◌≡◌, refl, sym, ◌∙◌, ap, Bool, true, some, List, [], ◌++◌, arith, length,
  get_or-set_self, drop,
}
use cpe_464_program.Protocol.Tcp.{tcp_message, tcp_register_ack, err_none, put32}
use cpe_464_program.Directory.{Client, Directory, client_at, blank_client}
use cpe_464_program.Directory.Messages.{process_client_message, handle_register}
use cpe_464_program.Directory.Requests.{
  last_reply, last_reply-append, register_message_handled, be32-put32,
}
use cpe_464_program.Client.{World}
use cpe_464_program.Client.Dialogue.{register_message, register, recv_reply}
use cpe_464_program.Client.Dialogue.Laws.{IsReady, Reads, send_exact-Writes, recv_reply-Reads}

-- A client in the slot `i` of the server, with the id and the port.
pub record IsRegistered (d : Directory) (i client_id udp_port : ℕ) : Type 0 where
  pub active : (client_at d i).active ≡ true
  pub id : (client_at d i).client_id ≡ client_id
  pub port : (client_at d i).udp_port ≡ udp_port

module _ (malloc : ℕ → Bool) (d : Directory) (i : ℕ) (w : World) (rest : List ℕ) where
  abbrev entry : ℕ → Client
  entry udp_port = record (client_at d i) {
    udp_port = udp_port;
    client_id = d.next_client_id;
    active = true;
  }

  handle_register-IsRegistered :
      (udp_port : ℕ)
      → i < length d.clients
      → IsRegistered (handle_register d i udp_port) i d.next_client_id udp_port
  unfolding handle_register
  handle_register-IsRegistered udp_port slot =
      let there = get_or-set_self d.clients i (entry udp_port) blank_client slot in
      record {
        active = ap (λ c. c.active) there;
        id = ap (λ c. c.client_id) there;
        port = ap (λ c. c.udp_port) there;
      }

  last_reply-handle_register :
      (udp_port : ℕ)
      → last_reply (handle_register d i udp_port).replies
        ≡ tcp_message tcp_register_ack err_none 4 (put32 d.next_client_id [])
  unfolding handle_register
  last_reply-handle_register udp_port = last_reply-append d.replies _

  -- A client registers over a ready connection on which the server's answer comes back, and the server has an id to
  -- give: the registration returns this id, has sent the request whole, and has read the answer and no more; the
  -- server has the client in its slot with the id and the port.
  pub register_agrees :
      (udp_port : ℕ)
      → i < length d.clients
      → udp_port < 2 ^ 16
      → d.next_client_id < 2 ^ 32
      → IsReady 6 8 w.socket
      → w.socket.incoming
        ≡ last_reply (process_client_message malloc d i (register_message udp_port)).replies ++ rest
      → ((register udp_port w).0 ≡ some d.next_client_id)
        × ((register udp_port w).1.socket.outgoing ≡ w.socket.outgoing ++ register_message udp_port)
        × ((register udp_port w).1.socket.incoming ≡ rest)
        × IsRegistered
            (process_client_message malloc d i (register_message udp_port))
            i
            d.next_client_id
            udp_port
  unfolding register
  register_agrees udp_port slot small ids ready answered =
      let handled = register_message_handled malloc d i udp_port small in
      let s = send_exact-Writes (register_message udp_port) w (ready.sends) in
      let w1 : World = record w { socket = s.socket } in
      let body = put32 d.next_client_id [] in
      let there : w1.socket.incoming ≡ tcp_message tcp_register_ack err_none 4 (body ++ rest) =
        s.incoming
        ∙ answered
        ∙ ap (λ after. last_reply after.replies ++ rest) handled
        ∙ ap (λ reply. reply ++ rest) (last_reply-handle_register udp_port) in
      let r : Reads 8 w1 body (recv_reply tcp_register_ack 4 w1) =
        recv_reply-Reads tcp_register_ack 4 body rest w1 (omega arith) (omega arith) (omega arith)
          refl there (rw (s.recv_sizes) (ready.receives)) in
      rw (s.returned, register, r.returned)
        (
          ap some (be32-put32 d.next_client_id [] ids),
          r.outgoing ∙ s.outgoing,
          r.incoming ∙ ap (drop 8) there,
          subst (λ after. IsRegistered after i d.next_client_id udp_port) (sym handled)
              (handle_register-IsRegistered udp_port slot),
        )
