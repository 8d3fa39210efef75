-- ===== src/Client/Owner/Invariant.antt =====
-- The transfer that the owner of a file runs in the main loop of skeleton/client.c.
use mathlib.Core.Path.{subst}
use cpe_464_program.Base.{
  ℕ, ◌≤◌, ◌≡◌, sym, ap, Option, none, some, List, arith, length, All, All-append, All-map,
}
use native.Mathlib.Decide.{ℕ_discrete}
use cpe_464_program.Protocol.Udp.{UdpHeader, udp_ack}
use cpe_464_program.Transfer.Window.{max_file_size}
use cpe_464_program.Transfer.Sender.{
  Datagram, Tx, sr_sender_send_window, sr_sender_handle_ack, sr_sender_check_timeouts,
}
use cpe_464_program.Transfer.Sender.Invariant.{IsValid, IsSettled}
use cpe_464_program.Transfer.Sender.SendWindow.{sr_sender_send_window-Sends}
use cpe_464_program.Transfer.Sender.Ack.{sr_sender_handle_ack-Acks}
use cpe_464_program.Transfer.Sender.Timeout.{sr_sender_check_timeouts-Scans}
use cpe_464_program.Transfer.Session.Invariant.{
  CarriesChunk, chunk_datagrams-CarriesChunk, chosen_datagrams-CarriesChunk,
}
use cpe_464_program.Client.Owner.{build_start}

-- What the owner hands over: a confirmation, or a chunk of a file.
pub data IsOutput (d : Datagram) : Type 0 where
  confirms : (size : ℕ) → d.bytes ≡ build_start size → IsOutput d
  carries : (file : List ℕ) → length file ≤ max_file_size → CarriesChunk file d → IsOutput d

-- A transfer that is valid and has put out true datagrams only.
pub record IsRunning (tx : Tx) : Type 0 where
  pub valid : IsValid tx.sender
  pub settled : IsSettled tx.sender
  pub outputs : All IsOutput tx.outbox

abbrev pub IsIdleOrRunning : Option Tx → Type 0
IsIdleOrRunning none = Unit
IsIdleOrRunning (some tx) = IsRunning tx

module _ (tx : Tx) (r : IsRunning tx) where
  small_file : length tx.sender.file_data ≤ max_file_size
  small_file = omega (arith, r.valid.small, r.valid.file)

  pub send_window-IsRunning : (now : ℕ) → IsRunning (sr_sender_send_window now tx).0
  send_window-IsRunning now =
      let s = sr_sender_send_window-Sends now tx r.valid r.settled in
      let count = (sr_sender_send_window now tx).1 in
      record {
        valid = s.valid;
        settled = s.settled;
        outputs = rw (s.outbox) (
            All-append IsOutput tx.outbox _ r.outputs (
              All-map (CarriesChunk tx.sender.file_data) IsOutput _
                (λ d c. carries tx.sender.file_data small_file c)
                (chunk_datagrams-CarriesChunk tx.sender.lossy_link tx.sender.peer_addr
                  tx.sender.file_data small_file tx.sender.next_seq count
                  (omega (
                    arith,
                    s.number,
                    s.valid.bounded,
                    s.valid.chunks,
                    s.valid.file,
                    ap (λ f. length f) s.same.file_data,
                  )))));
      }

  pub check_timeouts-IsRunning : (now : ℕ) → IsRunning (sr_sender_check_timeouts now tx).0
  check_timeouts-IsRunning now =
      let (s, settled, due) = sr_sender_check_timeouts-Scans now tx r.valid r.settled in
      record {
        valid = s.valid;
        settled = settled;
        outputs = rw (s.outbox) (
            All-append IsOutput tx.outbox _ r.outputs (
              All-map (CarriesChunk tx.sender.file_data) IsOutput _
                (λ d c. carries tx.sender.file_data small_file c)
                (chosen_datagrams-CarriesChunk tx.sender.lossy_link tx.sender.peer_addr
                  tx.sender.file_data small_file _ tx.sender.base s.looked
                  (omega (
                    arith, s.within, r.valid.sent, r.valid.bounded, r.valid.chunks, r.valid.file,
                  )))));
      }

  pub handle_ack-IsRunning : (hdr : UdpHeader) → IsRunning (sr_sender_handle_ack hdr tx)
  handle_ack-IsRunning hdr =
      let (taken, ignored) = sr_sender_handle_ack-Acks hdr tx r.valid r.settled in
      elim (ℕ_discrete hdr.msg_type udp_ack) [
        | yes kind ↦
            let a = taken kind in
            record {
              valid = a.valid;
              settled = a.settled;
              outputs = subst (λ out. All IsOutput out) (sym a.outbox) r.outputs;
            }
        | no other ↦ subst IsRunning (sym (ignored other)) r
      ]
