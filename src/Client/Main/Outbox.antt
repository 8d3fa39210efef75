-- ===== src/Client/Main/Outbox.antt =====
-- What the loop of `get` in skeleton/client.c puts out, whatever it receives.
use cpe_464_program.Base.{
  ℕ, ◌+◌, refl, Option, none, some, List, [], ◌∷◌, leb, ltb, take, drop, u32, All, All-append,
  Bool-cases, inl, inr, Option-cases,
}
use mathlib.Core.Path.{subst}
use cpe_464_program.Protocol.Udp.{decode, window_size, sizeof_udp_header, chunk_size}
use cpe_464_program.Transfer.Sender.{Addr}
use cpe_464_program.Transfer.Receiver.{
  Rx, is_intact, buffer_packet, deliver_loop, sr_receiver_send_ack, accept_packet,
  sr_receiver_handle_data, sr_receiver_is_complete,
}
use cpe_464_program.Client.{Arrival}
use cpe_464_program.Client.Get.{Transfer, faulted, failed, complete, same_addr, receive_loop}
use cpe_464_program.Client.Main.State.{IsFromClient, acknowledges}

-- A receiver's step keeps that it has put out acknowledgements only.
abbrev Quiet : Option Rx → Type 0
Quiet none = Unit
Quiet (some rx) = All IsFromClient rx.outbox

send_ack-Quiet :
    (rx : Rx) (seq_num : ℕ)
    → All IsFromClient rx.outbox
    → All IsFromClient (sr_receiver_send_ack rx seq_num).outbox
unfolding sr_receiver_send_ack
send_ack-Quiet rx seq_num q = All-append IsFromClient rx.outbox _ q (acknowledges seq_num refl, tt)

accept_packet-Quiet :
    (rx : Rx) (seq_num data_len : ℕ) (payload : List ℕ)
    → All IsFromClient rx.outbox
    → Quiet (accept_packet rx seq_num data_len payload)
unfolding accept_packet
accept_packet-Quiet rx seq_num data_len payload q =
    elim (Option-cases (buffer_packet rx.receiver seq_num data_len payload)) [
      | inl outside ↦ rw (outside, accept_packet) tt
      | inr (r, buffered) ↦
          let acked = sr_receiver_send_ack (record rx { receiver = r }) seq_num in
          elim (Option-cases (deliver_loop (window_size + 1) acked.receiver)) [
            | inl beyond ↦ rw (buffered, accept_packet, beyond) tt
            | inr (r', delivered) ↦
                rw (buffered, accept_packet, delivered)
                  (send_ack-Quiet (record rx { receiver = r }) seq_num q)
          ]
    ]

handle_data-Quiet :
    (rx : Rx) (packet : List ℕ)
    → All IsFromClient rx.outbox
    → Quiet (sr_receiver_handle_data rx packet)
unfolding sr_receiver_handle_data
handle_data-Quiet rx packet q =
    let hdr = decode packet in
    let r = rx.receiver in
    elim (Bool-cases (is_intact packet)) [
      | inr broken ↦ rw (broken, sr_receiver_handle_data) q
      | inl intact ↦ elim (Bool-cases (leb r.num_chunks hdr.seq_num)) [
        | inl beyond ↦ rw (intact, sr_receiver_handle_data, beyond) q
        | inr inside ↦ elim (Bool-cases (ltb hdr.seq_num r.base)) [
          | inl old ↦
              rw (intact, sr_receiver_handle_data, inside, old) (send_ack-Quiet rx hdr.seq_num q)
          | inr new ↦ elim (Bool-cases (leb (u32 (r.base + window_size)) hdr.seq_num)) [
            | inl far ↦ rw (intact, sr_receiver_handle_data, inside, new, far) q
            | inr near ↦
                rw (intact, sr_receiver_handle_data, inside, new, near)
                  (accept_packet-Quiet rx hdr.seq_num hdr.data_len (drop sizeof_udp_header packet)
                    q)
          ]
        ]
      ]
    ]

abbrev pub IsQuiet : Transfer → Type 0
IsQuiet faulted = Unit
IsQuiet (failed rx rest) = All IsFromClient rx.outbox
IsQuiet (complete rx rest) = All IsFromClient rx.outbox

pub receive_loop-IsQuiet :
    (peer : Addr) (arrivals : List (Option Arrival)) (rx : Rx)
    → All IsFromClient rx.outbox
    → IsQuiet (receive_loop peer arrivals rx)
unfolding receive_loop
receive_loop-IsQuiet peer [] rx q = elim (Bool-cases (sr_receiver_is_complete rx.receiver)) [
  | inl done ↦ rw (done, receive_loop) q
  | inr more ↦ rw (more, receive_loop) q
]
receive_loop-IsQuiet peer (none ∷ rest) rx q =
    elim (Bool-cases (sr_receiver_is_complete rx.receiver)) [
      | inl done ↦ rw (done, receive_loop) q
      | inr more ↦ rw (more, receive_loop) q
    ]
receive_loop-IsQuiet peer (some a ∷ rest) rx q =
    elim (Bool-cases (sr_receiver_is_complete rx.receiver)) [
      | inl done ↦ rw (done, receive_loop) q
      | inr more ↦ elim (Bool-cases (same_addr a.source peer)) [
        | inr stranger ↦ rw (more, receive_loop, stranger) (receive_loop-IsQuiet peer rest rx q)
        | inl from_peer ↦
            let packet = take (sizeof_udp_header + chunk_size) a.bytes in
            elim (Option-cases (sr_receiver_handle_data rx packet)) [
              | inl outside ↦ rw (more, receive_loop, from_peer, outside) tt
              | inr (rx', handled) ↦
                  rw (more, receive_loop, from_peer, handled)
                    (receive_loop-IsQuiet peer rest rx'
                      (subst Quiet handled (handle_data-Quiet rx packet q)))
            ]
      ]
    ]
