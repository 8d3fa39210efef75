-- ===== src/Transfer/Tests.antt =====
-- A transfer of three bytes, run step by step.
use mathlib.Core.Path.{subst}
use mathlib.Core.List.{Memᴰ}
use mathlib.Core.Option.{some-injective}
use cpe_464_program.Base.{
  ℕ, sub64, ◌-◌, ◌≤◌, ◌<◌, ◌≡◌, ◌↔◌, refl, sym, ◌∙◌, Bool, true, false, Option, none, some, List,
  [], ◌∷◌, arith, length, get_or, set, replicate,
}
use cpe_464_program.Protocol.Udp.{decode}
use cpe_464_program.Protocol.Checksum.Laws.{IsBytes}
use cpe_464_program.Protocol.Checksum.{calculate_checksum, sum_bytes, fold_carries}
use cpe_464_program.Transfer.Window.{max_file_size}
use cpe_464_program.Transfer.Packet.{build_data_packet, build_ack_packet, checksum_matches}
use cpe_464_program.Transfer.Packet.Laws.{
  IsDataPacket, build_data_packet-IsDataPacket, build_ack_packet-IsAckPacket, checksum_matches-set,
}
use cpe_464_program.Transfer.Sender.{
  Addr, Datagram, Sender, Stats, init_sender, sr_sender_send_window, send_loop, can_send, send_one,
  chunk_len, blank_entry, sr_sender_handle_ack, ignores_ack, mark_acked, slide_loop, can_slide,
  slide_one, timed_out, timeout_loop, is_pending, slot, sr_sender_check_timeouts, sr_sender_init,
  sr_sender_is_complete,
}
use cpe_464_program.Transfer.Sender.Invariant.{init_sender-IsValid, IsValid, IsSettled}
use cpe_464_program.Transfer.Sender.SendWindow.{Sends, sr_sender_send_window-Sends}
use cpe_464_program.Transfer.Sender.Mark.{done}
use cpe_464_program.Transfer.Sender.Ack.{Acks, sr_sender_handle_ack_acknowledges}
use cpe_464_program.Transfer.Sender.Scan.{Scans}
use cpe_464_program.Transfer.Sender.Timeout.{sr_sender_check_timeouts-Scans}
use cpe_464_program.Transfer.Sender.Complete.{sr_sender_is_complete_iff}
use cpe_464_program.Transfer.Receiver.Invariant.{IsReceiving, sr_receiver_init-IsReceiving}
use cpe_464_program.Transfer.Receiver.Invariant as Receiving
use cpe_464_program.Transfer.Receiver.Handle.{Takes, sr_receiver_handle_data_accepts}
use cpe_464_program.Transfer.Receiver.{
  Receiver, Rx, init_receiver, sr_receiver_init, sr_receiver_handle_data, is_intact, accept_packet,
  buffer_packet, deliver_loop, deliver_one, can_deliver, sr_receiver_send_ack,
  sr_receiver_is_complete, sr_receiver_get_file,
}
use cpe_464_program.Transfer.Session.{
  Session, after_round, active, opens, data_arrives, ack_arrives, damage_arrives, Reach, here, next,
}
use cpe_464_program.Transfer.Session.Correct.{
  start, sender_complete-file_received, receiver_complete-file_received, sent_datagram-handled,
}

abbrev file : List ℕ
file = 7 ∷ 8 ∷ 9 ∷ []

abbrev peer : Addr
peer = record { ip = 16777343; port = 8080 }

abbrev new_sender : Sender
new_sender = init_sender 3 peer file 3

abbrev memory : List ℕ
memory = 0 ∷ 0 ∷ 0 ∷ []

abbrev malloc : ℕ → Option (List ℕ)
malloc n = some (replicate n 0)

abbrev new_receiver : Receiver
new_receiver = init_receiver 4 peer 3 1 memory

abbrev no_stats : Stats
no_stats = record { packets_sent = 0; packets_retransmitted = 0; acks_received = 0 }

abbrev w0 : Session
w0 = start new_sender no_stats new_receiver

-- The first window, before the round's end.
abbrev opened : Session
opened = record w0 { tx = (sr_sender_send_window 5 (w0.tx)).0; status = active; clock = 5 }

abbrev w1 : Session
w1 = after_round 5 6 opened

abbrev no_datagram : Datagram
no_datagram = record { via_link = false; dest = peer; bytes = [] }

abbrev sent : Datagram
sent = get_or w1.tx.outbox 0 no_datagram

abbrev rx_or : Option Rx → Rx
rx_or none = w0.rx
rx_or (some rx) = rx

abbrev w2 : Session
w2 = record w1 { rx = rx_or (sr_receiver_handle_data (w1.rx) sent.bytes) }

abbrev acknowledged : Datagram
acknowledged = get_or w2.rx.outbox 0 no_datagram

abbrev w3 : Session
w3 = after_round 7 8 (record w2 { tx = sr_sender_handle_ack (decode acknowledged.bytes) (w2.tx) })

handled : sr_receiver_handle_data (w1.rx) sent.bytes ≡ some (w2.rx)
unfolding sr_sender_send_window sr_sender_check_timeouts timeout_loop timed_out send_loop can_send
    send_one chunk_len build_data_packet checksum_matches sr_receiver_handle_data is_intact
    accept_packet buffer_packet deliver_loop deliver_one can_deliver sr_receiver_send_ack
    calculate_checksum sum_bytes fold_carries blank_entry
    cpe_464_program.Transfer.Receiver.blank_entry
handled = refl

sent_out : Memᴰ sent w1.tx.outbox
unfolding sr_sender_send_window sr_sender_check_timeouts timeout_loop timed_out send_loop can_send
    send_one chunk_len build_data_packet calculate_checksum sum_bytes fold_carries blank_entry
sent_out = Memᴰ.head refl

acknowledged_out : Memᴰ acknowledged w2.rx.outbox
unfolding sr_sender_send_window sr_sender_check_timeouts timeout_loop timed_out send_loop can_send
    send_one chunk_len build_data_packet checksum_matches sr_receiver_handle_data is_intact
    accept_packet buffer_packet deliver_loop deliver_one can_deliver sr_receiver_send_ack
    calculate_checksum sum_bytes fold_carries blank_entry
    cpe_464_program.Transfer.Receiver.blank_entry build_ack_packet sr_sender_handle_ack ignores_ack
    mark_acked slide_loop can_slide slide_one
acknowledged_out = Memᴰ.head refl

going : w2.status ≡ active
unfolding sr_sender_send_window send_loop can_send send_one sr_sender_check_timeouts timeout_loop
    timed_out sr_sender_is_complete chunk_len blank_entry
going = refl

abbrev made : (damaged : Bool) → Reach damaged w0 w1
made damaged = next here (opens w0 5 5 6 refl)

abbrev received : (damaged : Bool) → Reach damaged w0 w2
received damaged = next (made damaged) (data_arrives w1 sent (w2.rx) sent_out handled)

acked : Reach false w0 w3
acked = next (received false) (ack_arrives w2 acknowledged 7 8 going acknowledged_out)

-- Two bytes that are no acknowledgement reach the sender after it.
abbrev w4 : Session
w4 = after_round 7 8 (record w2 { tx = sr_sender_handle_ack (decode (9 ∷ 9 ∷ [])) (w2.tx) })

disturbed : Reach true w0 w4
disturbed = next (received true) (damage_arrives w2 (9 ∷ 9 ∷ []) 7 8 going refl)

sender_complete : sr_sender_is_complete w3.tx.sender ≡ true
unfolding sr_sender_send_window sr_sender_check_timeouts timeout_loop timed_out send_loop can_send
    send_one chunk_len build_data_packet checksum_matches sr_receiver_handle_data is_intact
    accept_packet buffer_packet deliver_loop deliver_one can_deliver sr_receiver_send_ack
    calculate_checksum sum_bytes fold_carries blank_entry
    cpe_464_program.Transfer.Receiver.blank_entry build_ack_packet sr_sender_handle_ack ignores_ack
    mark_acked slide_loop can_slide slide_one sr_sender_is_complete
sender_complete = refl

receiver_complete : sr_receiver_is_complete w2.rx.receiver ≡ true
unfolding sr_sender_send_window sr_sender_check_timeouts timeout_loop timed_out send_loop can_send
    send_one chunk_len build_data_packet checksum_matches sr_receiver_handle_data is_intact
    accept_packet buffer_packet deliver_loop deliver_one can_deliver sr_receiver_send_ack
    calculate_checksum sum_bytes fold_carries blank_entry
    cpe_464_program.Transfer.Receiver.blank_entry sr_receiver_is_complete
receiver_complete = refl

s_made : sr_sender_init true 3 (some peer) (some file) 3 true ≡ some new_sender
unfolding sr_sender_init
s_made = refl

r_made : sr_receiver_init malloc true 4 (some peer) 3 1 true ≡ some new_receiver
unfolding sr_receiver_init
r_made = refl

small : length file ≤ max_file_size
small = omega arith

sender_complete-file_received_example :
    (sr_receiver_is_complete w3.rx.receiver ≡ true)
    × (sr_receiver_get_file w3.rx.receiver ≡ (file, 3))
sender_complete-file_received_example =
    sender_complete-file_received malloc file memory small refl refl 3 4 peer peer no_stats
      new_sender new_receiver s_made r_made w3 acked sender_complete

receiver_complete-file_received_example : sr_receiver_get_file w4.rx.receiver ≡ (file, 3)
receiver_complete-file_received_example =
    receiver_complete-file_received malloc file memory small refl refl 3 4 peer peer no_stats
      new_sender new_receiver s_made r_made true w4 disturbed receiver_complete

sent_datagram-handled_example : (rx : Rx) × (sr_receiver_handle_data (w1.rx) sent.bytes ≡ some rx)
sent_datagram-handled_example =
    sent_datagram-handled malloc file memory small refl refl 3 4 peer peer no_stats new_sender
      new_receiver s_made r_made true w1 (made true) sent sent_out

new_sender-IsValid : IsValid new_sender
new_sender-IsValid = init_sender-IsValid 3 peer file small

new_sender-IsSettled : IsSettled new_sender
new_sender-IsSettled more = absurd (omega arith)

sr_sender_send_window-Sends_example :
    Sends (w0.tx) (sr_sender_send_window 5 (w0.tx)).0 (sr_sender_send_window 5 (w0.tx)).1
sr_sender_send_window-Sends_example =
    sr_sender_send_window-Sends 5 (w0.tx) new_sender-IsValid new_sender-IsSettled

sending : Sends (w0.tx) (opened.tx) (sr_sender_send_window 5 (w0.tx)).1
sending = sr_sender_send_window-Sends 5 (w0.tx) new_sender-IsValid new_sender-IsSettled

sr_sender_handle_ack_acknowledges_example :
    Acks
      (decode (build_ack_packet 0)).ack_num
      (opened.tx)
      (sr_sender_handle_ack (decode (build_ack_packet 0)) (opened.tx))
sr_sender_handle_ack_acknowledges_example =
    sr_sender_handle_ack_acknowledges (decode (build_ack_packet 0)) (opened.tx) sending.valid
      sending.settled (build_ack_packet-IsAckPacket 0 (omega arith)).kind

sr_sender_check_timeouts-Scans_example :
    Scans 600 opened.tx.sender.base
      (opened.tx.sender.next_seq - opened.tx.sender.base)
      (opened.tx)
      (sr_sender_check_timeouts 600 (opened.tx)).0
      0
      (sr_sender_check_timeouts 600 (opened.tx)).1
    × IsSettled (sr_sender_check_timeouts 600 (opened.tx)).0.sender
    × ((seq : ℕ)
        → opened.tx.sender.base ≤ seq
        → seq < opened.tx.sender.next_seq
        → (timed_out 600 opened.tx.sender seq ≡ true) ↔ (
            (is_pending (slot opened.tx.sender.window seq).state ≡ true)
            × (500 ≤ sub64 600 (slot opened.tx.sender.window seq).send_time_ms)))
sr_sender_check_timeouts-Scans_example =
    sr_sender_check_timeouts-Scans 600 (opened.tx) sending.valid sending.settled

sr_sender_is_complete_iff_example : (sr_sender_is_complete opened.tx.sender ≡ true) ↔ (
    (seq : ℕ)
    → seq < opened.tx.sender.num_chunks
    → (seq < opened.tx.sender.next_seq) × (done opened.tx.sender seq ≡ true))
sr_sender_is_complete_iff_example =
    sr_sender_is_complete_iff opened.tx.sender sending.valid sending.settled

abbrev first_packet : List ℕ
first_packet = build_data_packet 0 file 3

first_packet-IsDataPacket : IsDataPacket 0 file first_packet
first_packet-IsDataPacket =
    build_data_packet-IsDataPacket 0 file 3 (omega arith) (omega arith) (omega arith)

build_data_packet-IsDataPacket_example : IsDataPacket 5 (7 ∷ 8 ∷ []) (build_data_packet 5 file 2)
build_data_packet-IsDataPacket_example =
    build_data_packet-IsDataPacket 5 file 2 (omega arith) (omega arith) (omega arith)

receiving :
    (r : Receiver) × (sr_receiver_init malloc true 4 (some peer) 3 1 true ≡ some r)
    × IsReceiving file r
    × Receiving.IsSettled r
    × (r.base ≡ 0)
receiving = sr_receiver_init-IsReceiving malloc 4 peer file memory small refl refl

new_receiver-IsReceiving : IsReceiving file new_receiver × Receiving.IsSettled new_receiver
new_receiver-IsReceiving =
    let (r, made, is_receiving, settled, base) = receiving in
    subst (λ r. IsReceiving file r × Receiving.IsSettled r) (some-injective _ _ (sym made ∙ r_made))
      (is_receiving, settled)

sr_receiver_handle_data_accepts_example :
    (out : Rx) × (sr_receiver_handle_data (w0.rx) first_packet ≡ some out)
    × Takes file 0 (w0.rx) out
sr_receiver_handle_data_accepts_example =
    sr_receiver_handle_data_accepts file (w0.rx) 0 first_packet new_receiver-IsReceiving.0
      new_receiver-IsReceiving.1 (omega arith) first_packet-IsDataPacket (omega arith)

first_packet-IsBytes : IsBytes first_packet
unfolding sr_sender_send_window send_loop can_send send_one chunk_len build_data_packet
    calculate_checksum sum_bytes fold_carries blank_entry
first_packet-IsBytes = omega arith

first_packet_matches : checksum_matches first_packet ≡ true
first_packet_matches = first_packet-IsDataPacket.matches

checksum_matches-set_example : checksum_matches (set first_packet 16 200) ≡ false
unfolding sr_sender_send_window send_loop can_send send_one chunk_len build_data_packet
    calculate_checksum sum_bytes fold_carries blank_entry
checksum_matches-set_example =
    checksum_matches-set first_packet first_packet-IsBytes (omega arith) 200 (omega arith) 16
      (omega arith) (omega arith) first_packet_matches
