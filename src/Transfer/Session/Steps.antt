-- ===== src/Transfer/Session/Steps.antt =====
-- The steps of a session of skeleton/selective_repeat.c against its invariant.
use mathlib.Core.Path.{subst}
use mathlib.Core.List.{Memᴰ}
use native.Mathlib.Decide.{dec_lt, ℕ_discrete}
use cpe_464_program.Base.{
  ℕ, ◌+◌, ◌-◌, ◌≤◌, ◌<◌, ◌≡◌, ◌≢◌, sym, ◌∙◌, ap, Bool, true, false, some, true-ne-false, List,
  arith, length, All, All-append, All-map, All-member,
}
use cpe_464_program.Protocol.Udp.{decode, window_size, udp_ack}
use cpe_464_program.Transfer.Packet.Laws.{build_ack_packet-IsAckPacket}
use cpe_464_program.Transfer.Window.{chunks_of}
use cpe_464_program.Transfer.Sender.{
  Datagram, is_acked, timed_out, sr_sender_send_window, sr_sender_handle_ack,
  sr_sender_check_timeouts,
}
use cpe_464_program.Transfer.Sender.SendWindow.{
  Sends, datagrams, chunk_datagrams, sr_sender_send_window-Sends,
}
use cpe_464_program.Transfer.Sender.Mark.{done}
use cpe_464_program.Transfer.Sender.Ack.{Acks, sr_sender_handle_ack-Acks}
use cpe_464_program.Transfer.Sender.Scan.{Scans, due_datagrams, chosen_datagrams}
use cpe_464_program.Transfer.Sender.Timeout.{sr_sender_check_timeouts-Scans}
use cpe_464_program.Transfer.Receiver.{Rx, sr_receiver_handle_data}
use cpe_464_program.Transfer.Receiver.Invariant.{has}
use cpe_464_program.Transfer.Receiver.Handle.{Takes, sr_receiver_handle_data-Takes}
use cpe_464_program.Transfer.Session.{Session, Status}
use cpe_464_program.Transfer.Session.Invariant.{
  IsGood, CarriesChunk, CarriesAck, chunk_datagrams-CarriesChunk, chosen_datagrams-CarriesChunk,
}

module _ {damaged : Bool} {file : List ℕ} {w : Session} (g : IsGood damaged file w) where
  pub send-IsGood :
      (now : ℕ) → IsGood damaged file (record w { tx = (sr_sender_send_window now (w.tx)).0 })
  send-IsGood now = record {
    sending = s.valid;
    sender_settled = s.settled;
    same_file = s.same.file_data ∙ g.same_file;
    receiving = g.receiving;
    receiver_settled = g.receiver_settled;
    chunks_out = rw (s.outbox) (All-append (CarriesChunk file) w.tx.outbox _ g.chunks_out outgoing);
    acks_out = g.acks_out;
    agreed = agreed;
  }
    where
      s : Sends (w.tx) (sr_sender_send_window now (w.tx)).0 (sr_sender_send_window now (w.tx)).1
      s = sr_sender_send_window-Sends now (w.tx) g.sending g.sender_settled

      in_file :
          w.tx.sender.next_seq + (sr_sender_send_window now (w.tx)).1 ≤ chunks_of (length file)
      in_file = omega (
        arith,
        s.number,
        s.valid.bounded,
        s.valid.chunks,
        s.valid.file,
        ap (λ f. length f) (s.same.file_data ∙ g.same_file),
      )

      outgoing :
          All
            (CarriesChunk file)
            (datagrams w.tx.sender w.tx.sender.next_seq (sr_sender_send_window now (w.tx)).1)
      outgoing =
          subst
            (λ f. All (CarriesChunk file) (
              chunk_datagrams w.tx.sender.lossy_link w.tx.sender.peer_addr f w.tx.sender.next_seq
                (sr_sender_send_window now (w.tx)).1))
            (sym g.same_file)
            (chunk_datagrams-CarriesChunk w.tx.sender.lossy_link w.tx.sender.peer_addr file
              g.receiving.small w.tx.sender.next_seq (sr_sender_send_window now (w.tx)).1 in_file)

      agreed :
          damaged ≡ false
          → (seq : ℕ) → seq < (sr_sender_send_window now (w.tx)).0.sender.next_seq
          → done (sr_sender_send_window now (w.tx)).0.sender seq ≡ true
          → has w.rx.receiver seq ≡ true
      agreed whole seq u known = elim (dec_lt seq w.tx.sender.base) [
        | yes below ↦ g.agreed whole seq (omega (arith, g.sending.sent)) (ground arith)
        | no above ↦ elim (dec_lt seq w.tx.sender.next_seq) [
          | yes old ↦ g.agreed whole seq old (
              ground
                (arith, known, s.base, ap (λ r. is_acked r.state) (s.kept seq (omega arith) old)))
          | no new ↦ absurd (ground (arith, known, s.base, s.fresh seq (omega arith) u))
        ]
      ]

  pub check-IsGood :
      (now : ℕ) → IsGood damaged file (record w { tx = (sr_sender_check_timeouts now (w.tx)).0 })
  check-IsGood now = record {
    sending = s.valid;
    sender_settled = (sr_sender_check_timeouts-Scans now (w.tx) g.sending g.sender_settled).1;
    same_file = s.same.file_data ∙ g.same_file;
    receiving = g.receiving;
    receiver_settled = g.receiver_settled;
    chunks_out = rw (s.outbox) (All-append (CarriesChunk file) w.tx.outbox _ g.chunks_out outgoing);
    acks_out = g.acks_out;
    agreed = λ whole seq u known.
        g.agreed whole seq (omega (arith, s.next_seq))
          (ground (arith, known, s.base, ap is_acked (s.states seq)));
  }
    where
      s :
          Scans now w.tx.sender.base
            (w.tx.sender.next_seq - w.tx.sender.base)
            (w.tx)
            (sr_sender_check_timeouts now (w.tx)).0
            0
            (sr_sender_check_timeouts now (w.tx)).1
      s = (sr_sender_check_timeouts-Scans now (w.tx) g.sending g.sender_settled).0

      in_file : w.tx.sender.base + s.looked ≤ chunks_of (length file)
      in_file = omega (
        arith,
        s.within,
        g.sending.sent,
        g.sending.bounded,
        g.sending.chunks,
        g.sending.file,
        ap (λ f. length f) g.same_file,
      )

      outgoing : All (CarriesChunk file) (due_datagrams now w.tx.sender w.tx.sender.base s.looked)
      outgoing =
          subst
            (λ f. All (CarriesChunk file) (
              chosen_datagrams w.tx.sender.lossy_link w.tx.sender.peer_addr f
                (timed_out now w.tx.sender) w.tx.sender.base s.looked))
            (sym g.same_file)
            (chosen_datagrams-CarriesChunk w.tx.sender.lossy_link w.tx.sender.peer_addr file
              g.receiving.small (timed_out now w.tx.sender) w.tx.sender.base s.looked in_file)

  -- A packet of the file, near or far, leads to a state as it should be.
  pub Takes-IsGood :
      {seq : ℕ} {out : Rx}
      → seq < chunks_of (length file)
      → Takes file seq (w.rx) out
      → IsGood damaged file (record w { rx = out })
  Takes-IsGood {seq} {out} inside t = record {
    sending = g.sending;
    sender_settled = g.sender_settled;
    same_file = g.same_file;
    receiving = t.valid;
    receiver_settled = t.settled;
    chunks_out = g.chunks_out;
    acks_out = rw (t.outbox) (
        All-append (CarriesAck (has out.receiver)) w.rx.outbox _
          (All-map (CarriesAck (has w.rx.receiver)) (CarriesAck (has out.receiver)) w.rx.outbox
            keeps g.acks_out)
          (
            record {
              seq = seq;
              held = ground (arith, t.exactly seq);
              packet = build_ack_packet-IsAckPacket seq (omega (arith, g.receiving.small));
            },
            tt,
          ));
    agreed = λ whole k u known. ground (arith, t.exactly k, g.agreed whole k u known);
  }
    where
      keeps : (d : Datagram) → CarriesAck (has w.rx.receiver) d → CarriesAck (has out.receiver) d
      keeps d c = record {
        seq = c.seq;
        held = ground (arith, t.exactly c.seq, c.held);
        packet = c.packet;
      }

  -- A datagram of the sender is handled with no copy out of bounds, and keeps what holds.
  pub data_arrives_runs :
      (d : Datagram)
      → Memᴰ d w.tx.outbox
      → (rx : Rx) × (sr_receiver_handle_data (w.rx) d.bytes ≡ some rx)
        × IsGood damaged file (record w { rx = rx })
  data_arrives_runs d m =
      let c = All-member (CarriesChunk file) g.chunks_out m in
      let (near, far) =
        sr_receiver_handle_data-Takes file (w.rx) c.seq d.bytes g.receiving g.receiver_settled
          c.inside c.packet in
      elim (dec_lt c.seq (w.rx.receiver.base + window_size)) [
        | yes u ↦ let (out, run, t) = near u in (out, run, Takes-IsGood c.inside t)
        | no n ↦ (w.rx, far (omega arith), g)
      ]

  pub ack_arrives-IsGood :
      (d : Datagram)
      → Memᴰ d w.rx.outbox
      → IsGood damaged file (record w { tx = sr_sender_handle_ack (decode d.bytes) (w.tx) })
  ack_arrives-IsGood d m = record {
    sending = acks.valid;
    sender_settled = acks.settled;
    same_file = acks.same.file_data ∙ g.same_file;
    receiving = g.receiving;
    receiver_settled = g.receiver_settled;
    chunks_out = rw (acks.outbox) g.chunks_out;
    acks_out = g.acks_out;
    agreed = λ whole k u known. elim (ℕ_discrete k c.seq) [
      | yes e ↦ rw e (c.held)
      | no ne ↦
          let old : k < w.tx.sender.next_seq = omega (arith, acks.next_seq) in
          g.agreed whole k old (ground (arith, known, acks.exactly k old, c.packet.ack))
    ];
  }
    where
      c : CarriesAck (has w.rx.receiver) d
      c = All-member (CarriesAck (has w.rx.receiver)) g.acks_out m

      acks : Acks (decode d.bytes).ack_num (w.tx) (sr_sender_handle_ack (decode d.bytes) (w.tx))
      acks =
          (sr_sender_handle_ack-Acks (decode d.bytes) (w.tx) g.sending g.sender_settled).0
            c.packet.kind

  -- Any bytes at the sender keep it valid.
  pub damage_arrives-IsGood :
      (packet : List ℕ)
      → damaged ≡ true
      → IsGood damaged file (record w { tx = sr_sender_handle_ack (decode packet) (w.tx) })
  damage_arrives-IsGood packet damages = elim (ℕ_discrete (decode packet).msg_type udp_ack) [
    | yes kind ↦
        let a = handled.0 kind in
        record {
          sending = a.valid;
          sender_settled = a.settled;
          same_file = a.same.file_data ∙ g.same_file;
          receiving = g.receiving;
          receiver_settled = g.receiver_settled;
          chunks_out = rw (a.outbox) g.chunks_out;
          acks_out = g.acks_out;
          agreed = λ whole. absurd (true-ne-false (sym damages ∙ whole));
        }
    | no other ↦ subst (λ t. IsGood damaged file (record w { tx = t })) (sym (handled.1 other)) g
  ]
    where
      handled :
          ((decode packet).msg_type ≡ udp_ack
            → Acks (decode packet).ack_num (w.tx) (sr_sender_handle_ack (decode packet) (w.tx)))
          × ((decode packet).msg_type ≢ udp_ack
              → sr_sender_handle_ack (decode packet) (w.tx) ≡ w.tx)
      handled = sr_sender_handle_ack-Acks (decode packet) (w.tx) g.sending g.sender_settled

-- The status and the clock are not in the invariant.
pub with_status-IsGood :
    {damaged : Bool} {file : List ℕ} {w : Session} (status : Status) (clock : ℕ)
    → IsGood damaged file w
    → IsGood damaged file (record w { status = status; clock = clock })
with_status-IsGood status clock g = record {
  sending = g.sending;
  sender_settled = g.sender_settled;
  same_file = g.same_file;
  receiving = g.receiving;
  receiver_settled = g.receiver_settled;
  chunks_out = g.chunks_out;
  acks_out = g.acks_out;
  agreed = g.agreed;
}
